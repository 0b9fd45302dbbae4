-- ===== src/Attach/Beginning/Race.antt =====
-- A session that begins while the last one at its socket ends (pkg/client/attach.go).
use conmon_rs.Base.{◌≡◌, refl, String, eq_iff, true, false, some, [], ◌∷◌, arith}
use conmon_rs.Client.{AttachReader}
use conmon_rs.Attach.Readers.{close_stdin, remove_all, Readers, load, delete, socket_path_in_use}
use conmon_rs.Attach.Closing.{
  loaded, closed, removing, ranging, over, Closings, set, can_find, loads, closes_input,
  range_starts, range_ends, removes, start,
}
use conmon_rs.Attach.Beginning.{
  asking, asked, failed, missing, listening, Sessions, remains, ends, asks, dial_fails, Runs, here,
  next,
}

-- The goroutine of the old session up to its search, and its `RemoveAll`.
abbrev out : String → Readers → AttachReader → Closings
out old m w = record {
  readers = delete old m;
  closers = set 0 (loaded w) (start 1 (λ i. old) m).closers;
  effects = [];
}

abbrev input_closed : String → Readers → AttachReader → Closings
input_closed old m w =
    let s = out old m w in
    record s { closers = set 0 (closed w) s.closers; effects = close_stdin w.stdin ∷ [] }

abbrev searching : String → Readers → AttachReader → Closings
searching old m w =
    let s = input_closed old m w in record s { closers = set 0 (ranging w s.readers) s.closers }

abbrev to_remove : String → Readers → AttachReader → Closings
to_remove old m w = let s = searching old m w in record s { closers = set 0 (removing w) s.closers }

abbrev removed : String → Readers → AttachReader → Closings
removed old m w =
    let s = to_remove old m w in
    record s {
      closers = set 0 over s.closers;
      effects = close_stdin w.stdin ∷ remove_all w.socket_path ∷ [];
    }

gone_lem :
    (old path : String) (m : Readers) (w : AttachReader)
    → w.socket_path ≡ path
    → remains path (to_remove old m w) (removed old m w) listening ≡ missing
gone_lem old path m w same = ground (arith, eq_iff w.socket_path path)

none_found :
    (path : String) (m : Readers) (w : AttachReader)
    → w.socket_path ≡ path
    → socket_path_in_use path m ≡ false
    → can_find w.socket_path m m false ≡ true
none_found path m w same last = ground arith

-- For every socket whose last session ends: a new session at the socket can ask the server for
-- it, which listens there, and yet fail to connect, since the goroutine of the old
-- session finds no reader of the socket and removes it.
pub Runs-failed :
    (id old : String) (m : Readers) (v w : AttachReader)
    → load old m ≡ some w
    → w.socket_path ≡ v.socket_path
    → socket_path_in_use v.socket_path (delete old m) ≡ false
    → (t : Sessions) × Runs v.socket_path id v
        (record { closings = start 1 (λ i. old) m; opener = asking; socket = listening })
        t
      × (t.opener ≡ failed)
Runs-failed id old m v w there same last =
    let path = v.socket_path in
    let s1 : Sessions = record { closings = out old m w; opener = asking; socket = listening } in
    let s2 : Sessions = record {
      closings = input_closed old m w;
      opener = asking;
      socket = listening;
    } in
    let s3 : Sessions = record {
      closings = searching old m w;
      opener = asking;
      socket = listening;
    } in
    let s4 : Sessions = record {
      closings = to_remove old m w;
      opener = asking;
      socket = listening;
    } in
    let s5 : Sessions = record {
      closings = to_remove old m w;
      opener = asked;
      socket = listening;
    } in
    let gone = remains path (to_remove old m w) (removed old m w) listening in
    let s6 : Sessions = record { closings = removed old m w; opener = asked; socket = gone } in
    let s7 : Sessions = record { closings = removed old m w; opener = failed; socket = gone } in
    let run1 : Runs path id v _ s1 =
      next here (ends (out old m w) (loads 0 old w refl there refl) refl) in
    let run2 : Runs path id v _ s2 =
      next run1 (ends (input_closed old m w) (closes_input 0 w refl refl) refl) in
    let run3 : Runs path id v _ s3 =
      next run2 (ends (searching old m w) (range_starts 0 w refl refl) refl) in
    let found = none_found path (delete old m) w same last in
    let run4 : Runs path id v _ s4 =
      next run3
        (ends (to_remove old m w) (range_ends 0 w (delete old m) false refl found refl) refl) in
    let run5 : Runs path id v _ s5 = next run4 (asks refl refl) in
    let run6 : Runs path id v _ s6 =
      next run5 (ends (removed old m w) (removes 0 w refl refl) refl) in
    let run7 : Runs path id v _ s7 =
      next run6 (dial_fails refl (λ h. cc (gone_lem old path m w same)) refl) in
    (s7, run7, refl)
