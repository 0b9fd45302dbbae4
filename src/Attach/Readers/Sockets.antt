-- ===== src/Attach/Readers/Sockets.antt =====
-- When the socket of an attach session is removed (pkg/client/attach.go, pkg/client/client.go).
use conmon_rs.Base.{
  ℕ, ◌+◌, ◌≡◌, refl, String, str_eq, eq_iff, true, false, ◌&&◌, ◌||◌, not, none, some, List, [],
  ◌∷◌, ◌++◌, arith, if◌then◌else◌, Option-cases, inl, inr,
}
use mathlib.Core.List.{append_assoc}
use conmon_rs.Client.{AttachReader}
use conmon_rs.Attach.Readers.{
  Effect, close_stdin, remove_all, Readers, load, delete, socket_path_in_use, close_attach_reader,
  try_close_attach_reader_for_id, close_each, shutdown_readers,
}

-- How often a socket is removed.
abbrev pub removals : String → List Effect → ℕ
removals path [] = 0
removals path (close_stdin n ∷ es) = removals path es
removals path (remove_all p ∷ es) = (if str_eq p path then 1 else 0) + removals path es

-- Sessions that end one after the other, in any order.
unfoldable pub close_sessions : List String → Readers → Readers × List Effect
close_sessions [] m = (m, [])
close_sessions (id ∷ ids) m =
    let (m', es) = try_close_attach_reader_for_id id m in
    let (m'', more) = close_sessions ids m' in (m'', es ++ more)

pub removals-append :
    (path : String) (es fs : List Effect)
    → removals path (es ++ fs) ≡ removals path es + removals path fs
removals-append path [] fs = ground arith
removals-append path (close_stdin n ∷ es) fs = removals-append path es fs
removals-append path (remove_all p ∷ es) fs = ground (arith, removals-append path es fs)

pub in_use-delete :
    (path id : String) (m : Readers) (v : AttachReader)
    → load id m ≡ some v
    → socket_path_in_use path m
      ≡ (str_eq v.socket_path path || socket_path_in_use path (delete id m))
unfolding load delete socket_path_in_use
in_use-delete path id [] v e = cc
in_use-delete path id ((k, w) ∷ m) v e = ground (arith, in_use-delete path id m v)

delete_absent : (id : String) (m : Readers) → load id m ≡ none → delete id m ≡ m
unfolding load delete
delete_absent id [] e = refl
delete_absent id ((k, w) ∷ m) e = ground (arith, delete_absent id m)

-- One session that ends removes a socket once if it was the last of the socket's readers, and
-- never otherwise.
pub removals-try_close :
    (path id : String) (m : Readers)
    → let (m', es) = try_close_attach_reader_for_id id m in
      removals path es
      ≡ (if socket_path_in_use path m && not (socket_path_in_use path m') then 1 else 0)
unfolding try_close_attach_reader_for_id close_attach_reader
removals-try_close path id m = elim (Option-cases (load id m)) [
  | inl e ↦ ground (arith, delete_absent id m e)
  | inr (v, e) ↦ ground (
    arith,
    in_use-delete path id m v e,
    in_use-delete v.socket_path id m v e,
    eq_iff v.socket_path path,
  )
]

pub in_use_shrinks_once :
    (path id : String) (m : Readers)
    → socket_path_in_use path m ≡ false
    → socket_path_in_use path (delete id m) ≡ false
in_use_shrinks_once path id m h = elim (Option-cases (load id m)) [
  | inl e ↦ rw (delete_absent id m e) h
  | inr (v, e) ↦ ground (arith, in_use-delete path id m v e)
]

in_use_shrinks :
    (path : String) (ids : List String) (m : Readers)
    → socket_path_in_use path m ≡ false
    → socket_path_in_use path (close_sessions ids m).0 ≡ false
unfolding close_sessions try_close_attach_reader_for_id
in_use_shrinks path [] m h = h
in_use_shrinks path (id ∷ ids) m h =
    in_use_shrinks path ids (delete id m) (in_use_shrinks_once path id m h)

in_use_try_close :
    (path id : String) (m : Readers)
    → socket_path_in_use path m ≡ false
    → socket_path_in_use path (try_close_attach_reader_for_id id m).0 ≡ false
unfolding try_close_attach_reader_for_id
in_use_try_close path id m h = in_use_shrinks_once path id m h

-- Over any sequence of sessions that end, in any order and with unknown ids among them, the socket
-- is removed exactly once if its last reader ends in it, and never otherwise.
pub removals-close_sessions :
    (path : String) (ids : List String) (m : Readers)
    → let (m', es) = close_sessions ids m in
      removals path es
      ≡ (if socket_path_in_use path m && not (socket_path_in_use path m') then 1 else 0)
unfolding close_sessions
removals-close_sessions path [] m = ground arith
removals-close_sessions path (id ∷ ids) m =
    let (m', es) = try_close_attach_reader_for_id id m in
    ground (
      arith,
      removals-append path es (close_sessions ids m').1,
      removals-try_close path id m,
      removals-close_sessions path ids m',
      in_use_shrinks path ids m',
      in_use_shrinks path (id ∷ ids) m,
      in_use_try_close path id m,
    )

abbrev stdins : Readers → List Effect
stdins [] = []
stdins ((k, v) ∷ m) = close_stdin v.stdin ∷ stdins m

in_use-append :
    (k : String) (v : AttachReader) (front back : Readers)
    → socket_path_in_use v.socket_path (front ++ (k, v) ∷ back) ≡ true
unfolding socket_path_in_use
in_use-append k v [] back = ground (arith, eq_iff v.socket_path v.socket_path)
in_use-append k v ((j, w) ∷ front) back = ground (arith, in_use-append k v front back)

close_each-stdins : (front rest : Readers) → close_each rest (front ++ rest) ≡ stdins rest
unfolding close_each close_attach_reader
close_each-stdins front [] = refl
close_each-stdins front ((k, v) ∷ rest) = ground (
  arith,
  in_use-append k v front rest,
  append_assoc front ((k, v) ∷ []) rest,
  close_each-stdins (front ++ (k, v) ∷ []) rest,
)

-- `Shutdown` closes the input of every session and removes no socket: each reader finds its own
-- entry in the map.
pub shutdown_readers-stdins : (m : Readers) → shutdown_readers m ≡ stdins m
unfolding shutdown_readers
shutdown_readers-stdins m = close_each-stdins [] m
