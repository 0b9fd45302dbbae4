-- ===== src/Attach/Closing/Unused.antt =====
-- Sessions that end at the same time remove no socket that is in use (pkg/client/attach.go).
use conmon_rs.Base.{
  ℕ, ◌==◌, ◌≡◌, refl, sym, String, Bool, true, false, not, inl, inr, if◌then◌else◌, arith,
  Bool-cases, ltb,
}
use mathlib.Core.Path.{subst}
use conmon_rs.Client.{AttachReader}
use conmon_rs.Attach.Readers.{Readers, delete, socket_path_in_use}
use conmon_rs.Attach.Readers.Sockets.{in_use_shrinks_once}
use conmon_rs.Attach.Closing.{
  Closer, waiting, loaded, closed, removing, ranging, over, Closings, set, can_find, Step, loads,
  loads_none, closes_input, range_starts, range_ends, removes, Reach, here, next, start,
}

-- A goroutine that is about to remove a socket finds it out of use.
abbrev pub may_go_on : Readers → Closer → Bool
may_go_on m (removing v) = not (socket_path_in_use v.socket_path m)
may_go_on m (waiting id) = true
may_go_on m (loaded v) = true
may_go_on m (closed v) = true
may_go_on m (ranging v m') = true
may_go_on m over = true

abbrev pub AllGoOn : Closings → Type 0
AllGoOn s = (i : ℕ) → may_go_on s.readers (s.closers i) ≡ true

may_go_on-set :
    (m : Readers) (i : ℕ) (c : Closer) (f : ℕ → Closer)
    → may_go_on m c ≡ true
    → ((j : ℕ) → may_go_on m (f j) ≡ true)
    → (j : ℕ) → may_go_on m (set i c f j) ≡ true
may_go_on-set m i c f h all j = elim (Bool-cases (j == i)) [
  | inl same ↦ rw same h
  | inr other ↦ rw other (all j)
]

may_go_on-delete :
    (id : String) (m : Readers) (c : Closer)
    → may_go_on m c ≡ true
    → may_go_on (delete id m) c ≡ true
may_go_on-delete id m (removing v) h = ground (arith, in_use_shrinks_once v.socket_path id m)
may_go_on-delete id m (waiting i) h = refl
may_go_on-delete id m (loaded v) h = refl
may_go_on-delete id m (closed v) h = refl
may_go_on-delete id m (ranging v m') h = refl
may_go_on-delete id m over h = refl

finds_lem :
    (v : AttachReader) (m now : Readers) (found : Bool)
    → can_find v.socket_path m now found ≡ true
    → may_go_on now (if found then over else removing v) ≡ true
finds_lem v m now true h = refl
finds_lem v m now false h = ground arith

Step-AllGoOn : (s t : Closings) → Step s t → AllGoOn s → AllGoOn t
Step-AllGoOn s t (loads i id v h there k) all = subst AllGoOn (sym k) (
    may_go_on-set (delete id s.readers) i (loaded v) s.closers refl
      (λ j. may_go_on-delete id s.readers (s.closers j) (all j)))
Step-AllGoOn s t (loads_none i id h none_there k) all =
    subst AllGoOn (sym k) (may_go_on-set s.readers i over s.closers refl all)
Step-AllGoOn s t (closes_input i v h k) all =
    subst AllGoOn (sym k) (may_go_on-set s.readers i (closed v) s.closers refl all)
Step-AllGoOn s t (range_starts i v h k) all =
    subst AllGoOn (sym k) (may_go_on-set s.readers i (ranging v s.readers) s.closers refl all)
Step-AllGoOn s t (range_ends i v m found h can k) all = subst AllGoOn (sym k) (
    may_go_on-set s.readers i (if found then over else removing v) s.closers
      (finds_lem v m s.readers found can) all)
Step-AllGoOn s t (removes i v h k) all =
    subst AllGoOn (sym k) (may_go_on-set s.readers i over s.closers refl all)

Reach-AllGoOn : (s t : Closings) → Reach s t → AllGoOn s → AllGoOn t
Reach-AllGoOn s t here all = all
Reach-AllGoOn s t (next {t = u} reach step) all =
    Step-AllGoOn u t step (Reach-AllGoOn s u reach all)

start-AllGoOn : (n : ℕ) (ids : ℕ → String) (m : Readers) → AllGoOn (start n ids m)
start-AllGoOn n ids m i = elim (Bool-cases (ltb i n)) [
  | inl runs ↦ rw runs refl
  | inr not_there ↦ rw not_there refl
]

-- However the goroutines of ending sessions interleave: while one of them is about to remove a
-- socket, no session that is left uses the socket.
pub Reach-removing :
    (n : ℕ) (ids : ℕ → String) (m : Readers) (t : Closings) (i : ℕ) (v : AttachReader)
    → Reach (start n ids m) t
    → t.closers i ≡ removing v
    → socket_path_in_use v.socket_path t.readers ≡ false
Reach-removing n ids m t i v reach h =
    let all = Reach-AllGoOn (start n ids m) t reach (start-AllGoOn n ids m) in
    let safe = rw h at (all i) in ground arith
