-- ===== src/Attach/Closing/Removal.antt =====
-- When sessions that end at the same time remove their sockets (pkg/client/attach.go).
use conmon_rs.Base.{
  ℕ, ◌==◌, ==_iff, ◌≤◌, ◌≡◌, refl, sym, ap, ◌∙◌, ◌⊎◌, inl, inr, String, str_eq, eq_iff, Bool, true,
  false, not, ◌&&◌, some, List, [], ◌∷◌, ◌++◌, if◌then◌else◌, arith, Bool-cases,
}
use mathlib.Core.Path.{subst}
use conmon_rs.Client.{AttachReader}
use conmon_rs.Attach.Readers.{
  Effect, close_stdin, remove_all, Readers, load, delete, socket_path_in_use,
}
use conmon_rs.Attach.Readers.Sockets.{removals, removals-append, in_use-delete}
use conmon_rs.Attach.Closing.{
  Closer, waiting, loaded, closed, removing, ranging, over, Closings, set, can_find, Step, loads,
  loads_none, closes_input, range_starts, range_ends, removes, Reach, here, next, start,
}

-- A goroutine that is to remove the socket, unless a later reader turns up.
abbrev pub holds : String → Closer → Bool
holds path (waiting id) = false
holds path (loaded v) = str_eq v.socket_path path
holds path (closed v) = str_eq v.socket_path path
holds path (removing v) = str_eq v.socket_path path
holds path (ranging v m) = str_eq v.socket_path path && not (socket_path_in_use path m)
holds path over = false

module _ (path : String) where
  abbrev pub Pending : Closings → Type 0
  Pending s =
      (socket_path_in_use path s.readers ≡ true)
      ⊎ (((i : ℕ) × (holds path (s.closers i) ≡ true)) ⊎ (1 ≤ removals path s.effects))

  set_self : (i : ℕ) (c : Closer) (f : ℕ → Closer) → set i c f i ≡ c
  set_self i c f = let same = (==_iff i i).1 refl in rw same refl

  moved :
      (i j : ℕ) (c : Closer) (f : ℕ → Closer)
      → holds path (f j) ≡ true
      → (holds path (f i) ≡ true → holds path c ≡ true)
      → (k : ℕ) × (holds path (set i c f k) ≡ true)
  moved i j c f h go = elim (Bool-cases (j == i)) [
    | inl same ↦
        let e : j ≡ i = (==_iff j i).0 same in
        (i, ap (holds path) (set_self i c f) ∙ go (rw e at h))
    | inr other ↦ (j, rw other h)
  ]

  keeps :
      (s : Closings) (i : ℕ) (c : Closer) (es : List Effect)
      → (holds path (s.closers i) ≡ true → holds path c ≡ true)
      → removals path s.effects ≤ removals path es
      → Pending s
      → Pending (record s { closers = set i c s.closers; effects = es })
  keeps s i c es go more (inl used) = inl used
  keeps s i c es go more (inr (inl (j, h))) = inr (inl (moved i j c s.closers h go))
  keeps s i c es go more (inr (inr once)) = inr (inr (omega arith))

  removals-more :
      (s : Closings) (e : Effect) → removals path s.effects ≤ removals path (s.effects ++ e ∷ [])
  removals-more s e = omega (arith, removals-append path s.effects (e ∷ []))

  takes_out :
      (s : Closings) (i : ℕ) (id : String) (v : AttachReader)
      → s.closers i ≡ waiting id
      → load id s.readers ≡ some v
      → Pending s
      → Pending (record s { readers = delete id s.readers; closers = set i (loaded v) s.closers })
  takes_out s i id v h there (inr (inr once)) = inr (inr once)
  takes_out s i id v h there (inr (inl (j, held))) =
      inr (inl (moved i j (loaded v) s.closers held (λ x. cc (rw h at x))))
  takes_out s i id v h there (inl used) = elim (Bool-cases (str_eq v.socket_path path)) [
    | inl same ↦ inr (inl (i, ap (holds path) (set_self i (loaded v) s.closers) ∙ same))
    | inr other ↦ inl (ground (arith, in_use-delete path id s.readers v there))
  ]

  begins :
      (s : Closings) (i : ℕ) (v : AttachReader)
      → s.closers i ≡ closed v
      → Pending s
      → Pending (record s { closers = set i (ranging v s.readers) s.closers })
  begins s i v h pending = elim (Bool-cases (socket_path_in_use path s.readers)) [
    | inl used ↦ inl used
    | inr unused ↦
        keeps s i (ranging v s.readers) s.effects (λ x. let y = rw h at x in ground arith)
          (omega arith) pending
  ]

  finds :
      (s : Closings) (i : ℕ) (v : AttachReader) (m : Readers) (found : Bool)
      → s.closers i ≡ ranging v m
      → can_find v.socket_path m s.readers found ≡ true
      → Pending s
      → Pending (record s { closers = set i (if found then over else removing v) s.closers })
  finds s i v m true h can pending =
      keeps s i over s.effects (λ x. let y = rw h at x in ground (arith, eq_iff v.socket_path path))
        (omega arith) pending
  finds s i v m false h can pending =
      keeps s i (removing v) s.effects (λ x. let y = rw h at x in ground arith) (omega arith)
        pending

  unlinks :
      (s : Closings) (i : ℕ) (v : AttachReader)
      → s.closers i ≡ removing v
      → Pending s
      → Pending (record s {
        closers = set i over s.closers;
        effects = s.effects ++ remove_all v.socket_path ∷ [];
      })
  unlinks s i v h pending =
      let count = removals-append path s.effects (remove_all v.socket_path ∷ []) in
      elim (Bool-cases (str_eq v.socket_path path)) [
        | inl same ↦ inr (inr (ground arith))
        | inr other ↦
            keeps s i over (s.effects ++ remove_all v.socket_path ∷ [])
              (λ x. let y = rw h at x in cc) (removals-more s (remove_all v.socket_path)) pending
      ]

  Step-Pending : (s t : Closings) → Step s t → Pending s → Pending t
  Step-Pending s t (loads i id v h there k) p = subst Pending (sym k) (takes_out s i id v h there p)
  Step-Pending s t (loads_none i id h none_there k) p =
      subst Pending (sym k) (keeps s i over s.effects (λ x. cc (rw h at x)) (omega arith) p)
  Step-Pending s t (closes_input i v h k) p = subst Pending (sym k) (
      keeps s i (closed v) (s.effects ++ close_stdin v.stdin ∷ []) (λ x. rw h at x)
        (removals-more s (close_stdin v.stdin)) p)
  Step-Pending s t (range_starts i v h k) p = subst Pending (sym k) (begins s i v h p)
  Step-Pending s t (range_ends i v m found h can k) p =
      subst Pending (sym k) (finds s i v m found h can p)
  Step-Pending s t (removes i v h k) p = subst Pending (sym k) (unlinks s i v h p)

  Reach-Pending : (s t : Closings) → Reach s t → Pending s → Pending t
  Reach-Pending s t here p = p
  Reach-Pending s t (next {t = u} reach step) p = Step-Pending u t step (Reach-Pending s u reach p)

  over_lem :
      (t : Closings)
      → Pending t
      → socket_path_in_use path t.readers ≡ false
      → ((i : ℕ) → t.closers i ≡ over)
      → 1 ≤ removals path t.effects
  over_lem t (inl used) unused ended = cc
  over_lem t (inr (inl (i, held))) unused ended = cc (rw (ended i) at held)
  over_lem t (inr (inr once)) unused ended = once

  -- However the goroutines of ending sessions interleave: once all of them are over, a socket that
  -- had a reader at the start and has none left has been removed, at least once.
  pub Reach-removals :
      (n : ℕ) (ids : ℕ → String) (m : Readers) (t : Closings)
      → socket_path_in_use path m ≡ true
      → Reach (start n ids m) t
      → socket_path_in_use path t.readers ≡ false
      → ((i : ℕ) → t.closers i ≡ over)
      → 1 ≤ removals path t.effects
  Reach-removals n ids m t used reach unused ended =
      over_lem t (Reach-Pending (start n ids m) t reach (inl used)) unused ended
