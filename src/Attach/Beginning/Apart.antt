-- ===== src/Attach/Beginning/Apart.antt =====
-- A session whose socket no ending session uses (pkg/client/attach.go).
use conmon_rs.Base.{
  ℕ, ◌==◌, ◌≡◌, ◌≢◌, refl, sym, ◌∙◌, String, str_eq, Bool, true, false, [], ◌∷◌, arith, Bool-cases,
  inl, inr, ltb,
}
use mathlib.Core.Path.{subst}
use conmon_rs.Client.{AttachReader}
use conmon_rs.Attach.Readers.{close_stdin, remove_all, Readers, delete, socket_path_in_use}
use conmon_rs.Attach.Readers.Sockets.{removals, removals-append, in_use-delete}
use conmon_rs.Attach.Closing.{
  Closer, waiting, loaded, closed, removing, ranging, over, Closings, set, loads, loads_none,
  closes_input, range_starts, range_ends, removes, start,
}
use conmon_rs.Attach.Closing as Closing
use conmon_rs.Attach.Beginning.{
  Opener, asking, asked, connected, stored, failed, broken, Socket, missing, stale, listening,
  create, Sessions, remains, Step, ends, asks, ask_fails, dials, dial_fails, dial_breaks, stores,
  Runs, here, next,
}

-- A goroutine that has a reader of the socket.
abbrev pub has_path : String → Closer → Bool
has_path path (waiting id) = false
has_path path (loaded w) = str_eq w.socket_path path
has_path path (closed w) = str_eq w.socket_path path
has_path path (removing w) = str_eq w.socket_path path
has_path path (ranging w m) = str_eq w.socket_path path
has_path path over = false

module _ (path : String) where
  -- No session and no goroutine has a reader of the socket.
  abbrev pub IsApart : Closings → Type 0
  IsApart c =
      (socket_path_in_use path c.readers ≡ false) × ((i : ℕ) → has_path path (c.closers i) ≡ false)

  has_path-set :
      (i : ℕ) (c : Closer) (f : ℕ → Closer)
      → has_path path c ≡ false
      → ((j : ℕ) → has_path path (f j) ≡ false)
      → (j : ℕ) → has_path path (set i c f j) ≡ false
  has_path-set i c f h all j = elim (Bool-cases (j == i)) [
    | inl same ↦ rw same h
    | inr other ↦ rw other (all j)
  ]

  -- A step of an ending session keeps this, and removes nothing at the path.
  abbrev Kept : Closings → Closings → Type 0
  Kept s t = IsApart t × (removals path t.effects ≡ removals path s.effects)

  Step-IsApart : (s t : Closings) → Closing.Step s t → IsApart s → Kept s t
  Step-IsApart s t (loads i id w h there k) (unused, all) =
      let facts : (str_eq w.socket_path path ≡ false)
          × (socket_path_in_use path (delete id s.readers) ≡ false) =
        ground (arith, in_use-delete path id s.readers w there) in
      subst (Kept s) (sym k) ((facts.1, has_path-set i (loaded w) s.closers facts.0 all), refl)
  Step-IsApart s t (loads_none i id h gone k) (unused, all) =
      subst (Kept s) (sym k) ((unused, has_path-set i over s.closers refl all), refl)
  Step-IsApart s t (closes_input i w h k) (unused, all) =
      let other : str_eq w.socket_path path ≡ false = rw h at (all i) in
      subst (Kept s) (sym k) (
        (unused, has_path-set i (closed w) s.closers other all),
        removals-append path s.effects (close_stdin w.stdin ∷ []) ∙ ground arith,
      )
  Step-IsApart s t (range_starts i w h k) (unused, all) =
      let other : str_eq w.socket_path path ≡ false = rw h at (all i) in
      subst (Kept s) (sym k)
        ((unused, has_path-set i (ranging w s.readers) s.closers other all), refl)
  Step-IsApart s t (range_ends i w m true h can k) (unused, all) =
      subst (Kept s) (sym k) ((unused, has_path-set i over s.closers refl all), refl)
  Step-IsApart s t (range_ends i w m false h can k) (unused, all) =
      let other : str_eq w.socket_path path ≡ false = rw h at (all i) in
      subst (Kept s) (sym k) ((unused, has_path-set i (removing w) s.closers other all), refl)
  Step-IsApart s t (removes i w h k) (unused, all) =
      let other : str_eq w.socket_path path ≡ false = rw h at (all i) in
      subst (Kept s) (sym k) (
        (unused, has_path-set i over s.closers refl all),
        removals-append path s.effects (remove_all w.socket_path ∷ []) ∙ ground arith,
      )

  -- Until the new session is in the map, its socket stays as the server left it.
  abbrev IsSafe : Sessions → Opener → Type 0
  IsSafe s asking = IsApart s.closings × (s.socket ≢ stale)
  IsSafe s asked = IsApart s.closings × (s.socket ≡ listening)
  IsSafe s connected = IsApart s.closings
  IsSafe s stored = Unit {0}
  IsSafe s broken = Unit {0}
  IsSafe s failed = ⊥

  create_lem : (k : Socket) → k ≢ stale → create k ≡ listening
  create_lem missing h = refl
  create_lem stale h = absurd (h refl)
  create_lem listening h = refl

  ends-IsSafe :
      (s : Sessions) (c : Closings) (o : Opener)
      → Closing.Step s.closings c
      → IsSafe s o
      → IsSafe (record s { closings = c; socket = remains path s.closings c s.socket }) o
  ends-IsSafe s c asking step (apart, usable) =
      let (apart', same) = Step-IsApart s.closings c step apart in (apart', ground arith)
  ends-IsSafe s c asked step (apart, there) =
      let (apart', same) = Step-IsApart s.closings c step apart in (apart', ground arith)
  ends-IsSafe s c connected step apart = (Step-IsApart s.closings c step apart).0
  ends-IsSafe s c stored step safe = tt
  ends-IsSafe s c broken step safe = tt
  ends-IsSafe s c failed step safe = safe

  module _ (id : String) (v : AttachReader) where
    Step-IsSafe : (s t : Sessions) → Step path id v s t → IsSafe s s.opener → IsSafe t t.opener
    Step-IsSafe s t (ends c step k) safe =
        subst (λ (u : Sessions). IsSafe u u.opener) (sym k) (ends-IsSafe s c s.opener step safe)
    Step-IsSafe s t (asks h k) safe =
        let (apart, usable) = subst (IsSafe s) h safe in
        subst (λ (u : Sessions). IsSafe u u.opener) (sym k) (apart, create_lem s.socket usable)
    Step-IsSafe s t (ask_fails h k) safe = subst (λ (u : Sessions). IsSafe u u.opener) (sym k) tt
    Step-IsSafe s t (dial_breaks h k) safe = subst (λ (u : Sessions). IsSafe u u.opener) (sym k) tt
    Step-IsSafe s t (dials h there k) safe =
        subst (λ (u : Sessions). IsSafe u u.opener) (sym k) ((subst (IsSafe s) h safe).0)
    Step-IsSafe s t (dial_fails h gone k) safe = absurd (gone (subst (IsSafe s) h safe).1)
    Step-IsSafe s t (stores h k) safe = subst (λ (u : Sessions). IsSafe u u.opener) (sym k) tt

    Runs-IsSafe : (s t : Sessions) → Runs path id v s t → IsSafe s s.opener → IsSafe t t.opener
    Runs-IsSafe s t here safe = safe
    Runs-IsSafe s t (next {t = u} run step) safe = Step-IsSafe u t step (Runs-IsSafe s u run safe)

    start-IsApart :
        (n : ℕ) (ids : ℕ → String) (m : Readers)
        → socket_path_in_use path m ≡ false
        → IsApart (start n ids m)
    start-IsApart n ids m unused = (
      unused,
      λ i. elim (Bool-cases (ltb i n)) [
        | inl runs ↦ rw runs refl
        | inr not_there ↦ rw not_there refl
      ],
    )

    -- However any number of ending sessions and the steps of a new one interleave, while the server
    -- runs: if no session that is there at the start uses the socket of the new one, and nothing is
    -- at its path or the server listens there, then its dial never fails for want of a listener. A
    -- stale socket is excluded, and failures of the call and of the dial for other reasons are not
    -- denied.
    pub Runs-ne-failed :
        (n : ℕ) (ids : ℕ → String) (m : Readers) (there : Socket) (t : Sessions)
        → there ≢ stale
        → socket_path_in_use path m ≡ false
        → Runs path id v (record { closings = start n ids m; opener = asking; socket = there }) t
        → t.opener ≢ failed
    Runs-ne-failed n ids m there t usable unused run h =
        subst (IsSafe t) h (Runs-IsSafe _ t run (start-IsApart n ids m unused, usable))
