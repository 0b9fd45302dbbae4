-- ===== src/FdSocket/Owners.antt =====
-- All connections of the fd socket together (conmon-rs/server/src/fd_socket.rs): the rounds of
-- `serve` of each, `Drop` of its guard, and `take` by a call, in any order. Each holds the lock of
-- the state for the whole step.
use mathlib.Core.Path.{subst}
use conmon_rs.Base.{
  ℕ, ◌≡◌, refl, ap, List, [], ◌∷◌, ◌++◌, ◌==◌, Bool, true, false, ◌||◌, none, some, Option-cases,
  Bool-cases, inl, inr, arith, if◌then◌else◌, take,
}
use conmon_rs.RemoteFds.{uint64}
use conmon_rs.FdSocket.{
  Fds, State, Serving, get, occupied, remove, remove_all, add, take_slot, close, add_all, keep_slot,
  answer, Reaction, serve,
}
use conmon_rs.FdSocket.Slots.{get-remove}

abbrev pub member : ℕ → List ℕ → Bool
member k [] = false
member k (x ∷ xs) = x == k || member k xs

-- Some guard lists the slot.
abbrev pub listed : ℕ → List (List ℕ) → Bool
listed k [] = false
listed k (slots ∷ guards) = member k slots || listed k guards

pub record World : Type 0 where
  pub state : State
  pub guards : List (List ℕ)

pub data Step (w : World) : World → Type 0 where
  connected : Step w (record w { guards = [] ∷ w.guards })
  served :
      (before after : List (List ℕ)) (slots packet received : List ℕ) (reaction : Reaction)
      (s : Serving)
      → w.guards ≡ before ++ slots ∷ after
      → serve packet received (record { state = w.state; slots = slots }) ≡ some (reaction, s)
      → Step w (record { state = s.state; guards = before ++ s.slots ∷ after })
  disconnected :
      (before after : List (List ℕ)) (slots : List ℕ)
      → w.guards ≡ before ++ slots ∷ after
      → Step w (record {
        state = (close (record { state = w.state; slots = slots })).state;
        guards = before ++ after;
      })
  taken : (slot : ℕ) → Step w (record w { state = (take_slot slot w.state).1 })

pub data Reach : World → Type 0 where
  start : (last : ℕ) → Reach (record { state = record { last = last; fds = [] }; guards = [] })
  next : {w w' : World} → Reach w → Step w w' → Reach w'

-- A slot of the map is listed by one of the guards.
abbrev pub IsOwned : Fds → List (List ℕ) → Type 0
IsOwned fds guards = (k : ℕ) → occupied k fds ≡ true → listed k guards ≡ true

member-append : (k : ℕ) (xs ys : List ℕ) → member k (xs ++ ys) ≡ member k xs || member k ys
member-append k [] ys = refl
member-append k (x ∷ xs) ys = ground (arith, member-append k xs ys)

listed-append : (k : ℕ) (xs ys : List (List ℕ)) → listed k (xs ++ ys) ≡ listed k xs || listed k ys
listed-append k [] ys = refl
listed-append k (x ∷ xs) ys = ground (arith, listed-append k xs ys)

-- What becomes of each slot of a connection's serving.
pub get-remove_all :
    (k : ℕ) (slots : List ℕ) (fds : Fds)
    → get k (remove_all slots fds) ≡ (if member k slots then none else get k fds)
unfolding remove_all
get-remove_all k [] fds = refl
get-remove_all k (slot ∷ slots) fds =
    ground (arith, get-remove_all k slots (remove slot fds), get-remove k slot fds)

-- A round adds no slot to the map but those that it adds to the guard, and empties the guard only
-- as it removes its slots.
abbrev Keeps : Serving → Serving → Type 0
Keeps s s' =
    (k : ℕ)
    → occupied k s'.state.fds ≡ true
    → (member k s.slots ≡ true → member k s'.slots ≡ true)
      × (occupied k s.state.fds ≡ false → member k s'.slots ≡ true)

Keeps-refl : (s : Serving) → Keeps s s
Keeps-refl s k h = (λ m. m, λ m. ground arith)

Keeps-close : (s : Serving) → Keeps s (close s)
unfolding close occupied
Keeps-close s k h = ground (arith, get-remove_all k s.slots s.state.fds)

Keeps-add :
    (fd : ℕ) (s : Serving) (added : ℕ × State)
    → add fd s.state ≡ some added
    → Keeps s (keep_slot s added)
unfolding add occupied get
Keeps-add fd s added e k h = ground (arith, member-append k s.slots (added.0 ∷ []))

Keeps-trans : (s t u : Serving) → Keeps s t → Keeps t u → Keeps s u
Keeps-trans s t u f g k h = elim (Bool-cases (occupied k t.state.fds)) [
  | inl there ↦
      let (kept, new) = f k there in
      let (kept', new') = g k h in (λ m. kept' (kept m), λ m. kept' (new m))
  | inr gone ↦ let (kept', new') = g k h in (λ m. new' gone, λ m. new' gone)
]

Keeps-add_all :
    (fds : List ℕ) (s s' : Serving) (slots : List ℕ) → add_all fds s ≡ some (slots, s') → Keeps s s'
unfolding add_all
Keeps-add_all [] s s' slots e =
    let same : s ≡ s' = ground arith in subst (λ (t : Serving). Keeps s t) same (Keeps-refl s)
Keeps-add_all (fd ∷ fds) s s' slots e = elim (Option-cases (add fd s.state)) [
  | inl full ↦ absurd (ground arith)
  | inr (added, found) ↦ elim (Option-cases (add_all fds (keep_slot s added))) [
    | inl full ↦ absurd (ground arith)
    | inr ((more, t), rest) ↦
        let same : t ≡ s' = ground arith in
        subst (λ (u : Serving). Keeps s u) same
          (Keeps-trans s (keep_slot s added) t (Keeps-add fd s added found)
            (Keeps-add_all fds (keep_slot s added) t more rest))
  ]
]

Keeps-answer :
    (header : ℕ) (received p : List ℕ) (s s' : Serving)
    → answer header received s ≡ some (p, s')
    → Keeps s s'
unfolding answer
Keeps-answer header received p s s' e k h = elim (Option-cases (add_all received s)) [
  | inl full ↦ ground (arith, Keeps-refl s k)
  | inr ((slots, t), added) ↦
      ground (arith, Keeps-add_all received s t slots added k, Keeps-refl s k)
]

Keeps-serve :
    (packet received : List ℕ) (s s' : Serving) (reaction : Reaction)
    → serve packet received s ≡ some (reaction, s')
    → Keeps s s'
unfolding serve
Keeps-serve packet received s s' reaction e k h =
    elim (Option-cases (answer (uint64 (take 9 packet)) received s)) [
      | inl full ↦ ground (arith, Keeps-refl s k, Keeps-close s k)
      | inr ((p, t), answered) ↦ ground (
        arith,
        Keeps-answer (uint64 (take 9 packet)) received p s t answered k,
        Keeps-refl s k,
        Keeps-close s k,
      )
    ]

occupied-take_slot :
    (k slot : ℕ) (s : State) → occupied k (take_slot slot s).1.fds ≡ true → occupied k s.fds ≡ true
unfolding occupied take_slot
occupied-take_slot k slot s h = elim (Option-cases (get slot s.fds)) [
  | inl vacant ↦ ground arith
  | inr (fd, found) ↦ ground (arith, get-remove k slot s.fds)
]

empty-vacant : (fds : Fds) → ((k : ℕ) → occupied k fds ≡ false) → fds ≡ []
unfolding occupied get
empty-vacant [] h = refl
empty-vacant ((key, fd) ∷ fds) h = ground (arith, h key)

-- In every order of rounds, ends of connections and calls, a slot that holds a descriptor is listed
-- by the guard of an open connection.
pub Reach-IsOwned : {w : World} → Reach w → IsOwned w.state.fds w.guards
unfolding occupied get
Reach-IsOwned (start last) k h = cc
Reach-IsOwned (next reach connected) k h = Reach-IsOwned reach k h
Reach-IsOwned (next {w} reach (served before after slots packet received reaction s same round)) k
      h =
    let owned : occupied k w.state.fds ≡ true → listed k w.guards ≡ true = Reach-IsOwned reach k in
    let kept = Keeps-serve packet received _ s reaction round k h in
    let split = listed-append k before (slots ∷ after) in
    let split' = listed-append k before (s.slots ∷ after) in
    let all = ap (listed k) same in
    elim (Bool-cases (occupied k w.state.fds)) [
      | inr absent ↦ let now = kept.1 absent in ground arith
      | inl there ↦
          let before' = owned there in
          elim (Bool-cases (member k slots)) [
            | inl mine ↦ let now = kept.0 mine in ground arith
            | inr other ↦ ground arith
          ]
    ]
Reach-IsOwned (next {w} reach (disconnected before after slots same)) k h =
    let owned : occupied k w.state.fds ≡ true → listed k w.guards ≡ true = Reach-IsOwned reach k in
    let split = listed-append k before (slots ∷ after) in
    let split' = listed-append k before after in
    let all = ap (listed k) same in
    let gone = get-remove_all k slots w.state.fds in
    let there : occupied k w.state.fds ≡ true = unfold occupied close in ground arith in
    let before' = owned there in
    let other : member k slots ≡ false = unfold occupied close in ground arith in ground arith
Reach-IsOwned (next {w} reach (taken slot)) k h =
    Reach-IsOwned reach k (occupied-take_slot k slot w.state h)

-- Once all connections are closed, the socket holds no descriptor.
pub Reach-empty : {w : World} → Reach w → w.guards ≡ [] → w.state.fds ≡ []
Reach-empty {w} reach closed = empty-vacant w.state.fds λ k.
    let owned = Reach-IsOwned reach k in
    let none_left = ap (listed k) closed in
    elim (Bool-cases (occupied k w.state.fds)) [
      | inl there ↦ let l = owned there in absurd (ground arith)
      | inr absent ↦ absent
    ]
