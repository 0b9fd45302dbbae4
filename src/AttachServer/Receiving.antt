-- ===== src/AttachServer/Receiving.antt =====
-- What the container's stdin receives of a client's packets (conmon-rs/server/src/attach.rs).
use conmon_rs.Base.{
  ℕ, zero, suc, ◌-◌, ◌<◌, ◌≤◌, ◌≡◌, ◌≢◌, ◌↔◌, refl, sym, ap, ◌∙◌, Bool, true, List, [], ◌∷◌, ◌++◌,
  map, length, take, take_whole, replicate, All, arith,
}
use mathlib.Core.List.{append-nil, append_assoc}
use conmon_rs.AttachServer.{
  packet_buf_size, read, filled, until_zero, Sender, going, after_send, read_loop,
}

until_zero-replicate : (xs : List ℕ) (n : ℕ) → until_zero (xs ++ replicate n 0) ≡ until_zero xs
unfolding until_zero
until_zero-replicate [] zero = refl
until_zero-replicate [] (suc n) = refl
until_zero-replicate (x ∷ xs) n = ground (arith, until_zero-replicate xs n)

-- The zeros behind a packet are cut off again, and so is what follows a zero of its own.
until_zero-filled : (p : List ℕ) → length p ≤ packet_buf_size → until_zero (filled p) ≡ until_zero p
unfolding filled
until_zero-filled p h =
    until_zero-replicate (take packet_buf_size p)
      (packet_buf_size - length (take packet_buf_size p))
    ∙ ap until_zero (take_whole packet_buf_size p h)

abbrev pub HasNoZero : List ℕ → Type 0
HasNoZero bs = All (λ b. b ≢ 0) bs

until_zero_whole : (bs : List ℕ) → HasNoZero bs → until_zero bs ≡ bs
unfolding until_zero
until_zero_whole [] h = refl
until_zero_whole (b ∷ bs) (ne, h) = ground (arith, until_zero_whole bs h)

whole_HasNoZero : (bs : List ℕ) → until_zero bs ≡ bs → HasNoZero bs
unfolding until_zero
whole_HasNoZero [] h = tt
whole_HasNoZero (b ∷ bs) h =
    let facts : (b ≢ 0) × (until_zero bs ≡ bs) = ground arith in
    (facts.0, whole_HasNoZero bs facts.1)

-- A channel that takes what it is sent, and can be asked for all of it.
pub record Collects (T : Sender) : Type 0 where
  pub received : T.State → List (List ℕ)
  pub takes : (p : List ℕ) (s : T.State) → (T.send p s).0 ≡ true
  pub received-send : (p : List ℕ) (s : T.State) → received (T.send p s).1 ≡ received s ++ p ∷ []

-- Packets that are not empty and fit the buffer.
abbrev pub FitsBuffer : List ℕ → Type 0
FitsBuffer p = (0 < length p) × (length p ≤ packet_buf_size)

module _ (T : Sender) (C : Collects T) (stop : Bool) where
  open C use {received}

  received-read_loop :
      (ps : List (List ℕ)) (s : T.State)
      → All FitsBuffer ps
      → ((read_loop T stop (map read ps) s).0 ≡ going)
        × (received (read_loop T stop (map read ps) s).1 ≡ received s ++ map until_zero ps)
  unfolding read_loop
  received-read_loop [] s h = (refl, sym (append-nil (received s)))
  received-read_loop ([] ∷ ps) s ((pos, fits), h) = absurd (omega arith)
  received-read_loop ((b ∷ bs) ∷ ps) s ((pos, fits), h) =
      let sent = until_zero (filled (b ∷ bs)) in
      let (status, rest) = received-read_loop ps (T.send sent s).1 h in
      let step : after_send T stop (read_loop T stop (map read ps)) (T.send sent s)
          ≡ read_loop T stop (map read ps) (T.send sent s).1 =
        ap (λ b. after_send T stop (read_loop T stop (map read ps)) (b, (T.send sent s).1))
          (C.takes sent s) in
      (
        ap (λ z. z.0) step ∙ status,
        ap (λ z. received z.1) step
            ∙ rest
            ∙ ap (λ l. l ++ map until_zero ps) (C.received-send sent s)
            ∙ append_assoc (received s) (sent ∷ []) (map until_zero ps)
            ∙ ap (λ x. received s ++ x ∷ map until_zero ps) (until_zero-filled (b ∷ bs) fits),
      )

map_whole : (ps : List (List ℕ)) → (map until_zero ps ≡ ps) ↔ All HasNoZero ps
map_whole [] = (λ h. tt, λ h. refl)
map_whole (p ∷ ps) =
    let (there, back) = map_whole ps in
    (
      λ h.
          let facts : (until_zero p ≡ p) × (map until_zero ps ≡ ps) = ground arith in
          (whole_HasNoZero p facts.0, there facts.1),
      λ h. ground (arith, until_zero_whole p h.0, back h.1),
    )

-- Over a channel that takes what it is sent and is empty at first, for packets of 1 to 8192 bytes:
-- the container's stdin receives the packets as they were sent exactly when no packet has a zero
-- byte.
pub read_loop_whole_iff :
    (T : Sender) (C : Collects T) (stop : Bool) (ps : List (List ℕ)) (s : T.State)
    → All FitsBuffer ps
    → C.received s ≡ []
    → (C.received (read_loop T stop (map read ps) s).1 ≡ ps) ↔ All HasNoZero ps
read_loop_whole_iff T C stop ps s fit start =
    let (status, got) = received-read_loop T C stop ps s fit in
    let all : C.received (read_loop T stop (map read ps) s).1 ≡ map until_zero ps =
      got ∙ ap (λ l. l ++ map until_zero ps) start in
    let (there, back) = map_whole ps in (λ h. there (sym all ∙ h), λ h. all ∙ back h)
