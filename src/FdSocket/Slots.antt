-- ===== src/FdSocket/Slots.antt =====
-- The map of slots and the search for a vacant one (conmon-rs/server/src/fd_socket.rs).
use conmon_rs.Base.{
  ℕ, zero, suc, ◌+◌, ◌%◌, ◌^◌, ◌≤◌, ◌<◌, ◌≡◌, refl, sym, ◌∙◌, [], ◌∷◌, length, ◌==◌, none, some,
  if◌then◌else◌, true, false, arith, Bool-cases, inl, inr,
}
use conmon_rs.RemoteFds.Words.{IsU64}
use conmon_rs.FdSocket.{Fds, get, occupied, remove, find_vacant}

pub get-remove : (k j : ℕ) (fds : Fds) → get k (remove j fds) ≡ (if j == k then none else get k fds)
unfolding get remove
get-remove k j [] = ground arith
get-remove k j ((key, fd) ∷ fds) = ground (arith, get-remove k j fds)

pub remove_vacant : (k : ℕ) (fds : Fds) → get k fds ≡ none → remove k fds ≡ fds
unfolding get remove
remove_vacant k [] h = refl
remove_vacant k ((key, fd) ∷ fds) h = ground (arith, remove_vacant k fds)

pub length-remove-le : (k : ℕ) (fds : Fds) → length (remove k fds) ≤ length fds
unfolding remove
length-remove-le k [] = omega arith
length-remove-le k ((key, fd) ∷ fds) = ground (arith, length-remove-le k fds)

length-remove-lt : (k : ℕ) (fds : Fds) → occupied k fds ≡ true → length (remove k fds) < length fds
unfolding get remove occupied
length-remove-lt k [] h = ground arith
length-remove-lt k ((key, fd) ∷ fds) h =
    ground (arith, length-remove-le k fds, length-remove-lt k fds)

occupied-remove :
    (k j : ℕ) (fds : Fds) → occupied k (remove j fds) ≡ (if j == k then false else occupied k fds)
unfolding occupied
occupied-remove k j fds = ground (arith, get-remove k j fds)

-- A slot that the search does not come to does not change its result.
find_vacant-remove :
    (n k d : ℕ) (fds : Fds)
    → k < 2 ^ 64
    → d + n < 2 ^ 64
    → find_vacant n ((k + d) % 2 ^ 64) (remove k fds) ≡ find_vacant n ((k + d) % 2 ^ 64) fds
unfolding find_vacant
find_vacant-remove zero k d fds hk h = refl
find_vacant-remove (suc n) k d fds hk h =
    let step : ((k + d) % 2 ^ 64 + 1) % 2 ^ 64 ≡ (k + suc d) % 2 ^ 64 = omega arith in
    ground (
      arith,
      step,
      find_vacant-remove n k (suc d) fds hk (omega arith),
      occupied-remove ((k + suc d) % 2 ^ 64) k fds,
    )

-- The search finds a slot: it can pass no more slots than there are descriptors.
pub find_vacant-some :
    (n slot : ℕ) (fds : Fds)
    → length fds < n
    → n ≤ 2 ^ 64
    → (found : ℕ) × (find_vacant n slot fds ≡ some found)
unfolding find_vacant
find_vacant-some zero slot fds h small = absurd (omega arith)
find_vacant-some (suc n) slot fds h small =
    let next = (slot + 1) % 2 ^ 64 in
    elim (Bool-cases (occupied next fds)) [
      | inr free ↦ (next, rw free refl)
      | inl taken ↦
          let (found, e) =
            find_vacant-some n next (remove next fds)
              (omega (arith, length-remove-lt next fds taken)) (omega arith) in
          let same : (next + 0) % 2 ^ 64 ≡ next = omega arith in
          let skip = find_vacant-remove n next 0 fds (omega arith) (omega arith) in
          (found, rw taken (sym (rw same at skip) ∙ e))
    ]

-- What it finds is vacant.
pub find_vacant-none :
    (n slot found : ℕ) (fds : Fds)
    → find_vacant n slot fds ≡ some found
    → (get found fds ≡ none) × IsU64 found
unfolding find_vacant occupied
find_vacant-none zero slot found fds h = cc
find_vacant-none (suc n) slot found fds h =
    ground (arith, find_vacant-none n ((slot + 1) % 2 ^ 64) found fds)

-- It is the first one behind the last slot: those between are occupied.
pub find_vacant-first :
    (n slot found : ℕ) (fds : Fds)
    → find_vacant n slot fds ≡ some found
    → (d : ℕ) × (found ≡ (slot + suc d) % 2 ^ 64)
      × ((e : ℕ) → e < d → occupied ((slot + suc e) % 2 ^ 64) fds ≡ true)
unfolding find_vacant
find_vacant-first zero slot found fds h = absurd cc
find_vacant-first (suc n) slot found fds h =
    elim (Bool-cases (occupied ((slot + 1) % 2 ^ 64) fds)) [
      | inr free ↦ (0, ground arith, λ e lt. absurd (omega arith))
      | inl taken ↦
          let (d, at, between) =
            find_vacant-first n ((slot + 1) % 2 ^ 64) found fds (ground arith) in
          (suc d, omega arith, later n slot fds d taken between)
    ]
  where
    later :
        (n slot : ℕ) (fds : Fds) (d : ℕ)
        → occupied ((slot + 1) % 2 ^ 64) fds ≡ true
        → ((e : ℕ) → e < d → occupied (((slot + 1) % 2 ^ 64 + suc e) % 2 ^ 64) fds ≡ true)
        → (e : ℕ) → e < suc d
        → occupied ((slot + suc e) % 2 ^ 64) fds ≡ true
    later n slot fds d taken between zero lt =
        let same : slot + suc zero ≡ slot + 1 = omega arith in rw same taken
    later n slot fds d taken between (suc e) lt =
        let same : ((slot + 1) % 2 ^ 64 + suc e) % 2 ^ 64 ≡ (slot + suc (suc e)) % 2 ^ 64 =
          omega arith in
        ground (arith, same, between e)
