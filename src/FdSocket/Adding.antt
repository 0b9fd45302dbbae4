-- ===== src/FdSocket/Adding.antt =====
-- Descriptors that are put into slots can be taken out again (conmon-rs/server/src/fd_socket.rs).
use mathlib.Core.Option
use conmon_rs.Base.{
  ℕ, suc, ◌+◌, ◌%◌, ◌^◌, ◌≤◌, ◌<◌, ◌≡◌, ◌≢◌, refl, ap, ◌∙◌, List, [], ◌∷◌, ◌++◌, length, All, some,
  none, true, arith, inr,
}
use mathlib.Core.List.{append-nil, append_assoc}
use conmon_rs.RemoteFds.Words.{IsU64}
use conmon_rs.FdSocket.{
  Fds, State, Serving, get, occupied, remove, add, take_slot, take_all, then_take, prepend_fd,
  add_all, keep_slot, prepend_slot,
}
use conmon_rs.FdSocket.Slots.{remove_vacant, find_vacant-some, find_vacant-none, find_vacant-first}

-- The map after `fds` have been put into `slots`, one after the other.
abbrev pub stored : List ℕ → List ℕ → Fds → Fds
stored [] fds base = base
stored (slot ∷ slots) [] base = base
stored (slot ∷ slots) (fd ∷ fds) base = stored slots fds ((slot, fd) ∷ base)

-- The slots are vacant, and each differs from those before it.
abbrev pub AreFresh : List ℕ → Fds → Type 0
AreFresh [] base = Unit {0}
AreFresh (slot ∷ slots) base =
    (get slot base ≡ none) × All (λ other. other ≢ slot) slots × AreFresh slots base

pub add-some :
    (fd : ℕ) (s : State)
    → length s.fds < 2 ^ 64
    → (slot : ℕ) × (add fd s ≡ some (slot, record { last = slot; fds = (slot, fd) ∷ s.fds }))
      × (get slot s.fds ≡ none)
      × IsU64 slot
unfolding add
add-some fd s room =
    let (slot, found) = find_vacant-some (suc (length s.fds)) s.last s.fds (omega arith) room in
    let (vacant, fits) = find_vacant-none _ s.last slot s.fds found in
    (slot, rw found refl, vacant, fits)

-- As long as fewer than 2 ^ 64 descriptors are held, `add` returns: the slot is vacant, all slots
-- between the last one given and it, modulo 2 ^ 64, are occupied, it is the last one now, and it
-- holds the descriptor beside those that were held before.
pub add_lem :
    (fd : ℕ) (s : State)
    → length s.fds < 2 ^ 64
    → (slot : ℕ) × (d : ℕ) × (add fd s
        ≡ some (slot, record { last = slot; fds = (slot, fd) ∷ s.fds }))
      × (slot ≡ (s.last + suc d) % 2 ^ 64)
      × (get slot s.fds ≡ none)
      × ((e : ℕ) → e < d → occupied ((s.last + suc e) % 2 ^ 64) s.fds ≡ true)
unfolding add
add_lem fd s room =
    let (slot, found) = find_vacant-some (suc (length s.fds)) s.last s.fds (omega arith) room in
    let (vacant, fits) = find_vacant-none _ s.last slot s.fds found in
    let (d, at, between) = find_vacant-first _ s.last slot s.fds found in
    (slot, d, rw found refl, at, vacant, between)

get-weaken :
    (slot fd : ℕ) (base : Fds) (slots : List ℕ)
    → AreFresh slots ((slot, fd) ∷ base)
    → All (λ other. other ≢ slot) slots × AreFresh slots base
unfolding get
get-weaken slot fd base [] h = (tt, tt)
get-weaken slot fd base (k ∷ slots) (vacant, others, fresh) =
    let (different, fresh') = get-weaken slot fd base slots fresh in
    let now : (k ≢ slot) × (get k base ≡ none) = ground arith in
    ((now.0, different), (now.1, others, fresh'))

add_all_step :
    (fd slot : ℕ) (fds : List ℕ) (s : Serving) (st : State)
    → add fd s.state ≡ some (slot, st)
    → add_all (fd ∷ fds) s ≡ Option.map (prepend_slot slot) (add_all fds (keep_slot s (slot, st)))
unfolding add_all
add_all_step fd slot fds s st h = ground arith

-- What `add_all` does, with a slot for each descriptor as long as there is room.
pub add_all-some :
    (fds : List ℕ) (s : Serving)
    → length s.state.fds + length fds ≤ 2 ^ 64
    → (slots : List ℕ) × (last : ℕ) × (add_all fds s
        ≡ some (
          slots,
          record {
            state = record { last = last; fds = stored slots fds s.state.fds };
            slots = s.slots ++ slots;
          },
        ))
      × (length slots ≡ length fds)
      × All IsU64 slots
      × AreFresh slots s.state.fds
unfolding add_all
add_all-some [] s room = ([], s.state.last, rw append-nil refl, refl, tt, tt)
add_all-some (fd ∷ fds) s room =
    let (slot, added, vacant, fits) = add-some fd s.state (omega arith) in
    let next : Serving = record {
      state = record { last = slot; fds = (slot, fd) ∷ s.state.fds };
      slots = s.slots ++ slot ∷ [];
    } in
    let (slots, last, rest, same, all_fit, fresh) = add_all-some fds next (omega arith) in
    let (different, fresh') = get-weaken slot fd s.state.fds slots fresh in
    (
      slot ∷ slots,
      last,
      add_all_step fd slot fds s _ added
          ∙ ap (λ o. Option.map (prepend_slot slot) o) rest
          ∙ rw append_assoc refl,
      ap suc same,
      (fits, all_fit),
      (vacant, different, fresh'),
    )

get-stored :
    (k : ℕ) (slots fds : List ℕ) (base : Fds)
    → All (λ other. other ≢ k) slots
    → get k (stored slots fds base) ≡ get k base
unfolding get
get-stored k [] fds base h = refl
get-stored k (slot ∷ slots) [] base h = refl
get-stored k (slot ∷ slots) (fd ∷ fds) base (ne, h) =
    get-stored k slots fds ((slot, fd) ∷ base) h ∙ ground arith

remove-stored :
    (k : ℕ) (slots fds : List ℕ) (base : Fds)
    → All (λ other. other ≢ k) slots
    → remove k (stored slots fds base) ≡ stored slots fds (remove k base)
unfolding remove
remove-stored k [] fds base h = refl
remove-stored k (slot ∷ slots) [] base h = refl
remove-stored k (slot ∷ slots) (fd ∷ fds) base (ne, h) =
    remove-stored k slots fds ((slot, fd) ∷ base) h ∙ ap (stored slots fds) (ground arith)

take_slot-some :
    (slot fd : ℕ) (s : State)
    → get slot s.fds ≡ some fd
    → take_slot slot s ≡ (inr fd, record s { fds = remove slot s.fds })
unfolding take_slot
take_slot-some slot fd s h = ground arith

-- Taking the slots gives back the descriptors in their order, and the map as it was.
pub take_all-stored :
    (slots fds : List ℕ) (base : Fds) (last : ℕ)
    → length slots ≡ length fds
    → AreFresh slots base
    → take_all slots (record { last = last; fds = stored slots fds base })
      ≡ (inr fds, record { last = last; fds = base })
unfolding take_all get remove
take_all-stored [] [] base last same fresh = refl
take_all-stored [] (fd ∷ fds) base last same fresh = absurd (omega arith)
take_all-stored (slot ∷ slots) [] base last same fresh = absurd (omega arith)
take_all-stored (slot ∷ slots) (fd ∷ fds) base last same (vacant, different, fresh) =
    let found : get slot (stored slots fds ((slot, fd) ∷ base)) ≡ some fd =
      get-stored slot slots fds ((slot, fd) ∷ base) different ∙ ground arith in
    let removed : remove slot (stored slots fds ((slot, fd) ∷ base)) ≡ stored slots fds base =
      remove-stored slot slots fds ((slot, fd) ∷ base) different
      ∙ ap (stored slots fds) (ground (arith, remove_vacant slot base)) in
    let rest = take_all-stored slots fds base last (omega arith) fresh in
    ap (then_take (take_all slots)) (
      take_slot-some slot fd (record { last = last; fds = stored slots fds ((slot, fd) ∷ base) })
        found
      ∙ ap (λ m. (inr fd, record { last = last; fds = m })) removed)
    ∙ ap (prepend_fd fd) rest
