-- ===== src/FdSocket.antt =====
-- conmon-rs/server/src/fd_socket.rs: the server keeps the descriptors that it receives in numbered
-- slots, until a call takes them or the connection they came over is closed. A descriptor is a
-- number; the map of slots is an association list.
pub mod Slots
pub mod Adding
pub mod Requests
pub mod Link
pub mod Sequence
pub mod Owners
use mathlib.Core.Option
use Prim.Native.Char.{code}
use Prim.Native.String.{String, ◌++◌ as ◌<>◌}
use conmon_rs.Base.{
  ℕ, zero, suc, ◌+◌, ◌-◌, ◌%◌, ◌^◌, List, [], ◌∷◌, ◌++◌, length, take, ◌==◌, not, Bool, true, false,
  Option, none, some, ◌⊎◌, inl, inr, if◌then◌else◌,
}
use conmon_rs.Base.Decimal.{decimal}
use conmon_rs.RemoteFds.{append_uint64, uint64}
use conmon_rs.RemoteFds.Response.{encode_slots}

abbrev pub Fds : Type 0
Fds = List (ℕ × ℕ)

-- `fds.get`, the test of `fds.entry`, and `fds.remove`.
unfoldable pub get : ℕ → Fds → Option ℕ
get slot [] = none
get slot ((key, fd) ∷ fds) = let rest = get slot fds in if key == slot then some fd else rest

abbrev pub is_some : Option ℕ → Bool
is_some none = false
is_some (some fd) = true

unfoldable pub occupied : ℕ → Fds → Bool
occupied slot fds = is_some (get slot fds)

unfoldable pub remove : ℕ → Fds → Fds
remove slot [] = []
remove slot ((key, fd) ∷ fds) =
    let rest = remove slot fds in if key == slot then rest else (key, fd) ∷ rest

pub record State : Type 0 where
  pub last : ℕ
  pub fds : Fds

-- The errors that the socket reports, with their texts.
pub data Refusal : Type 0 where
  no_descriptor : ℕ → Refusal
  wrong_count : ℕ → ℕ → Refusal

unfoldable pub to_text : Refusal → String
to_text (no_descriptor slot) = "no file descriptor in slot " <> decimal slot
to_text (wrong_count received expected) =
    "received " <> (decimal received <> (" fds, but expected " <> (decimal expected <> " fds")))

abbrev pub codes : String → List ℕ
codes String.[] = []
codes (String.◌∷◌ c s) = code c ∷ codes s

-- The loop of `State::add`: the next slot, modulo 2 ^ 64, until one is vacant. `none` means that
-- the fuel ran out.
unfoldable pub find_vacant : ℕ → ℕ → Fds → Option ℕ
find_vacant zero slot fds = none
find_vacant (suc fuel) slot fds =
    let next = (slot + 1) % 2 ^ 64 in
    let rest = find_vacant fuel next fds in if occupied next fds then rest else some next

abbrev pub insert_at : ℕ → State → ℕ → ℕ × State
insert_at fd s slot = (slot, record { last = slot; fds = (slot, fd) ∷ s.fds })

-- One more round than there are descriptors is enough, as long as a slot is vacant.
unfoldable pub add : ℕ → State → Option (ℕ × State)
add fd s = Option.map (insert_at fd s) (find_vacant (suc (length s.fds)) s.last s.fds)

unfoldable pub take_slot : ℕ → State → (Refusal ⊎ ℕ) × State
take_slot slot s = elim (get slot s.fds) [
  | none ↦ (inl (no_descriptor slot), s)
  | some fd ↦ (inr fd, record s { fds = remove slot s.fds })
]

abbrev pub prepend_fd : ℕ → (Refusal ⊎ List ℕ) × State → (Refusal ⊎ List ℕ) × State
prepend_fd fd (inl e, s) = (inl e, s)
prepend_fd fd (inr fds, s) = (inr (fd ∷ fds), s)

abbrev pub then_take :
    (State → (Refusal ⊎ List ℕ) × State) → (Refusal ⊎ ℕ) × State → (Refusal ⊎ List ℕ) × State
then_take rest (inl e, s) = (inl e, s)
then_take rest (inr fd, s) = prepend_fd fd (rest s)

-- `take_all`: the first slot without a descriptor ends it, and what was taken before is gone.
unfoldable pub take_all : List ℕ → State → (Refusal ⊎ List ℕ) × State
take_all [] s = (inr [], s)
take_all (slot ∷ slots) s = then_take (take_all slots) (take_slot slot s)

-- A connection that is served: the socket's state, and the slots of its `ConnectionGuard`.
pub record Serving : Type 0 where
  pub state : State
  pub slots : List ℕ

unfoldable pub remove_all : List ℕ → Fds → Fds
remove_all [] fds = fds
remove_all (slot ∷ slots) fds = remove_all slots (remove slot fds)

-- `ConnectionGuard::close`.
unfoldable pub close : Serving → Serving
close s = record { state = record (s.state) { fds = remove_all s.slots s.state.fds }; slots = [] }

abbrev pub keep_slot : Serving → ℕ × State → Serving
keep_slot s (slot, st) = record { state = st; slots = s.slots ++ slot ∷ [] }

abbrev pub prepend_slot : ℕ → List ℕ × Serving → List ℕ × Serving
prepend_slot slot (slots, s) = (slot ∷ slots, s)

-- `guard.slots.extend(received_fds.into_iter().map(|fd| state.add(fd)))`, with the new slots.
unfoldable pub add_all : List ℕ → Serving → Option (List ℕ × Serving)
add_all [] s = some ([], s)
add_all (fd ∷ fds) s = elim (add fd s.state) [
  | none ↦ none
  | some added ↦ Option.map (prepend_slot added.0) (add_all fds (keep_slot s added))
]

-- The two packets that answer a request: `id_and_num_fds | 0xff` heads an error.
abbrev pub slots_reply : ℕ → List ℕ → List ℕ
slots_reply header slots = append_uint64 [] header ++ encode_slots slots

abbrev pub error_reply : ℕ → Refusal → List ℕ
error_reply header e = append_uint64 [] (header - header % 256 + 255) ++ codes (to_text e)

abbrev pub replied : ℕ → List ℕ × Serving → List ℕ × Serving
replied header (slots, s) = (slots_reply header slots, s)

unfoldable pub answer : ℕ → List ℕ → Serving → Option (List ℕ × Serving)
answer header received s =
    if not (length received == header % 256)
    then some (error_reply header (wrong_count (length received) (header % 256)), s)
    else Option.map (replied header) (add_all received s)

pub data Reaction : Type 0 where
  ended silent : Reaction
  reply : List ℕ → Reaction

abbrev pub as_reply : List ℕ × Serving → Reaction × Serving
as_reply (packet, s) = (reply packet, s)

-- One round of the loop of `Server::serve`, for a packet and the descriptors that came with it.
-- The guard is dropped, and so closed, at the end of the connection.
unfoldable pub serve : List ℕ → List ℕ → Serving → Option (Reaction × Serving)
serve packet received s =
    let buf = take 9 packet in
    if length buf == 0
    then some (ended, close s)
    else if not (length buf == 8)
    then some (silent, s)
    else if uint64 buf == 0
    then some (silent, close s)
    else Option.map as_reply (answer (uint64 buf) received s)
