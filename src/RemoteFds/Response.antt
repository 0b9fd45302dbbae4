-- ===== src/RemoteFds/Response.antt =====
-- What `Send` accepts and refuses (pkg/client/remote_fds.go, behind the read), against the packet
-- that the server builds (conmon-rs/server/src/fd_socket.rs).
use conmon_rs.Base.{
  ℕ, zero, suc, ◌+◌, ◌*◌, ◌/◌, ◌%◌, ◌^◌, ◌<◌, ◌≡◌, refl, ap, sym, ◌∙◌, List, [], ◌∷◌, ◌++◌, length,
  drop, All, length-append, length-drop, take-append-drop, arith, ◌==◌, if◌then◌else◌,
}
use mathlib.Core.List.{append-nil}
use conmon_rs.Base.Results.{ok, err, response_id_does_not_match}
use conmon_rs.RemoteFds.{
  little_endian, uint64, append_uint64, uint64_bytes, error_marker, request_header, read_slots,
  check_payload, check_header, check_response,
}
use conmon_rs.RemoteFds.Words.{
  IsByte, IsU64, length-little_endian, drop-little_endian, uint64-little_endian,
  little_endian-uint64, uint64-lt,
}

abbrev pub encode_slots : List ℕ → List ℕ
encode_slots [] = []
encode_slots (v ∷ vs) = little_endian uint64_bytes v ++ encode_slots vs

-- A packet: the header with a request id and a low half, then the payload.
unfoldable pub packet : ℕ → ℕ → List ℕ → List ℕ
packet req_id low payload = append_uint64 [] (request_header req_id low) ++ payload

-- The reply that hands out slots.
unfoldable pub slots_packet : ℕ → List ℕ → List ℕ
slots_packet req_id slots = packet req_id (length slots) (encode_slots slots)

pub length-encode_slots : (slots : List ℕ) → length (encode_slots slots) ≡ length slots * 8
length-encode_slots [] = refl
length-encode_slots (v ∷ vs) = omega (
  arith,
  length-append (little_endian 8 v) (encode_slots vs),
  length-little_endian 8 v,
  length-encode_slots vs,
)

read_slots-encode_slots :
    (slots : List ℕ) → All IsU64 slots → read_slots (length slots) (encode_slots slots) ≡ slots
unfolding read_slots
read_slots-encode_slots [] h = refl
read_slots-encode_slots (v ∷ vs) (hv, h) =
    rw (uint64-little_endian v (encode_slots vs) hv, drop-little_endian 8 v (encode_slots vs))
      (ap (λ t. v ∷ t) (read_slots-encode_slots vs h))

All-drop : (n : ℕ) (bs : List ℕ) → All IsByte bs → All IsByte (drop n bs)
All-drop zero bs h = h
All-drop (suc n) [] h = tt
All-drop (suc n) (b ∷ bs) h = All-drop n bs h.1

encode_slots-read_slots :
    (n : ℕ) (buf : List ℕ)
    → All IsByte buf
    → length buf ≡ n * 8
    → encode_slots (read_slots n buf) ≡ buf
unfolding read_slots
encode_slots-read_slots zero [] h e = refl
encode_slots-read_slots zero (b ∷ bs) h e = absurd (omega arith)
encode_slots-read_slots (suc n) buf h e =
    rw
      (
        little_endian-uint64 buf h (omega arith),
        encode_slots-read_slots n (drop 8 buf) (All-drop 8 buf h)
            (omega (arith, length-drop 8 buf)),
      )
      (take-append-drop 8 buf)

length-read_slots : (n : ℕ) (buf : List ℕ) → length (read_slots n buf) ≡ n
unfolding read_slots
length-read_slots zero buf = refl
length-read_slots (suc n) buf = ap suc (length-read_slots n (drop 8 buf))

check_response_step :
    (req_id sent header : ℕ) (payload : List ℕ)
    → IsU64 header
    → check_response req_id sent (append_uint64 [] header ++ payload)
      ≡ check_header req_id sent header payload
unfolding check_response append_uint64
check_response_step req_id sent header payload h = ground (
  arith,
  uint64-little_endian header payload h,
  drop-little_endian 8 header payload,
  length-append (little_endian 8 header) payload,
  length-little_endian 8 header,
)

header_parts :
    (req_id low : ℕ)
    → req_id < 2 ^ 32
    → low < 2 ^ 32
    → (request_header req_id low < 2 ^ 64)
      × (request_header req_id low / 2 ^ 32 ≡ req_id)
      × (request_header req_id low % 2 ^ 32 ≡ low)
unfolding request_header
header_parts req_id low h k = omega arith

-- What the server reads of a request: the id in the upper half of the header.
pub uint64-request_header :
    (req_id n : ℕ)
    → req_id < 2 ^ 32
    → n < 2 ^ 32
    → uint64 (append_uint64 [] (request_header req_id n)) / 2 ^ 32 ≡ req_id
unfolding append_uint64
uint64-request_header req_id n h k =
    let (lt, hi, lo) = header_parts req_id n h k in
    let header = request_header req_id n in
    ap (λ b. uint64 b / 2 ^ 32) (sym (append-nil (little_endian 8 header)))
    ∙ ap (λ v. v / 2 ^ 32) (uint64-little_endian header [] lt)
    ∙ hi

pub length-packet :
    (req_id low : ℕ) (payload : List ℕ) → length (packet req_id low payload) ≡ 8 + length payload
unfolding packet append_uint64
length-packet req_id low payload = omega (
  arith,
  length-append (little_endian 8 (request_header req_id low)) payload,
  length-little_endian 8 (request_header req_id low),
)

-- What the client sees of a packet: its two halves and the payload.
pub check_response-packet :
    (req_id sent id low : ℕ) (payload : List ℕ)
    → id < 2 ^ 32
    → low < 2 ^ 32
    → check_response req_id sent (packet id low payload)
      ≡ (if id == req_id then check_payload low sent payload else err response_id_does_not_match)
unfolding packet check_header
check_response-packet req_id sent id low payload h k =
    let (lt, hi, lo) = header_parts id low h k in
    check_response_step req_id sent _ payload lt ∙ ground arith

-- A reply to the request at hand with as many slots as descriptors were sent is accepted, and
-- gives back the server's slots.
pub check_response-slots_packet :
    (req_id : ℕ) (slots : List ℕ)
    → req_id < 2 ^ 32
    → length slots < error_marker
    → All IsU64 slots
    → check_response req_id (length slots) (slots_packet req_id slots) ≡ ok slots
unfolding slots_packet check_payload
check_response-slots_packet req_id slots h len fit = ground (
  arith,
  check_response-packet req_id (length slots) req_id (length slots) (encode_slots slots) h,
  length-encode_slots slots,
  read_slots-encode_slots slots fit,
)

payload_sound :
    (low sent : ℕ) (buf slots : List ℕ)
    → All IsByte buf
    → check_payload low sent buf ≡ ok slots
    → (low ≡ sent) × (length slots ≡ sent) × (buf ≡ encode_slots slots)
unfolding check_payload
payload_sound low sent buf slots h e =
    ground (arith, length-read_slots low buf, encode_slots-read_slots low buf h)

header_joins :
    (header : ℕ) → IsU64 header → request_header (header / 2 ^ 32) (header % 2 ^ 32) ≡ header
unfolding request_header
header_joins header h = omega arith

-- Nothing but such a reply is accepted.
pub check_response_sound :
    (req_id sent : ℕ) (buf slots : List ℕ)
    → All IsByte buf
    → check_response req_id sent buf ≡ ok slots
    → (buf ≡ slots_packet req_id slots) × (length slots ≡ sent)
unfolding slots_packet packet check_response check_header append_uint64
check_response_sound req_id sent buf slots h e = ground (
  arith,
  payload_sound (uint64 buf % 2 ^ 32) sent (drop 8 buf) slots (All-drop 8 buf h),
  header_joins (uint64 buf) (uint64-lt buf h),
  little_endian-uint64 buf h,
  take-append-drop 8 buf,
)
