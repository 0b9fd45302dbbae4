-- ===== src/FdSocket/Requests.antt =====
-- A client's request as the server reads it, and its two answers as packets
-- (conmon-rs/server/src/fd_socket.rs, pkg/client/remote_fds.go).
use mathlib.Core.Option
use mathlib.Core.List.{append-nil}
use native.Mathlib.Nat.{zero-add, suc-add}
use conmon_rs.Base.{
  ℕ, ◌+◌, ◌-◌, ◌%◌, ◌^◌, ◌<◌, ◌≡◌, ◌≢◌, refl, sym, ap, ◌∙◌, List, [], ◌∷◌, ◌++◌, length, take,
  take_whole, some, arith,
}
use conmon_rs.RemoteFds.{uint64, append_uint64, request_header, little_endian}
use conmon_rs.RemoteFds.Words.{length-little_endian, uint64-little_endian}
use conmon_rs.RemoteFds.Response.{packet, slots_packet}
use conmon_rs.FdSocket.{
  wrong_count, Serving, add_all, answer, replied, as_reply, serve, slots_reply, codes, to_text,
}

header_lem :
    (id n : ℕ)
    → id < 2 ^ 32
    → n < 256
    → (request_header id n < 2 ^ 64)
      × (request_header id n % 256 ≡ n)
      × (request_header id n - n + 255 ≡ request_header id 255)
unfolding request_header
header_lem id n h k = omega arith

uint64-append_uint64 : (v : ℕ) → v < 2 ^ 64 → uint64 (append_uint64 [] v) ≡ v
unfolding append_uint64
uint64-append_uint64 v h =
    ap uint64 (sym (append-nil (little_endian 8 v))) ∙ uint64-little_endian v [] h

length-append_uint64 : (v : ℕ) → length (append_uint64 [] v) ≡ 8
unfolding append_uint64
length-append_uint64 v = length-little_endian 8 v

-- Eight bytes that are not all zero are a request.
serve_word :
    (v : ℕ) (received : List ℕ) (s : Serving)
    → v < 2 ^ 64
    → v ≢ 0
    → serve (append_uint64 [] v) received s ≡ Option.map as_reply (answer v received s)
unfolding serve
serve_word v received s h ne =
    ground
      (arith, take_whole 9 (append_uint64 [] v), uint64-append_uint64 v h, length-append_uint64 v)

pub serve-request_header :
    (id n : ℕ) (received : List ℕ) (s : Serving)
    → id < 2 ^ 32
    → 0 < n
    → n < 256
    → serve (append_uint64 [] (request_header id n)) received s
      ≡ Option.map as_reply (answer (request_header id n) received s)
serve-request_header id n received s h pos k =
    let facts = header_lem id n h k in
    serve_word (request_header id n) received s facts.0 (ground arith)

pub answer_whole :
    (id n : ℕ) (received : List ℕ) (s : Serving)
    → id < 2 ^ 32
    → n < 256
    → length received ≡ n
    → answer (request_header id n) received s
      ≡ Option.map (replied (request_header id n)) (add_all received s)
unfolding answer
answer_whole id n received s h k same = ground (arith, header_lem id n h k)

pub answer_dropped :
    (id n : ℕ) (received : List ℕ) (s : Serving)
    → id < 2 ^ 32
    → n < 256
    → length received ≢ n
    → answer (request_header id n) received s
      ≡ some (packet id 255 (codes (to_text (wrong_count (length received) n))), s)
unfolding answer packet
answer_dropped id n received s h k different = ground (arith, header_lem id n h k)

pub slots_reply-slots_packet :
    (id n : ℕ) (slots : List ℕ)
    → length slots ≡ n
    → slots_reply (request_header id n) slots ≡ slots_packet id slots
unfolding slots_packet packet
slots_reply-slots_packet id n slots same = rw (sym same) refl

take-append : (xs ys : List ℕ) (m : ℕ) → take (length xs + m) (xs ++ ys) ≡ xs ++ take m ys
take-append [] ys m = rw (zero-add) refl
take-append (x ∷ xs) ys m = rw (suc-add) (ap (λ t. x ∷ t) (take-append xs ys m))

-- A packet that is cut off keeps its header.
pub take-packet :
    (m id low : ℕ) (payload : List ℕ)
    → take (8 + m) (packet id low payload) ≡ packet id low (take m payload)
unfolding packet
take-packet m id low payload =
    let same = length-append_uint64 (request_header id low) in
    ap (λ k. take (k + m) (append_uint64 [] (request_header id low) ++ payload)) (sym same)
    ∙ take-append (append_uint64 [] (request_header id low)) payload m
