-- ===== src/RemoteFds.antt =====
-- pkg/client/remote_fds.go: file descriptors are sent over a packet socket, a request at a time.
-- Bytes are numbers below 256. The connection is a parameter: each packet call of it takes the
-- connection's state and returns the new one.
pub mod Words
pub mod Response
pub mod Send
pub mod Connect
pub mod Sequence
use conmon_rs.Base.{ℕ, zero, suc, ◌+◌, ◌*◌, ◌/◌, ◌%◌, ◌^◌, List, [], ◌∷◌, ◌++◌}
use conmon_rs.Base.{length, drop, ltb, ◌==◌, ◌-◌, not, if◌then◌else◌}
use conmon_rs.Base.Results.{
  too_many_file_descriptors, response_too_short, response_id_does_not_match,
  number_of_fds_does_not_match, invalid_response_length, server_error, Result, ok, err, wrapped,
  Exec, context, ◌>>=◌, ◌>>◌,
}

abbrev pub uint64_bytes : ℕ
uint64_bytes = 8

abbrev pub max_fds : ℕ
max_fds = 253

-- One additional byte is used to detect packet truncation.
abbrev pub msg_buffer_size : ℕ
msg_buffer_size = uint64_bytes + max_fds * uint64_bytes + 1

abbrev pub num_fds_bits : ℕ
num_fds_bits = 32

-- `binary.LittleEndian`, over any number of bytes.
unfoldable pub little_endian : ℕ → ℕ → List ℕ
little_endian zero v = []
little_endian (suc n) v = (v % 256) ∷ little_endian n (v / 256)

unfoldable pub read_little_endian : ℕ → List ℕ → ℕ
read_little_endian zero bs = 0
read_little_endian (suc n) [] = 0
read_little_endian (suc n) (b ∷ bs) = b + 256 * read_little_endian n bs

-- `AppendUint64(b, v)` and `Uint64(b)`.
unfoldable pub append_uint64 : List ℕ → ℕ → List ℕ
append_uint64 b v = b ++ little_endian uint64_bytes v

unfoldable pub uint64 : List ℕ → ℕ
uint64 b = read_little_endian uint64_bytes b

-- The methods of `net.UnixConn` that are used, on the state of a connection. `read n` returns
-- what it put into a buffer of `n` bytes.
pub record FdConn : Type 1 where
  pub State : Type 0
  pub write_msg : List ℕ → List ℕ → Exec State (Unit {0})
  pub read : ℕ → Exec State (List ℕ)
  pub close : Exec State (Unit {0})

module _ (C : FdConn) where
  pub record RemoteFds : Type 0 where
    pub conn : C.State
    pub req_id : ℕ

-- `uint64(reqID)<<numFDsBits|uint64(len(fds))`: the two parts share no bit, since there are at
-- most `max_fds` descriptors.
unfoldable pub request_header : ℕ → ℕ → ℕ
request_header req_id n = (req_id * 2 ^ num_fds_bits + n) % 2 ^ 64

-- `for i := 0; i < numFDs; i++`, on what is left of the buffer.
unfoldable pub read_slots : ℕ → List ℕ → List ℕ
read_slots zero buf = []
read_slots (suc n) buf = uint64 buf ∷ read_slots n (drop uint64_bytes buf)

-- The mask of the low half, `1<<numFDsBits - 1`; the server sends it in place of a count to
-- announce an error.
abbrev pub error_marker : ℕ
error_marker = 2 ^ num_fds_bits - 1

-- The body of `Send` behind the header: `buf` is what follows the first eight bytes, and
-- `num_fds` is the low half of the header.
unfoldable pub check_payload : ℕ → ℕ → List ℕ → Result (List ℕ)
check_payload num_fds sent buf =
    if num_fds == error_marker
    then err (server_error buf)
    else if not (num_fds == sent)
    then err number_of_fds_does_not_match
    else if not (length buf == num_fds * uint64_bytes)
    then err invalid_response_length
    else ok (read_slots num_fds buf)

-- `resIDAndNumFDs >> numFDsBits` and `resIDAndNumFDs & (1<<numFDsBits - 1)`.
unfoldable pub check_header : ℕ → ℕ → ℕ → List ℕ → Result (List ℕ)
check_header req_id sent header buf =
    if not (header / 2 ^ num_fds_bits == req_id)
    then err response_id_does_not_match
    else check_payload (header % 2 ^ num_fds_bits) sent buf

-- The part of `Send` after the read.
unfoldable pub check_response : ℕ → ℕ → List ℕ → Result (List ℕ)
check_response req_id sent buf =
    if ltb (length buf) uint64_bytes
    then err response_too_short
    else check_header req_id sent (uint64 buf) (drop uint64_bytes buf)

module _ (C : FdConn) where
  -- `WriteMsgUnix`, then `Read` into a fresh buffer.
  unfoldable pub exchange : ℕ → List ℕ → Exec C.State (List ℕ)
  exchange req_id fds = do
    context "send request" (C.write_msg (append_uint64 [] (request_header req_id (length fds))) fds)
    context "receviree reaponse" (C.read msg_buffer_size)

  unfoldable pub finish_send :
      ℕ → List ℕ → Result (List ℕ) × C.State → Result (List ℕ) × RemoteFds C
  finish_send req_id fds (ok buf, s) =
      (check_response req_id (length fds) buf, record { conn = s; req_id = req_id })
  finish_send req_id fds (err e, s) = (err e, record { conn = s; req_id = req_id })

  -- `r.reqID++` wraps, and happens before the request is written.
  unfoldable pub send : List ℕ → Exec (RemoteFds C) (List ℕ)
  send [] r = (ok [], r)
  send (fd ∷ fds) r =
      if ltb max_fds (length (fd ∷ fds))
      then (err too_many_file_descriptors, r)
      else let req_id = (r.req_id + 1) % 2 ^ 32 in
        finish_send req_id (fd ∷ fds) (exchange req_id (fd ∷ fds) r.conn)

  unfoldable pub close : Exec (RemoteFds C) (Unit {0})
  close r =
      let (result, s) = C.close r.conn in (wrapped "close fd socket" result, record r { conn = s })
