-- ===== src/AttachServer.antt =====
-- conmon-rs/server/src/attach.rs: the two loops of the server on an attach connection. The socket
-- and the channels are parameters: each takes its state and returns the new one.
pub mod Sending
pub mod Delivered
pub mod Receiving
use conmon_rs.Base.{
  ℕ, zero, suc, ◌-◌, Bool, true, false, List, [], ◌∷◌, ◌++◌, map, length, take, drop, replicate,
  ◌==◌, Option, none, some, if◌then◌else◌,
}

abbrev pub packet_buf_size : ℕ
packet_buf_size = 8192

abbrev pub done_packet : List ℕ
done_packet = 0 ∷ []

pub data Pipe : Type 0 where
  std_out std_err : Pipe

-- What the container's streams send: `Data(buf, pipe)` or `Done`.
pub data Message : Type 0 where
  content : List ℕ → Pipe → Message
  done : Message

-- What `rx.recv()` gives: a message, or the error of a channel that is closed or that has dropped
-- messages.
pub data Received : Type 0 where
  message : Message → Received
  receive_error : Received

-- How a write of a packet ends; the other errors are numbers.
pub data Wrote : Type 0 where
  all would_block broken_pipe : Wrote
  failed : ℕ → Wrote

pub record WriteHalf : Type 1 where
  pub State : Type 0
  pub write : List ℕ → State → Wrote × State

-- How a loop stands: it waits, or it has returned.
pub data Status : Type 0 where
  waiting returned receive_failed : Status
  error : ℕ → Status

-- `buf.chunks(size)`: the list is shorter with each chunk, so that its length is enough fuel.
unfoldable pub chunks_loop : ℕ → ℕ → List ℕ → List (List ℕ)
chunks_loop zero size buf = []
chunks_loop (suc fuel) size [] = []
chunks_loop (suc fuel) size (b ∷ buf) =
    take size (b ∷ buf) ∷ chunks_loop fuel size (drop size (b ∷ buf))

unfoldable pub chunks : ℕ → List ℕ → List (List ℕ)
chunks size buf = chunks_loop (length buf) size buf

unfoldable pub pipe_byte : Pipe → ℕ
pipe_byte std_out = 2
pipe_byte std_err = 3

unfoldable pub packets : List ℕ → Pipe → List (List ℕ)
packets buf pipe = map (λ x. pipe_byte pipe ∷ x) (chunks (packet_buf_size - 1) buf)

module _ (W : WriteHalf) where
  abbrev pub after_write : (W.State → Option ℕ × W.State) → Wrote × W.State → Option ℕ × W.State
  after_write rest (all, s) = rest s
  after_write rest (would_block, s) = rest s
  after_write rest (broken_pipe, s) = (none, s)
  after_write rest (failed e, s) = (some e, s)

  -- The packets of one message, and the error of a write that ends the loop.
  unfoldable pub write_packets : List (List ℕ) → W.State → Option ℕ × W.State
  write_packets [] s = (none, s)
  write_packets (p ∷ ps) s = after_write (write_packets ps) (W.write p s)

  abbrev pub after_done : Wrote × W.State → Status × W.State
  after_done (failed e, s) = (error e, s)
  after_done (_, s) = (returned, s)

  abbrev pub after_packets : (W.State → Status × W.State) → Option ℕ × W.State → Status × W.State
  after_packets rest (none, s) = rest s
  after_packets rest (some e, s) = (error e, s)

  -- `write_loop` on what it receives; where that ends, it waits.
  unfoldable pub write_loop : List Received → W.State → Status × W.State
  write_loop [] s = (waiting, s)
  write_loop (receive_error ∷ messages) s = (receive_failed, s)
  write_loop (message done ∷ messages) s = after_done (W.write done_packet s)
  write_loop (message (content buf pipe) ∷ messages) s =
      after_packets (write_loop messages) (write_packets (packets buf pipe) s)

pub data Errno : Type 0 where
  eio ebadf eagain : Errno
  other_errno : ℕ → Errno

-- What the select of `read_loop` gives: a packet of the socket, empty at its end, an error of the
-- read, or the cancelled token.
pub data Input : Type 0 where
  read : List ℕ → Input
  read_error : Errno → Input
  cancelled : Input

-- The buffer after a read: `n` bytes of the packet, and zeros behind them.
unfoldable pub filled : List ℕ → List ℕ
filled packet =
    let bytes = take packet_buf_size packet in bytes ++ replicate (packet_buf_size - length bytes) 0

-- `buf.iter().position(|&x| x == 0)`, and `buf.resize` where there is one.
unfoldable pub until_zero : List ℕ → List ℕ
until_zero [] = []
until_zero (b ∷ bs) = if b == 0 then [] else b ∷ until_zero bs

-- The channel to the container's stdin: whether a send succeeds, and its new state.
pub record Sender : Type 1 where
  pub State : Type 0
  pub send : List ℕ → State → Bool × State

-- How `read_loop` ended, and whether it cancelled the token.
pub data Reading : Type 0 where
  going cancels ended send_error bad_descriptor : Reading

module _ (T : Sender) (stop_after_stdin_eof : Bool) where
  abbrev pub after_send : (T.State → Reading × T.State) → Bool × T.State → Reading × T.State
  after_send rest (true, s) = rest s
  after_send rest (false, s) = (send_error, s)

  unfoldable pub read_loop : List Input → T.State → Reading × T.State
  read_loop [] s = (going, s)
  read_loop (cancelled ∷ inputs) s = (ended, s)
  read_loop (read_error eio ∷ inputs) s = (ended, s)
  read_loop (read_error ebadf ∷ inputs) s = (bad_descriptor, s)
  read_loop (read_error eagain ∷ inputs) s = read_loop inputs s
  read_loop (read_error (other_errno e) ∷ inputs) s = read_loop inputs s
  read_loop (read [] ∷ inputs) s =
      let rest = read_loop inputs s in if stop_after_stdin_eof then (cancels, s) else rest
  read_loop (read (b ∷ bs) ∷ inputs) s =
      after_send (read_loop inputs) (T.send (until_zero (filled (b ∷ bs))) s)
