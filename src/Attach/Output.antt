-- ===== src/Attach/Output.antt =====
-- The packets that come from a container (pkg/client/attach.go: `redirectResponseToOutputStreams`
-- and `handlePacket`). What the connection delivers is a list of reads; where the list ends, the
-- loop waits in `conn.Read`.
pub mod Delivery
pub mod Single
use conmon_rs.Base.{
  ℕ, ◌+◌, Bool, true, false, not, ◌&&◌, ◌||◌, ◌==◌, Option, none, some, List, [], ◌∷◌, length,
  if◌then◌else◌,
}
use conmon_rs.Base.Results.{
  Error, eof, short_write, wrap, is_error, is_econnreset, Result, ok, err, Exec,
}
use conmon_rs.Attach.Config.{AttachConfig}

abbrev pub attach_packet_buf_size : ℕ
attach_packet_buf_size = 8192

abbrev pub attach_pipe_done : ℕ
attach_pipe_done = 0

abbrev pub attach_pipe_stdin : ℕ
attach_pipe_stdin = 1

abbrev pub attach_pipe_stdout : ℕ
attach_pipe_stdout = 2

abbrev pub attach_pipe_stderr : ℕ
attach_pipe_stderr = 3

pub data Stream : Type 0 where
  stdout stderr : Stream

-- The two writers of the caller. A write gives the number of bytes and an error, nil or not; the
-- result of a close is ignored.
pub record Output : Type 1 where
  pub State : Type 0
  pub write : Stream → List ℕ → State → (ℕ × Option Error) × State
  pub close : Stream → State → State

-- What `conn.Read(buf)` gives: `buf[:nr]`, and an error, nil or not.
pub record Read : Type 0 where
  pub bytes : List ℕ
  pub error : Option Error

-- `er == io.EOF` compares the value itself.
abbrev pub is_eof : Option Error → Bool
is_eof (some eof) = true
is_eof _ = false

abbrev pub is_reset : Option Error → Bool
is_reset none = false
is_reset (some e) = is_error is_econnreset e

module _ (O : Output) where
  -- The end of `handlePacket`: `nr` is one more than the length of the payload.
  unfoldable pub written_packet : List ℕ → (ℕ × Option Error) × O.State → Result Bool × O.State
  written_packet payload ((nw, some e), s) = (err (wrap "failed to write packet" e), s)
  written_packet payload ((nw, none), s) =
      if not (length payload + 1 == nw + 1) then (err short_write, s) else (ok true, s)

  -- `handlePacket` on a packet of the type `kind`. False stops the loop.
  unfoldable pub handle_packet : AttachConfig → ℕ → List ℕ → Exec O.State Bool
  handle_packet cfg kind payload s =
      if kind == attach_pipe_done
      then (ok false, s)
      else if kind == attach_pipe_stdout
      then (if cfg.streams.stdout
          then written_packet payload (O.write stdout payload s)
          else (ok true, s))
      else if kind == attach_pipe_stderr
      then (if cfg.streams.stderr
          then written_packet payload (O.write stderr payload s)
          else (ok true, s))
      else (ok true, s)

  -- `if nr > 0 { … }`
  unfoldable pub handle_read : AttachConfig → List ℕ → Exec O.State Bool
  handle_read cfg [] s = (ok true, s)
  handle_read cfg (kind ∷ payload) s = handle_packet cfg kind payload s

  -- The tests on the error of the read: `none` is another round of the loop.
  unfoldable pub after_read : AttachConfig → Option Error → Option (Result (Unit {0}))
  after_read cfg error =
      if is_eof error || (cfg.container_stdin && not cfg.stop_after_stdin_eof)
      then some (ok tt)
      else if is_reset error
      then none
      else elim error [
        | none ↦ none
        | some e ↦ some (err (wrap "redirect response to output streams" e))
      ]

  -- One round: the packet, and then the error.
  unfoldable pub round_ends : AttachConfig → Option Error → Result Bool → Option (Result (Unit {0}))
  round_ends cfg error (err e) = some (err e)
  round_ends cfg error (ok false) = some (ok tt)
  round_ends cfg error (ok true) = after_read cfg error

  -- The loop, and the result that it returns; `none` if it still waits.
  unfoldable pub redirect_loop :
      AttachConfig → List Read → O.State → Option (Result (Unit {0})) × O.State
  redirect_loop cfg [] s = (none, s)
  redirect_loop cfg (r ∷ reads) s =
      let (handled, s') = handle_read cfg r.bytes s in
      let rest = redirect_loop cfg reads s' in
      elim (round_ends cfg r.error handled) [ some result ↦ (some result, s') | none ↦ rest ]

  -- The deferred calls.
  unfoldable pub close_streams : AttachConfig → O.State → O.State
  close_streams cfg s =
      let s' = if cfg.streams.stdout then O.close stdout s else s in
      if cfg.streams.stderr then O.close stderr s' else s'

  abbrev pub on_return :
      AttachConfig → Option (Result (Unit {0})) × O.State → Option (Result (Unit {0})) × O.State
  on_return cfg (none, s) = (none, s)
  on_return cfg (some result, s) = (some result, close_streams cfg s)

  unfoldable pub redirect_response_to_output_streams :
      AttachConfig → List Read → O.State → Option (Result (Unit {0})) × O.State
  redirect_response_to_output_streams cfg reads s = on_return cfg (redirect_loop cfg reads s)
