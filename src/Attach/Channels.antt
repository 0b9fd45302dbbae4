-- ===== src/Attach/Channels.antt =====
-- The goroutines of an attach session and the channels between them (pkg/client/attach.go:
-- `setupStdioChannels` and `readStdio`). A step is one event of the session; the channels have no
-- buffer, so a send and its receive are one step.
pub mod Shown
pub mod Accounts
pub mod Result
pub mod Leak
use conmon_rs.Base.{
  ℕ, ◌≡◌, String, Bool, true, false, not, ◌&&◌, ◌||◌, Option, none, some, if◌then◌else◌,
}
use conmon_rs.Base.Results.{Error, is_detached, is_closed_pipe}
use conmon_rs.Attach.Config.{AttachConfig}
use conmon_rs.Attach.Readers.{Readers, try_close_attach_reader_for_id}
use conmon_rs.Attach.Session.{is_in, output_result, stdin_result}

-- A goroutine that runs, one that waits to send what it ended with, and one that is over.
pub data Worker : Type 0 where
  running : Worker
  sending : Option Error → Worker
  finished : Worker

-- `readStdio`: in its `select`, in the second receive, and returned.
pub data Main : Type 0 where
  selecting awaiting_output : Main
  returned : Option Error → Main

pub record Goroutines : Type 0 where
  pub output : Worker
  pub input : Worker
  pub main : Main
  pub readers : Readers

-- The last test of `readStdio`: the result comes from the output.
abbrev pub awaits_output : AttachConfig → Option Error → Bool
awaits_output cfg error =
    not (is_in is_detached error) && (cfg.streams.stdout || cfg.streams.stderr)

-- What `readStdio` does next with a message from the input; without a second receive the result
-- does not depend on the output.
abbrev pub after_input : AttachConfig → Option Error → Option Error → Main
after_input cfg close_write error =
    if cfg.stop_after_stdin_eof
    then returned none
    else if awaits_output cfg error
    then awaiting_output
    else returned (stdin_result cfg close_write error none)

abbrev pub readers_after_input : AttachConfig → String → Readers → Readers
readers_after_input cfg id m =
    if cfg.stop_after_stdin_eof then m else (try_close_attach_reader_for_id id m).0

-- `close_write` is the outcome of `conn.CloseWrite()`.
module _ (cfg : AttachConfig) (id : String) (close_write : Option Error) where
  pub data Step (s t : Goroutines) : Type 0 where
    -- `redirectResponseToOutputStreams` returns.
    output_ends :
        (e : Option Error) → s.output ≡ running → t ≡ record s { output = sending e } → Step s t
    -- `detach.Copy` returns, and its error is sent unless it is a closed pipe.
    input_ends :
        (e : Option Error)
        → s.input ≡ running
        → is_in is_closed_pipe e ≡ false
        → t ≡ record s { input = sending e }
        → Step s t
    input_is_closed :
        (e : Option Error)
        → s.input ≡ running
        → is_in is_closed_pipe e ≡ true
        → t ≡ record s { input = finished }
        → Step s t
    receive_output :
        (e : Option Error)
        → s.output ≡ sending e
        → s.main ≡ selecting
        → t ≡ record s {
          output = finished;
          main = returned (output_result close_write e);
          readers = (try_close_attach_reader_for_id id s.readers).0;
        }
        → Step s t
    receive_input :
        (e : Option Error)
        → s.input ≡ sending e
        → s.main ≡ selecting
        → t ≡ record s {
          input = finished;
          main = after_input cfg close_write e;
          readers = readers_after_input cfg id s.readers;
        }
        → Step s t
    receive_later :
        (e : Option Error)
        → s.output ≡ sending e
        → s.main ≡ awaiting_output
        → t ≡ record s { output = finished; main = returned e }
        → Step s t

  pub data Reach (s : Goroutines) : Goroutines → Type 0 where
    here : Reach s s
    next : {t u : Goroutines} → Reach s t → Step t u → Reach s u

-- Behind `setupStdioChannels`: without a stdin there is no second goroutine.
abbrev pub set_up : AttachConfig → Readers → Goroutines
set_up cfg m = record {
  output = running;
  input = elim cfg.streams.stdin [ none ↦ finished | some stdin ↦ running ];
  main = selecting;
  readers = m;
}
