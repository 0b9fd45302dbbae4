-- ===== src/Attach/Channels/Shown.antt =====
-- What a run of the goroutines shows, and what the function `read_stdio` makes of it
-- (pkg/client/attach.go).
use conmon_rs.Base.{◌≡◌, String, Bool, true, false, not, ◌&&◌, Option, none, some, arith}
use conmon_rs.Base.Results.{Error}
use conmon_rs.Attach.Config.{AttachConfig}
use conmon_rs.Attach.Readers.{Readers, try_close_attach_reader_for_id}
use conmon_rs.Attach.Session.{Message, from_output, from_stdin, stdin_result, read_stdio}
use conmon_rs.Attach.Channels.{
  Goroutines, awaits_output, Step, output_ends, input_ends, input_is_closed, receive_output,
  receive_input, receive_later, Reach, here, next,
}

-- What a run has shown so far: what `redirectResponseToOutputStreams` returned, what the goroutine
-- of the input had to send, and the message that `readStdio` received first.
pub record Shown : Type 0 where
  pub output : Option (Option Error)
  pub input : Option (Option Error)
  pub first : Option Message

abbrev pub nothing : Shown
nothing = record { output = none; input = none; first = none }

module _ {cfg : AttachConfig} {id : String} {close_write : Option Error} where
  abbrev pub shows : {s t : Goroutines} → Step cfg id close_write s t → Shown → Shown
  shows (output_ends e h k) x = record x { output = some e }
  shows (input_ends e h c k) x = record x { input = some e }
  shows (input_is_closed e h c k) x = x
  shows (receive_output e h sel k) x = record x { first = some (from_output e) }
  shows (receive_input e h sel k) x = record x { first = some (from_stdin e) }
  shows (receive_later e h sel k) x = x

  abbrev pub shown : {s t : Goroutines} → Reach cfg id close_write s t → Shown
  shown here = nothing
  shown (next reach step) = shows step (shown reach)

-- The message was received first, and is what its goroutine ended with.
abbrev pub WasFirst : Message → Shown → Type 0
WasFirst (from_output e) x = (x.first ≡ some (from_output e)) × (x.output ≡ some e)
WasFirst (from_stdin e) x = (x.first ≡ some (from_stdin e)) × (x.input ≡ some e)

-- Whether `readStdio` goes on to receive from the output.
abbrev pub goes_on : AttachConfig → Message → Bool
goes_on cfg (from_output e) = false
goes_on cfg (from_stdin e) = not cfg.stop_after_stdin_eof && awaits_output cfg e

module _ (cfg : AttachConfig) (id : String) (close_write : Option Error) (m : Readers) where
  -- What the function makes of the first message, and of what the output ended with if `readStdio`
  -- went on to receive it.
  pub record Returns (r : Option Error) (readers : Readers) (x : Shown) (message : Message)
      (later : Option Error) : Type 0 where
    pub first : WasFirst message x
    pub second : goes_on cfg message ≡ true → x.output ≡ some later
    pub result : r ≡ (read_stdio cfg id close_write later message m).result
    pub left : readers ≡ (read_stdio cfg id close_write later message m).readers

  pub later_lem :
      (e later : Option Error)
      → awaits_output cfg e ≡ true
      → stdin_result cfg close_write e later ≡ later
  unfolding stdin_result
  later_lem e later h = ground arith

  pub stops_lem :
      (e later : Option Error)
      → cfg.stop_after_stdin_eof ≡ true
      → ((read_stdio cfg id close_write later (from_stdin e) m).result ≡ none)
        × ((read_stdio cfg id close_write later (from_stdin e) m).readers ≡ m)
  unfolding read_stdio
  stops_lem e later h = ground arith

  pub goes_on_lem :
      (e later : Option Error)
      → cfg.stop_after_stdin_eof ≡ false
      → ((read_stdio cfg id close_write later (from_stdin e) m).result
          ≡ stdin_result cfg close_write e later)
        × ((read_stdio cfg id close_write later (from_stdin e) m).readers
            ≡ (try_close_attach_reader_for_id id m).0)
  unfolding read_stdio
  goes_on_lem e later h = ground arith
