-- ===== src/Tests/Channels.antt =====
-- Runs of the goroutines of a session that returns at the end of its input.
use conmon_rs.Base.{◌≡◌, ◌≢◌, refl, true, Option, none, [], ◌∷◌}
use conmon_rs.Base.Results.{Error}
use conmon_rs.Attach.Config.{AttachConfig}
use conmon_rs.Attach.Readers.{Readers}
use conmon_rs.Attach.Session.{Message}
use conmon_rs.Attach.Channels.{
  running, sending, finished, returned, Goroutines, output_ends, input_ends, receive_input, Reach,
  here, next, set_up,
}
use conmon_rs.Attach.Channels.Shown.{shown, Returns}
use conmon_rs.Attach.Channels.Result.{Reach-read_stdio}
use conmon_rs.Attach.Channels.Leak.{Reach-Leaks, Reach-returned}
use conmon_rs.Tests.Sessions.{session}

abbrev stopping : AttachConfig
stopping = record session { stop_after_stdin_eof = true }

abbrev one_reader : Readers
one_reader = ("id", record { stdin = 5; socket_path = "/attach" }) ∷ []

abbrev over : Goroutines
over = record { output = running; input = finished; main = returned none; readers = one_reader }

input_first : Reach stopping "id" none (set_up stopping one_reader) over
input_first = next (next here (input_ends none refl refl refl)) (receive_input none refl refl refl)

Reach-read_stdio_example :
    (message : Message) × (later : Option Error) × Returns stopping "id" none one_reader none
      one_reader
      (shown input_first)
      message
      later
Reach-read_stdio_example = Reach-read_stdio stopping "id" none one_reader input_first refl

abbrev output_over : Goroutines
output_over = record over { output = sending none }

output_ends_later : Reach stopping "id" none over output_over
output_ends_later = next here (output_ends none refl refl)

running_unfinished : over.output ≢ finished
running_unfinished h = cc

Reach-Leaks_example : (output_over.main ≡ returned none) × (output_over.output ≢ finished)
Reach-Leaks_example =
    Reach-Leaks stopping "id" none none over output_over output_ends_later refl running_unfinished

Reach-returned_example :
    (u : Goroutines) × (r : Option Error) × Reach stopping "id" none (set_up stopping one_reader) u
    × (u.main ≡ returned r)
Reach-returned_example =
    Reach-returned stopping "id" none one_reader (set_up stopping one_reader) here
