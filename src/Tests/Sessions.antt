-- ===== src/Tests/Sessions.antt =====
-- Attach sessions with two writers that keep what they are given.
use conmon_rs.Base.{
  ℕ, ◌≡◌, refl, Bool, true, false, ◌||◌, none, some, List, [], ◌∷◌, ◌++◌, length, map,
  if◌then◌else◌, arith,
}
use conmon_rs.Base.Results.{external, ok, eof}
use conmon_rs.Attach.Config.{AttachConfig}
use conmon_rs.Attach.Readers.{
  close_stdin, Readers, load, delete, try_close_attach_reader_for_id, socket_path_in_use,
  shutdown_readers,
}
use conmon_rs.Attach.Readers.Sockets.{
  removals, close_sessions, removals-close_sessions, shutdown_readers-stdins,
}
use conmon_rs.Attach.Output.{Output, Stream, stdout, Read, redirect_response_to_output_streams}
use conmon_rs.Attach.Output.Delivery.{IsFaithful, same, packet, reset, as_read, redirect_delivers}
use conmon_rs.Attach.Output.Single.{redirect_first}
use conmon_rs.Attach.Session.{Surroundings, from_output, attach}
use conmon_rs.Attach.Session.Cleanup.{readers-attach}

pub record Buffers : Type 0 where
  pub held : Stream → List ℕ
  pub closed : Stream → Bool

abbrev pub buffers : Output
buffers = record {
  State = Buffers;
  write = λ t p s.
      ((length p, none), record s { held = λ u. if same t u then s.held u ++ p else s.held u });
  close = λ t s. record s { closed = λ u. same t u || s.closed u };
}

abbrev pub faithful_buffers : IsFaithful buffers
faithful_buffers = record {
  held = λ s. s.held;
  closed = λ s. s.closed;
  takes = λ t p s. refl;
  held-write = λ t u p s. refl;
  closed-write = λ t u p s. refl;
  held-close = λ t u s. refl;
  closed-close = λ t u s. refl;
}

abbrev pub empty_buffers : Buffers
empty_buffers = record { held = λ t. []; closed = λ t. false }

abbrev pub session : AttachConfig
session = record {
  id = "ctr";
  socket_path = "/attach";
  exec_session = "";
  tty = false;
  stop_after_stdin_eof = false;
  container_stdin = false;
  passthrough = false;
  streams = record { stdin = some 5; stdout = true; stderr = false };
  detach_keys = [];
}

abbrev at_end : Read
at_end = record { bytes = []; error = some eof }

redirect_delivers_example :
    let (result, s') =
      redirect_response_to_output_streams buffers session
        (map as_read
            (packet 2 (104 ∷ 105 ∷ []) ∷ reset ∷ packet 3 (1 ∷ []) ∷ packet 2 (33 ∷ []) ∷ [])
          ++ at_end ∷ [])
        empty_buffers in
    (result ≡ some (ok tt)) × (s'.held stdout ≡ 104 ∷ 105 ∷ 33 ∷ []) × (s'.closed stdout ≡ true)
redirect_delivers_example =
    redirect_delivers buffers faithful_buffers session
      (packet 2 (104 ∷ 105 ∷ []) ∷ reset ∷ packet 3 (1 ∷ []) ∷ packet 2 (33 ∷ []) ∷ []) at_end []
      empty_buffers stdout refl (omega arith, (omega arith, (omega arith, tt))) (ground arith)

abbrev with_stdin : AttachConfig
with_stdin = record session { container_stdin = true }

redirect_first_example :
    let (result, s') =
      redirect_response_to_output_streams buffers with_stdin
        (as_read (packet 2 (104 ∷ [])) ∷ as_read (packet 2 (105 ∷ [])) ∷ [])
        empty_buffers in
    (result ≡ some (ok tt)) × (s'.held stdout ≡ 104 ∷ []) × (s'.closed stdout ≡ true)
redirect_first_example =
    redirect_first buffers faithful_buffers with_stdin (packet 2 (104 ∷ []))
      (as_read (packet 2 (105 ∷ [])) ∷ []) empty_buffers stdout refl refl (omega arith, tt)

abbrev pub two_readers : Readers
two_readers =
    ("a", record { stdin = 5; socket_path = "/attach" })
    ∷ ("b", record { stdin = 6; socket_path = "/attach" })
    ∷ []

removals-close_sessions_example :
    removals "/attach" (close_sessions ("b" ∷ "zz" ∷ "a" ∷ []) two_readers).1 ≡ 1
unfolding close_sessions try_close_attach_reader_for_id delete socket_path_in_use
removals-close_sessions_example =
    removals-close_sessions "/attach" ("b" ∷ "zz" ∷ "a" ∷ []) two_readers

shutdown_readers-stdins_example : shutdown_readers two_readers ≡ close_stdin 5 ∷ close_stdin 6 ∷ []
shutdown_readers-stdins_example = shutdown_readers-stdins two_readers

-- The output ends with an error.
abbrev pub broken : Surroundings
broken = record {
  dial = none;
  pre_attach = none;
  id = "c";
  post_attach = none;
  message = from_output (some (external 4));
  close_write = none;
  later = none;
}

pub c_is_new : load "c" two_readers ≡ none
unfolding load
c_is_new = refl

readers-attach_example : (attach session broken two_readers).readers ≡ two_readers
readers-attach_example = readers-attach session broken two_readers c_is_new
