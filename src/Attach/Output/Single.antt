-- ===== src/Attach/Output/Single.antt =====
-- What `ContainerStdin` without `StopAfterStdinEOF` does to the output (pkg/client/attach.go).
use conmon_rs.Base.{◌≡◌, true, false, ◌||◌, some, List, [], ◌∷◌, ◌++◌, if◌then◌else◌, arith}
use mathlib.Core.List.{append-nil}
use conmon_rs.Base.Results.{ok}
use conmon_rs.Attach.Config.{AttachConfig}
use conmon_rs.Attach.Output.{
  Output, Stream, Read, handle_packet, handle_read, round_ends, after_read, redirect_loop,
  redirect_response_to_output_streams,
}
use conmon_rs.Attach.Output.Delivery.{
  IsFaithful, Event, packet, reset, as_read, IsOngoing, payloads, has_stream, handle_packet_lem,
  close_streams_lem,
}

-- Over writers that take all they are given, for a container with stdin and without
-- `StopAfterStdinEOF`: whatever comes after the first event of a session, which is a packet that is
-- not `done` or a reset, the redirection returns no error behind it; a stream that is not nil has
-- received the payload of that packet if it is one of the stream's, and nothing of all later
-- packets, and is closed.
pub redirect_first :
    (O : Output) (F : IsFaithful O) (cfg : AttachConfig) (e : Event) (reads : List Read)
    (s : O.State) (t : Stream)
    → cfg.container_stdin ≡ true
    → cfg.stop_after_stdin_eof ≡ false
    → IsOngoing (e ∷ [])
    → let (result, s') = redirect_response_to_output_streams O cfg (as_read e ∷ reads) s in
      (result ≡ some (ok tt))
      × (F.held s' t ≡ F.held s t ++ (if has_stream cfg t then payloads t (e ∷ []) else []))
      × (F.closed s' t ≡ (has_stream cfg t || F.closed s t))
unfolding redirect_response_to_output_streams redirect_loop round_ends after_read handle_read
redirect_first O F cfg (packet kind payload) reads s t stdin no_stop h =
    let s' = (handle_packet O cfg kind payload s).1 in
    ground (
      arith,
      handle_packet_lem O F cfg kind payload s t h.0,
      close_streams_lem O F cfg s' t,
      append-nil payload,
      append-nil (F.held s t),
    )
redirect_first O F cfg reset reads s t stdin no_stop h =
    ground (arith, close_streams_lem O F cfg s t, append-nil (F.held s t))
