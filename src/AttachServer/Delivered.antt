-- ===== src/AttachServer/Delivered.antt =====
-- What the server's `write_loop` sends, as the client's redirection hands it on
-- (conmon-rs/server/src/attach.rs, pkg/client/attach.go).
use conmon_rs.Base.{
  ℕ, ◌+◌, ◌-◌, ◌≤◌, ◌≡◌, refl, sym, ap, ◌∙◌, false, not, ◌&&◌, ◌||◌, List, [], ◌∷◌, ◌++◌, map,
  length, take, take_whole, All, none, some, if◌then◌else◌, inl, arith,
}
use mathlib.Core.List.{append_assoc}
use conmon_rs.Base.Results.{ok}
use conmon_rs.Attach.Config.{AttachConfig}
use conmon_rs.Attach.Output.{
  Output, Stream, stdout, stderr, Read, attach_packet_buf_size, redirect_response_to_output_streams,
}
use conmon_rs.Attach.Output.Delivery.{
  IsFaithful, same, Event, packet, as_read, IsOngoing, payloads, has_stream, redirect_delivers,
}
use conmon_rs.AttachServer.{
  packet_buf_size, done_packet, Pipe, std_out, std_err, done, Received, message, WriteHalf,
  returned, chunks, pipe_byte, packets, write_loop,
}
use conmon_rs.AttachServer.Sending.{
  joined, chunks_lem, Delivers, Chunk, as_message, all_packets, write_loop_lem,
}

-- A packet that the client reads into its buffer of 8193 bytes.
abbrev pub delivered : List ℕ → Read
delivered p = record { bytes = take (attach_packet_buf_size + 1) p; error = none }

abbrev pub stream_of : Pipe → Stream
stream_of std_out = stdout
stream_of std_err = stderr

-- What the container wrote to a stream.
abbrev pub output_of : Stream → List Chunk → List ℕ
output_of t [] = []
output_of t ((buf, pipe) ∷ outs) =
    let rest = output_of t outs in if same (stream_of pipe) t then buf ++ rest else rest

chunk_events : Pipe → List (List ℕ) → List Event
chunk_events pipe [] = []
chunk_events pipe (c ∷ cs) = packet (pipe_byte pipe) c ∷ chunk_events pipe cs

events : List Chunk → List Event
events [] = []
events ((buf, pipe) ∷ outs) = chunk_events pipe (chunks (packet_buf_size - 1) buf) ++ events outs

IsOngoing-append : (xs ys : List Event) → IsOngoing xs → IsOngoing ys → IsOngoing (xs ++ ys)
IsOngoing-append [] ys h k = k
IsOngoing-append (packet kind payload ∷ xs) ys h k = (h.0, IsOngoing-append xs ys h.1 k)
IsOngoing-append (Event.reset ∷ xs) ys h k = IsOngoing-append xs ys h k

chunk_events-IsOngoing : (pipe : Pipe) (cs : List (List ℕ)) → IsOngoing (chunk_events pipe cs)
unfolding chunk_events pipe_byte
chunk_events-IsOngoing pipe [] = tt
chunk_events-IsOngoing std_out (c ∷ cs) = (omega arith, chunk_events-IsOngoing std_out cs)
chunk_events-IsOngoing std_err (c ∷ cs) = (omega arith, chunk_events-IsOngoing std_err cs)

events-IsOngoing : (outs : List Chunk) → IsOngoing (events outs)
unfolding events
events-IsOngoing [] = tt
events-IsOngoing ((buf, pipe) ∷ outs) =
    let cs = chunks (packet_buf_size - 1) buf in
    IsOngoing-append (chunk_events pipe cs) (events outs) (chunk_events-IsOngoing pipe cs)
      (events-IsOngoing outs)

payloads-append :
    (t : Stream) (xs ys : List Event) → payloads t (xs ++ ys) ≡ payloads t xs ++ payloads t ys
payloads-append t [] ys = refl
payloads-append t (packet kind payload ∷ xs) ys =
    ground (arith, payloads-append t xs ys, append_assoc payload (payloads t xs) (payloads t ys))
payloads-append t (Event.reset ∷ xs) ys = payloads-append t xs ys

payloads-chunk_events :
    (t : Stream) (pipe : Pipe) (cs : List (List ℕ))
    → payloads t (chunk_events pipe cs) ≡ (if same (stream_of pipe) t then joined cs else [])
unfolding chunk_events pipe_byte
payloads-chunk_events stdout std_out [] = refl
payloads-chunk_events stdout std_err [] = refl
payloads-chunk_events stderr std_out [] = refl
payloads-chunk_events stderr std_err [] = refl
payloads-chunk_events stdout std_out (c ∷ cs) =
    ap (λ l. c ++ l) (payloads-chunk_events stdout std_out cs)
payloads-chunk_events stdout std_err (c ∷ cs) = payloads-chunk_events stdout std_err cs
payloads-chunk_events stderr std_out (c ∷ cs) = payloads-chunk_events stderr std_out cs
payloads-chunk_events stderr std_err (c ∷ cs) =
    ap (λ l. c ++ l) (payloads-chunk_events stderr std_err cs)

payloads-events : (t : Stream) (outs : List Chunk) → payloads t (events outs) ≡ output_of t outs
unfolding events
payloads-events t [] = refl
payloads-events t ((buf, pipe) ∷ outs) =
    let cs = chunks (packet_buf_size - 1) buf in
    ground (
      arith,
      payloads-append t (chunk_events pipe cs) (events outs),
      payloads-chunk_events t pipe cs,
      chunks_lem (packet_buf_size - 1) buf (omega arith),
      payloads-events t outs,
    )

delivered_packets :
    (pipe : Pipe) (cs : List (List ℕ))
    → All (λ c. length c ≤ packet_buf_size - 1) cs
    → map delivered (map (λ x. pipe_byte pipe ∷ x) cs) ≡ map as_read (chunk_events pipe cs)
unfolding chunk_events
delivered_packets pipe [] h = refl
delivered_packets pipe (c ∷ cs) (small, h) =
    ap (λ b. record { bytes = b; error = none } ∷ map delivered (map (λ x. pipe_byte pipe ∷ x) cs))
      (take_whole (attach_packet_buf_size + 1) (pipe_byte pipe ∷ c) (omega arith))
    ∙ ap (λ l. as_read (packet (pipe_byte pipe) c) ∷ l) (delivered_packets pipe cs h)

map-append-packets :
    (xs ys : List (List ℕ)) → map delivered (xs ++ ys) ≡ map delivered xs ++ map delivered ys
map-append-packets [] ys = refl
map-append-packets (x ∷ xs) ys = ap (λ l. delivered x ∷ l) (map-append-packets xs ys)

map-append-events : (xs ys : List Event) → map as_read (xs ++ ys) ≡ map as_read xs ++ map as_read ys
map-append-events [] ys = refl
map-append-events (x ∷ xs) ys = ap (λ l. as_read x ∷ l) (map-append-events xs ys)

delivered-all_packets :
    (outs : List Chunk) → map delivered (all_packets outs) ≡ map as_read (events outs)
unfolding events packets
delivered-all_packets [] = refl
delivered-all_packets ((buf, pipe) ∷ outs) =
    let cs = chunks (packet_buf_size - 1) buf in
    map-append-packets (map (λ x. pipe_byte pipe ∷ x) cs) (all_packets outs)
    ∙ ap (λ l. l ++ map delivered (all_packets outs))
        (delivered_packets pipe cs (chunks_lem (packet_buf_size - 1) buf (omega arith)).1)
    ∙ ap (λ l. map as_read (chunk_events pipe cs) ++ l) (delivered-all_packets outs)
    ∙ sym (map-append-events (chunk_events pipe cs) (events outs))

-- Over a connection that takes every packet and has carried none, over writers that take all they
-- are given, and unless the container has stdin without `StopAfterStdinEOF`: whatever the
-- container writes to its two streams before it is done, in whatever pieces and order, the
-- server's `write_loop` returns, and the client's redirection of its packets returns no error; each
-- of the caller's streams that is not nil has received just what the container wrote to it, and
-- is closed.
pub redirect-write_loop :
    (W : WriteHalf) (R : Delivers W) (O : Output) (F : IsFaithful O) (cfg : AttachConfig)
    (outs : List Chunk) (rest : List Received) (w : W.State) (s : O.State) (t : Stream)
    → cfg.container_stdin && not cfg.stop_after_stdin_eof ≡ false
    → R.sent w ≡ []
    → let (status, w') = write_loop W (map as_message outs ++ message done ∷ rest) w in
      let (result, s') = redirect_response_to_output_streams O cfg (map delivered (R.sent w')) s in
      (status ≡ returned)
      × (result ≡ some (ok tt))
      × (F.held s' t ≡ F.held s t ++ (if has_stream cfg t then output_of t outs else []))
      × (F.closed s' t ≡ (has_stream cfg t || F.closed s t))
redirect-write_loop W R O F cfg outs rest w s t c start =
    let (w', loop, all_sent) = write_loop_lem W R outs rest w in
    let finished = delivered done_packet in
    let reads : map delivered (R.sent w') ≡ map as_read (events outs) ++ finished ∷ [] =
      ap (map delivered) (all_sent ∙ ap (λ l. (l ++ all_packets outs) ++ done_packet ∷ []) start)
      ∙ map-append-packets (all_packets outs) (done_packet ∷ [])
      ∙ ap (λ l. l ++ finished ∷ []) (delivered-all_packets outs) in
    let handed =
      redirect_delivers O F cfg (events outs) finished [] s t c (events-IsOngoing outs)
        (inl ([], refl)) in
    rw loop (rw reads (rw (sym (payloads-events t outs)) (refl, handed.0, handed.1, handed.2)))
