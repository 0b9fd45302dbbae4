-- ===== src/Attach/Output/Delivery.antt =====
-- What reaches the caller's streams (pkg/client/attach.go), over writers that take all they are
-- given.
use conmon_rs.Base.{
  ℕ, ◌≡◌, ◌≢◌, refl, Bool, true, false, ◌&&◌, ◌||◌, not, ◌==◌, none, some, List, [], ◌∷◌, ◌++◌, map,
  length, arith, if◌then◌else◌, ◌⊎◌, inl, inr,
}
use mathlib.Core.List.{append_assoc, append-nil}
use conmon_rs.Base.Results.{ok, eof, econnreset, is_error}
use conmon_rs.Attach.Config.{AttachConfig}
use conmon_rs.Attach.Output.{
  Output, Stream, stdout, stderr, Read, attach_pipe_done, attach_pipe_stdout, attach_pipe_stderr,
  written_packet, handle_packet, handle_read, after_read, round_ends, redirect_loop, close_streams,
  redirect_response_to_output_streams,
}

abbrev pub same : Stream → Stream → Bool
same stdout stdout = true
same stderr stderr = true
same _ _ = false

-- Writers that take all bytes of a write and can be asked what they hold and whether they are
-- closed, as an `io.Writer` that gives no error does.
pub record IsFaithful (O : Output) : Type 0 where
  pub held : O.State → Stream → List ℕ
  pub closed : O.State → Stream → Bool
  pub takes : (t : Stream) (p : List ℕ) (s : O.State) → (O.write t p s).0 ≡ (length p, none)
  pub held-write :
      (t u : Stream) (p : List ℕ) (s : O.State)
      → held (O.write t p s).1 u ≡ (if same t u then held s u ++ p else held s u)
  pub closed-write :
      (t u : Stream) (p : List ℕ) (s : O.State) → closed (O.write t p s).1 u ≡ closed s u
  pub held-close : (t u : Stream) (s : O.State) → held (O.close t s) u ≡ held s u
  pub closed-close :
      (t u : Stream) (s : O.State) → closed (O.close t s) u ≡ (same t u || closed s u)

-- What can come before the end: a packet that is not `done`, or a reset of the connection.
pub data Event : Type 0 where
  packet : ℕ → List ℕ → Event
  reset : Event

abbrev pub as_read : Event → Read
as_read (packet kind payload) = record { bytes = kind ∷ payload; error = none }
as_read reset = record { bytes = []; error = some econnreset }

abbrev pub IsOngoing : List Event → Type 0
IsOngoing [] = Unit
IsOngoing (packet kind payload ∷ events) = (kind ≢ attach_pipe_done) × IsOngoing events
IsOngoing (reset ∷ events) = IsOngoing events

abbrev pub pipe_of : Stream → ℕ
pipe_of stdout = attach_pipe_stdout
pipe_of stderr = attach_pipe_stderr

-- The payloads of a stream's packets, in their order.
abbrev pub payloads : Stream → List Event → List ℕ
payloads t [] = []
payloads t (packet kind payload ∷ events) =
    let rest = payloads t events in if kind == pipe_of t then payload ++ rest else rest
payloads t (reset ∷ events) = payloads t events

abbrev pub has_stream : AttachConfig → Stream → Bool
has_stream cfg stdout = cfg.streams.stdout
has_stream cfg stderr = cfg.streams.stderr

module _ (O : Output) (F : IsFaithful O) (cfg : AttachConfig) where
  open F use {held, closed}

  pub handle_packet_lem :
      (kind : ℕ) (payload : List ℕ) (s : O.State) (t : Stream)
      → kind ≢ attach_pipe_done
      → let (r, s') = handle_packet O cfg kind payload s in
        (r ≡ ok true)
        × (held s' t
            ≡ (if has_stream cfg t && kind == pipe_of t then held s t ++ payload else held s t))
        × (closed s' t ≡ closed s t)
  unfolding handle_packet written_packet
  handle_packet_lem kind payload s stdout h = ground (
    arith,
    F.takes stdout payload s,
    F.takes stderr payload s,
    F.held-write stdout stdout payload s,
    F.held-write stderr stdout payload s,
    F.closed-write stdout stdout payload s,
    F.closed-write stderr stdout payload s,
  )
  handle_packet_lem kind payload s stderr h = ground (
    arith,
    F.takes stdout payload s,
    F.takes stderr payload s,
    F.held-write stdout stderr payload s,
    F.held-write stderr stderr payload s,
    F.closed-write stdout stderr payload s,
    F.closed-write stderr stderr payload s,
  )

  -- The writers after the packets.
  abbrev after_events : List Event → O.State → O.State
  after_events [] s = s
  after_events (packet kind payload ∷ events) s =
      after_events events (handle_packet O cfg kind payload s).1
  after_events (reset ∷ events) s = after_events events s

  abbrev wanted : Stream → List Event → List ℕ
  wanted t events = if has_stream cfg t then payloads t events else []

  after_events_lem :
      (events : List Event) (s : O.State) (t : Stream)
      → IsOngoing events
      → (held (after_events events s) t ≡ held s t ++ wanted t events)
        × (closed (after_events events s) t ≡ closed s t)
  after_events_lem [] s t h = ground (arith, append-nil (held s t))
  after_events_lem (packet kind payload ∷ events) s t h =
      let s' = (handle_packet O cfg kind payload s).1 in
      ground (
        arith,
        handle_packet_lem kind payload s t h.0,
        after_events_lem events s' t h.1,
        append_assoc (held s t) payload (payloads t events),
      )
  after_events_lem (reset ∷ events) s t h = after_events_lem events s t h

  redirect_loop-events :
      (events : List Event) (tail : List Read) (s : O.State)
      → cfg.container_stdin && not cfg.stop_after_stdin_eof ≡ false
      → IsOngoing events
      → redirect_loop O cfg (map as_read events ++ tail) s
        ≡ redirect_loop O cfg tail (after_events events s)
  unfolding redirect_loop round_ends after_read handle_read is_error
  redirect_loop-events [] tail s c h = refl
  redirect_loop-events (packet kind payload ∷ events) tail s c h =
      let s' = (handle_packet O cfg kind payload s).1 in
      ground (
        arith,
        handle_packet_lem kind payload s stdout h.0,
        redirect_loop-events events tail s' c h.1,
      )
  redirect_loop-events (reset ∷ events) tail s c h =
      ground (arith, redirect_loop-events events tail s c h)

  pub close_streams_lem :
      (s : O.State) (t : Stream)
      → (held (close_streams O cfg s) t ≡ held s t)
        × (closed (close_streams O cfg s) t ≡ (has_stream cfg t || closed s t))
  unfolding close_streams
  close_streams_lem s stdout = ground (
    arith,
    F.held-close stdout stdout s,
    F.closed-close stdout stdout s,
    F.held-close stderr stdout s,
    F.closed-close stderr stdout s,
    F.held-close stderr stdout (O.close stdout s),
    F.closed-close stderr stdout (O.close stdout s),
  )
  close_streams_lem s stderr = ground (
    arith,
    F.held-close stdout stderr s,
    F.closed-close stdout stderr s,
    F.held-close stderr stderr s,
    F.closed-close stderr stderr s,
    F.held-close stderr stderr (O.close stdout s),
    F.closed-close stderr stderr (O.close stdout s),
  )

  -- The end of the session: a `done` packet, or the end of the file.
  abbrev IsEnd : Read → Type 0
  IsEnd r =
      ((payload : List ℕ) × (r.bytes ≡ attach_pipe_done ∷ payload))
      ⊎ ((r.bytes ≡ []) × (r.error ≡ some eof))

  redirect_loop-end :
      (r : Read) (rest : List Read) (s : O.State)
      → IsEnd r
      → redirect_loop O cfg (r ∷ rest) s ≡ (some (ok tt), s)
  unfolding redirect_loop round_ends after_read handle_read handle_packet
  redirect_loop-end r rest s (inl (payload, e)) = ground arith
  redirect_loop-end r rest s (inr (b, e)) = ground arith

  -- Over writers that take all they are given, and unless the container has stdin without
  -- `StopAfterStdinEOF`: each stream that is not nil receives the payloads of its packets, whole
  -- and in order, and is then closed; a nil stream and packets of other types change nothing; a
  -- reset of the connection is passed over; and the redirection returns no error at the end of
  -- the session, which is a `done` packet or the end of the file, whatever would follow.
  pub redirect_delivers :
      (events : List Event) (r : Read) (rest : List Read) (s : O.State) (t : Stream)
      → cfg.container_stdin && not cfg.stop_after_stdin_eof ≡ false
      → IsOngoing events
      → IsEnd r
      → let (result, s') =
          redirect_response_to_output_streams O cfg (map as_read events ++ r ∷ rest) s in
        (result ≡ some (ok tt))
        × (held s' t ≡ held s t ++ (if has_stream cfg t then payloads t events else []))
        × (closed s' t ≡ (has_stream cfg t || closed s t))
  unfolding redirect_response_to_output_streams
  redirect_delivers events r rest s t c h e = ground (
    arith,
    redirect_loop-events events (r ∷ rest) s c h,
    redirect_loop-end r rest (after_events events s) e,
    after_events_lem events s t h,
    close_streams_lem (after_events events s) t,
  )

  -- As long as only packets and resets come, the redirection does not return.
  pub redirect_waits :
      (events : List Event) (s : O.State)
      → cfg.container_stdin && not cfg.stop_after_stdin_eof ≡ false
      → IsOngoing events
      → redirect_response_to_output_streams O cfg (map as_read events) s
        ≡ (none, after_events events s)
  unfolding redirect_response_to_output_streams redirect_loop
  redirect_waits events s c h =
      ground (arith, redirect_loop-events events [] s c h, append-nil (map as_read events))
