-- ===== src/RemoteFds/Send.antt =====
-- `Send` as a whole (pkg/client/remote_fds.go), over any connection.
use conmon_rs.Base.{
  ℕ, ◌+◌, ◌%◌, ◌^◌, ◌<◌, ◌≤◌, ◌≡◌, refl, ◌≢◌, List, [], ◌∷◌, length, All, arith, if◌then◌else◌, ltb,
  leb, ◌&&◌,
}
use conmon_rs.Base.Results.{ok, err, response_id_does_not_match, server_error}
use conmon_rs.RemoteFds.{
  FdConn, RemoteFds, max_fds, msg_buffer_size, error_marker, append_uint64, request_header,
  check_header, check_payload, check_response, exchange, finish_send, send,
}
use conmon_rs.RemoteFds.Words.{IsByte, IsU64}
use conmon_rs.RemoteFds.Response.{
  packet, slots_packet, check_response-slots_packet, check_response_sound, check_response-packet,
}

-- The id of the next request.
abbrev pub next_id : ℕ → ℕ
next_id id = (id + 1) % 2 ^ 32

module _ (C : FdConn) where
  -- The connection takes the request that `fds` are sent with, and then delivers `reply`.
  pub record Replies (r : RemoteFds C) (fds reply : List ℕ) (s' : C.State) : Type 0 where
    pub sent : C.State
    pub takes :
        C.write_msg (append_uint64 [] (request_header (next_id r.req_id) (length fds))) fds r.conn
        ≡ (ok tt, sent)
    pub delivers : C.read msg_buffer_size sent ≡ (ok reply, s')

  pub send-reply :
      (fd : ℕ) (fds reply : List ℕ) (r : RemoteFds C) (s' : C.State)
      → length (fd ∷ fds) ≤ max_fds
      → Replies r (fd ∷ fds) reply s'
      → send C (fd ∷ fds) r ≡ (
        check_response (next_id r.req_id) (length (fd ∷ fds)) reply,
        record { conn = s'; req_id = next_id r.req_id },
      )
  unfolding send exchange finish_send
  send-reply fd fds reply r s' len h = ground (arith, h.takes, h.delivers)

  -- For a request of 1 to 253 descriptors that the connection takes: if the server answers with
  -- one 64-bit slot for each, `send` returns the slots in the server's order, and the request id
  -- has moved on.
  pub send_accepts :
      (fd : ℕ) (fds slots : List ℕ) (r : RemoteFds C) (s' : C.State)
      → length (fd ∷ fds) ≤ max_fds
      → length slots ≡ length (fd ∷ fds)
      → All IsU64 slots
      → Replies r (fd ∷ fds) (slots_packet (next_id r.req_id) slots) s'
      → send C (fd ∷ fds) r ≡ (ok slots, record { conn = s'; req_id = next_id r.req_id })
  send_accepts fd fds slots r s' len same fit h = ground (
    arith,
    send-reply fd fds _ r s' len h,
    check_response-slots_packet (next_id r.req_id) slots (omega arith),
  )

  -- For a request of 1 to 253 descriptors that the connection takes: whatever bytes come back, if
  -- `send` returns slots then the reply was this request's, and it carried exactly these slots,
  -- one for each descriptor.
  pub send_sound :
      (fd : ℕ) (fds reply slots : List ℕ) (r : RemoteFds C) (s' : C.State)
      → length (fd ∷ fds) ≤ max_fds
      → All IsByte reply
      → Replies r (fd ∷ fds) reply s'
      → (send C (fd ∷ fds) r).0 ≡ ok slots
      → (reply ≡ slots_packet (next_id r.req_id) slots) × (length slots ≡ length (fd ∷ fds))
  send_sound fd fds reply slots r s' len bytes h e =
      check_response_sound (next_id r.req_id) (length (fd ∷ fds)) reply slots bytes
        (ground (arith, send-reply fd fds reply r s' len h))

  -- For a request of 1 to 253 descriptors that the connection takes: a reply that carries another
  -- request's id is refused, whatever else it carries.
  pub send_stale :
      (fd : ℕ) (fds payload : List ℕ) (id low : ℕ) (r : RemoteFds C) (s' : C.State)
      → length (fd ∷ fds) ≤ max_fds
      → id < 2 ^ 32
      → low < 2 ^ 32
      → id ≢ next_id r.req_id
      → Replies r (fd ∷ fds) (packet id low payload) s'
      → (send C (fd ∷ fds) r).0 ≡ err response_id_does_not_match
  send_stale fd fds payload id low r s' len hid hlow ne h = ground (
    arith,
    send-reply fd fds _ r s' len h,
    check_response-packet (next_id r.req_id) (length (fd ∷ fds)) id low payload hid hlow,
  )

  -- For a request of 1 to 253 descriptors that the connection takes: an error text of the server
  -- comes back whole.
  pub send_server_error :
      (fd : ℕ) (fds text : List ℕ) (r : RemoteFds C) (s' : C.State)
      → length (fd ∷ fds) ≤ max_fds
      → Replies r (fd ∷ fds) (packet (next_id r.req_id) error_marker text) s'
      → (send C (fd ∷ fds) r).0 ≡ err (server_error text)
  unfolding check_payload
  send_server_error fd fds text r s' len h = ground (
    arith,
    send-reply fd fds _ r s' len h,
    check_response-packet (next_id r.req_id) (length (fd ∷ fds)) (next_id r.req_id) error_marker
        text,
  )

  -- For a request of 1 to 253 descriptors that the connection takes: a reply that fills the whole
  -- buffer, as one that was cut off does, never gives slots.
  pub send_truncated :
      (fd : ℕ) (fds reply slots : List ℕ) (r : RemoteFds C) (s' : C.State)
      → length (fd ∷ fds) ≤ max_fds
      → length reply ≡ msg_buffer_size
      → Replies r (fd ∷ fds) reply s'
      → (send C (fd ∷ fds) r).0 ≢ ok slots
  unfolding check_response check_header check_payload
  send_truncated fd fds reply slots r s' len full h e =
      ground (arith, send-reply fd fds reply r s' len h)

  -- The request id moves on by one, modulo 2 ^ 32, exactly when the number of descriptors lies in
  -- range; it does so on every outcome of the exchange.
  pub req_id-send :
      (fds : List ℕ) (r : RemoteFds C)
      → (send C fds r).1.req_id
        ≡ (if ltb 0 (length fds) && leb (length fds) max_fds then next_id r.req_id else r.req_id)
  unfolding send exchange finish_send
  req_id-send [] r = refl
  req_id-send (fd ∷ fds) r = ground arith
