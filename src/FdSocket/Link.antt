-- ===== src/FdSocket/Link.antt =====
-- The client's `Send` against the server's fd socket (pkg/client/remote_fds.go,
-- conmon-rs/server/src/fd_socket.rs). How the kernel passes descriptors is a parameter: it numbers
-- them anew, and those that do not fit the receiver are dropped.
use mathlib.Core.Option
use conmon_rs.Base.{
  ℕ, ◌+◌, ◌^◌, ◌≤◌, ◌≡◌, ◌≢◌, refl, ap, ◌∙◌, List, [], ◌∷◌, ◌++◌, length, take, take_whole, Option,
  none, some, inr, arith,
}
use conmon_rs.Base.Results.{ok, err, external, Result, number_of_fds_does_not_match}
use conmon_rs.RemoteFds.{
  FdConn, RemoteFds, max_fds, msg_buffer_size, request_header, check_payload, send,
}
use conmon_rs.RemoteFds.Response.{
  packet, slots_packet, check_response-packet, length-packet, length-encode_slots,
}
use conmon_rs.RemoteFds.Send.{next_id, Replies, send-reply, send_accepts}
use conmon_rs.FdSocket.{
  Fds, Serving, Reaction, reply, silent, ended, close, serve, answer, replied, as_reply,
  wrong_count, codes, to_text, take_all,
}
use conmon_rs.FdSocket.Adding.{AreFresh, stored, add_all-some, take_all-stored}
use conmon_rs.FdSocket.Requests.{
  serve-request_header, answer_whole, answer_dropped, slots_reply-slots_packet, take-packet,
}

-- A connection to the server, with the packets that wait to be read.
pub record Link : Type 0 where
  pub serving : Serving
  pub waiting : List (List ℕ)

abbrev pub reacted : Link → Option (Reaction × Serving) → Link
reacted l none = l
reacted l (some (reply p, s)) = record { serving = s; waiting = l.waiting ++ p ∷ [] }
reacted l (some (silent, s)) = record l { serving = s }
reacted l (some (ended, s)) = record l { serving = s }

-- A read with no packet waiting would block; here it fails.
abbrev pub next_packet : ℕ → Link → List (List ℕ) → Result (List ℕ) × Link
next_packet n l [] = (err (external 11), l)
next_packet n l (p ∷ rest) = (ok (take n p), record l { waiting = rest })

abbrev pub link : (List ℕ → List ℕ) → FdConn
link pass = record {
  State = Link;
  write_msg = λ b fds l. (ok tt, reacted l (serve b (pass fds) l.serving));
  read = λ n l. next_packet n l l.waiting;
  close = λ l. (ok tt, record { serving = close l.serving; waiting = [] });
}

-- The descriptors of the socket, whatever connection they came over.
abbrev pub fds_of : Link → Fds
fds_of l = l.serving.state.fds

module _ (pass : List ℕ → List ℕ) (fd : ℕ) (fds : List ℕ) (r : RemoteFds (link pass))
    (few : length (fd ∷ fds) ≤ max_fds) (idle : r.conn.waiting ≡ []) where
  -- What the client reads when the server's round gives a packet.
  Replies-link :
      (p : List ℕ) (s : Serving)
      → answer
          (request_header (next_id r.req_id) (length (fd ∷ fds)))
          (pass (fd ∷ fds))
          r.conn.serving
        ≡ some (p, s)
      → Replies
          (link pass)
          r
          (fd ∷ fds)
          (take msg_buffer_size p)
          (record { serving = s; waiting = [] })
  Replies-link p s e = record {
    sent = record { serving = s; waiting = p ∷ [] };
    takes =
        ap (λ o. (ok tt, reacted r.conn o))
          (serve-request_header (next_id r.req_id) (length (fd ∷ fds)) (pass (fd ∷ fds))
              r.conn.serving (omega arith) (omega arith) (omega arith)
            ∙ ap (Option.map as_reply) e)
        ∙ ap (λ w. (ok tt, record { serving = s; waiting = w ++ p ∷ [] })) idle;
    delivers = refl;
  }

  -- A request whose descriptors all come over, with room for them.
  pub send_whole :
      length (pass (fd ∷ fds)) ≡ length (fd ∷ fds)
      → length (fds_of r.conn) + length (fd ∷ fds) ≤ 2 ^ 64
      → (slots : List ℕ) × (last : ℕ) × (send (link pass) (fd ∷ fds) r ≡ (
        ok slots,
        record {
          conn = record {
            serving = record {
              state = record { last = last; fds = stored slots (pass (fd ∷ fds)) (fds_of r.conn) };
              slots = r.conn.serving.slots ++ slots;
            };
            waiting = [];
          };
          req_id = next_id r.req_id;
        },
      ))
        × (length slots ≡ length (pass (fd ∷ fds)))
        × AreFresh slots (fds_of r.conn)
  send_whole whole room =
      let id = next_id r.req_id in
      let (slots, last, added, same, fit, fresh) =
        add_all-some (pass (fd ∷ fds)) r.conn.serving (omega arith) in
      let s : Serving = record {
        state = record { last = last; fds = stored slots (pass (fd ∷ fds)) (fds_of r.conn) };
        slots = r.conn.serving.slots ++ slots;
      } in
      let counted : length slots ≡ length (fd ∷ fds) = omega arith in
      let sent_reply =
        answer_whole id (length (fd ∷ fds)) (pass (fd ∷ fds)) r.conn.serving (omega arith)
          (omega arith) whole
        ∙ ap (Option.map (replied (request_header id (length (fd ∷ fds))))) added
        ∙ ap (λ p. some (p, s)) (slots_reply-slots_packet id (length (fd ∷ fds)) slots counted) in
      let whole_reply = take_whole msg_buffer_size (slots_packet id slots) (
        unfold slots_packet in
        omega (arith, length-packet id (length slots) _, length-encode_slots slots)) in
      let replies = rw whole_reply at (Replies-link (slots_packet id slots) s sent_reply) in
      (slots, last, send_accepts (link pass) fd fds slots r _ few counted fit replies, same, fresh)

  -- For a request of 1 to 253 descriptors over a connection with nothing left to read: if the
  -- kernel passes all of them and the socket has that many slots to spare, `Send` returns a slot
  -- for each, which were vacant and differ; taking these slots then gives the descriptors as the
  -- kernel passed them, in their order, and leaves the descriptors that were there before.
  pub take_all-send :
      length (pass (fd ∷ fds)) ≡ length (fd ∷ fds)
      → length (fds_of r.conn) + length (fd ∷ fds) ≤ 2 ^ 64
      → (slots : List ℕ) × (r' : RemoteFds (link pass)) × (last : ℕ) × (send
            (link pass)
            (fd ∷ fds)
            r
          ≡ (ok slots, r'))
        × AreFresh slots (fds_of r.conn)
        × (take_all slots r'.conn.serving.state
            ≡ (inr (pass (fd ∷ fds)), record { last = last; fds = fds_of r.conn }))
        × (r'.conn.serving.slots ≡ r.conn.serving.slots ++ slots)
        × (r'.conn.waiting ≡ [])
  take_all-send whole room =
      let (slots, last, sent, same, fresh) = send_whole whole room in
      (
        slots,
        _,
        last,
        sent,
        fresh,
        take_all-stored slots (pass (fd ∷ fds)) (fds_of r.conn) last same fresh,
        refl,
        refl,
      )

  -- For a request of 1 to 253 descriptors over a connection with nothing left to read: if the
  -- kernel passes fewer or more of them, the server keeps none and answers with an error text, and
  -- `Send` returns the error of a count that does not match, without the text.
  pub send_dropped :
      length (pass (fd ∷ fds)) ≢ length (fd ∷ fds)
      → send (link pass) (fd ∷ fds) r ≡ (
        err number_of_fds_does_not_match,
        record {
          conn = record { serving = r.conn.serving; waiting = [] };
          req_id = next_id r.req_id;
        },
      )
  unfolding check_payload
  send_dropped different =
      let id = next_id r.req_id in
      let text = codes (to_text (wrong_count (length (pass (fd ∷ fds))) (length (fd ∷ fds)))) in
      let refused =
        answer_dropped id (length (fd ∷ fds)) (pass (fd ∷ fds)) r.conn.serving (omega arith)
          (omega arith) different in
      let replies =
        rw (take-packet 2025 id 255 text) at (Replies-link (packet id 255 text) _ refused) in
      ground (
        arith,
        send-reply (link pass) fd fds _ r _ few replies,
        check_response-packet id (length (fd ∷ fds)) id 255 (take 2025 text),
      )
