-- ===== src/FdSocket/Sequence.antt =====
-- Several `Send` calls in a row against the server's fd socket (pkg/client/remote_fds.go,
-- conmon-rs/server/src/fd_socket.rs).
use conmon_rs.Base.{
  ℕ, ◌+◌, ◌^◌, ◌<◌, ◌≤◌, ◌≡◌, ◌≢◌, inl, inr, refl, sym, ◌∙◌, List, [], ◌∷◌, ◌++◌, length, ltb, ◌==◌,
  true, Bool-cases, arith,
}
use mathlib.Core.Path.{subst}
use conmon_rs.Base.Results.{
  Result, ok, err, too_many_file_descriptors, number_of_fds_does_not_match,
}
use conmon_rs.RemoteFds.{RemoteFds, max_fds, send}
use conmon_rs.RemoteFds.Sequence.{send_all}
use conmon_rs.FdSocket.{Fds, Serving}
use conmon_rs.FdSocket.Adding.{AreFresh, stored}
use conmon_rs.FdSocket.Link.{link, fds_of, send_whole, send_dropped}

-- What a client may expect of the socket, without packets, ids and the search for slots: vacant
-- slots that differ, one for each descriptor as the kernel passes it, if none is lost, and an error
-- without an effect otherwise.
module _ (pass : List ℕ → List ℕ) where
  pub data HandsOver (fds : List ℕ) (x : Result (List ℕ)) (s t : Serving) : Type 0 where
    hands_nothing : fds ≡ [] → x ≡ ok [] → t ≡ s → HandsOver fds x s t
    has_too_many :
        max_fds < length fds → x ≡ err too_many_file_descriptors → t ≡ s → HandsOver fds x s t
    loses :
        0 < length fds
        → length fds ≤ max_fds
        → length (pass fds) ≢ length fds
        → x ≡ err number_of_fds_does_not_match
        → t ≡ s
        → HandsOver fds x s t
    keeps :
        (slots : List ℕ) (last : ℕ)
        → 0 < length fds
        → length fds ≤ max_fds
        → length (pass fds) ≡ length fds
        → x ≡ ok slots
        → length slots ≡ length fds
        → AreFresh slots s.state.fds
        → t ≡ record {
          state = record { last = last; fds = stored slots (pass fds) s.state.fds };
          slots = s.slots ++ slots;
        }
        → HandsOver fds x s t

  pub data HandOvers : List (List ℕ) → List (Result (List ℕ)) → Serving → Serving → Type 0 where
    done : {s : Serving} → HandOvers [] [] s s
    next :
        {fds : List ℕ} {rest : List (List ℕ)} {x : Result (List ℕ)} {xs : List (Result (List ℕ))}
        {s t u : Serving}
        → HandsOver fds x s t
        → HandOvers rest xs t u
        → HandOvers (fds ∷ rest) (x ∷ xs) s u

  abbrev pub total : List (List ℕ) → ℕ
  total [] = 0
  total (fds ∷ rest) = length fds + total rest

  length-stored :
      (slots fds : List ℕ) (base : Fds)
      → length slots ≡ length fds
      → length (stored slots fds base) ≡ length slots + length base
  length-stored [] fds base h = omega arith
  length-stored (slot ∷ slots) [] base h = absurd (omega arith)
  length-stored (slot ∷ slots) (fd ∷ fds) base h =
      length-stored slots fds ((slot, fd) ∷ base) (omega arith) ∙ omega arith

  -- The outcome of a call meets the specification and leaves nothing to read.
  record Sent (fds : List ℕ) (r : RemoteFds (link pass))
      (z : Result (List ℕ) × RemoteFds (link pass)) : Type 0 where
    spec : HandsOver fds z.0 r.conn.serving z.1.conn.serving
    idle : z.1.conn.waiting ≡ []
    held : length (fds_of z.1.conn) ≤ length (fds_of r.conn) + length fds

  send-nil : (r : RemoteFds (link pass)) → send (link pass) [] r ≡ (ok [], r)
  unfolding send
  send-nil r = refl

  send-many :
      (fd : ℕ) (fds : List ℕ) (r : RemoteFds (link pass))
      → ltb max_fds (length (fd ∷ fds)) ≡ true
      → send (link pass) (fd ∷ fds) r ≡ (err too_many_file_descriptors, r)
  unfolding send
  send-many fd fds r many = rw many refl

  send-few :
      (fd : ℕ) (fds : List ℕ) (r : RemoteFds (link pass))
      → length (fd ∷ fds) ≤ max_fds
      → r.conn.waiting ≡ []
      → length (fds_of r.conn) + length (fd ∷ fds) ≤ 2 ^ 64
      → Sent (fd ∷ fds) r (send (link pass) (fd ∷ fds) r)
  send-few fd fds r few idle room =
      elim (Bool-cases (length (pass (fd ∷ fds)) == length (fd ∷ fds))) [
        | inl whole ↦
            let same : length (pass (fd ∷ fds)) ≡ length (fd ∷ fds) = ground arith in
            let (slots, last, sent, counted, fresh) = send_whole pass fd fds r few idle same room in
            subst (Sent (fd ∷ fds) r) (sym sent) (record {
              spec = keeps slots last (omega arith) few same refl (counted ∙ same) fresh refl;
              idle = refl;
              held = omega (arith, length-stored slots (pass (fd ∷ fds)) (fds_of r.conn) counted);
            })
        | inr dropped ↦
            let different : length (pass (fd ∷ fds)) ≢ length (fd ∷ fds) = ground arith in
            subst (Sent (fd ∷ fds) r) (sym (send_dropped pass fd fds r few idle different))
              (record {
                spec = loses (omega arith) few different refl refl;
                idle = refl;
                held = omega arith;
              })
      ]

  send-Sent :
      (fds : List ℕ) (r : RemoteFds (link pass))
      → r.conn.waiting ≡ []
      → length (fds_of r.conn) + length fds ≤ 2 ^ 64
      → Sent fds r (send (link pass) fds r)
  send-Sent [] r idle room =
      subst (Sent [] r) (sym (send-nil r))
        (record { spec = hands_nothing refl refl refl; idle = idle; held = omega arith })
  send-Sent (fd ∷ fds) r idle room = elim (Bool-cases (ltb max_fds (length (fd ∷ fds)))) [
    | inl many ↦
        subst (Sent (fd ∷ fds) r) (sym (send-many fd fds r many))
          (record { spec = has_too_many (ground arith) refl refl; idle = idle; held = omega arith })
    | inr few ↦ send-few fd fds r (ground arith) idle room
  ]

  -- Over a connection with nothing left to read, and with room in the socket for all descriptors of
  -- the calls: whatever the kernel does to the descriptors on their way, any number of `Send` calls
  -- in a row does what a client may expect of handing them over, call for call. A call with none
  -- returns none, one with more than 253 is refused, one of whose descriptors the kernel passes
  -- fewer or more gives the error of a count that does not match, and none of these has an effect;
  -- every other one returns vacant slots that differ, which then hold its descriptors in order.
  pub send_all-HandOvers :
      (calls : List (List ℕ)) (r : RemoteFds (link pass))
      → r.conn.waiting ≡ []
      → length (fds_of r.conn) + total calls ≤ 2 ^ 64
      → HandOvers calls
          (send_all (link pass) calls r).0
          r.conn.serving
          (send_all (link pass) calls r).1.conn.serving
  unfolding send_all
  send_all-HandOvers [] r idle room = done
  send_all-HandOvers (fds ∷ rest) r idle room =
      let sent = send-Sent fds r idle (omega arith) in
      let held = sent.held in
      next sent.spec (send_all-HandOvers rest (send (link pass) fds r).1 sent.idle (omega arith))
