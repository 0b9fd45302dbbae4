-- ===== src/RpcServer/Descriptors.antt =====
-- From `RemoteFDs.Send` to the server's `create_container`, which takes the descriptors out of
-- their slots (pkg/client/remote_fds.go, pkg/client/client.go, conmon-rs/server/src/rpc.rs).
use conmon_rs.Base.{
  ℕ, suc, ◌+◌, ◌≤◌, ◌^◌, ◌≡◌, refl, sym, ap, ◌∙◌, List, [], ◌∷◌, ◌++◌, length, ◌⊎◌, inl, inr, arith,
}
use conmon_rs.Base.Results.{Result, ok, err, external, Exec, lift, pure, ◌>>=◌}
use conmon_rs.Proto.CreateContainerRequest
use conmon_rs.Wire.{Capnp, Content, absent, words}
use conmon_rs.Requests.Config.{CreateContainerConfig}
use conmon_rs.Requests.Metadata.Effect.{given_words}
use conmon_rs.Requests.Received.Create.{ReceivesContainer}
use conmon_rs.RemoteFds.{RemoteFds, max_fds, send}
use conmon_rs.FdSocket.{State, Refusal, take_slot, take_all, then_take, prepend_fd}
use conmon_rs.FdSocket.Link.{link, fds_of, take_all-send}

abbrev pub words_of : Content → List ℕ
words_of (words l) = l
words_of c = []

-- `pry_err!` of a refusal.
abbrev pub as_result : (Refusal ⊎ List ℕ) × State → Result (List ℕ) × State
as_result (inl e, s) = (err (external 1), s)
as_result (inr fds, s) = (ok fds, s)

module _ (C : Capnp) where
  -- The part of `create_container` that takes the additional and the leaked descriptors.
  unfoldable pub take_descriptors : C.Message → Exec State (List ℕ × List ℕ)
  take_descriptors m = do
    additional ← lift (CreateContainerRequest.additional_fds C m)
    additional_fds ← λ s. as_result (take_all (words_of additional) s)
    leak ← lift (CreateContainerRequest.leak_fds C m)
    leak_fds ← λ s. as_result (take_all (words_of leak) s)
    pure (additional_fds, leak_fds)

taken-cases :
    {A : Type 0} (q : (Refusal ⊎ A) × State)
    → ((e : Refusal) × (s : State) × (q ≡ (inl e, s))) ⊎ ((a : A) × (s : State) × (q ≡ (inr a, s)))
taken-cases (inl e, s) = inl (e, s, refl)
taken-cases (inr a, s) = inr (a, s, refl)

-- Slots that are taken together can be taken in two parts.
take_all-append :
    (xs ys zs : List ℕ) (s s' : State)
    → take_all (xs ++ ys) s ≡ (inr zs, s')
    → (front : List ℕ) × (back : List ℕ) × (t : State) × (take_all xs s ≡ (inr front, t))
      × (take_all ys t ≡ (inr back, s'))
      × (zs ≡ front ++ back)
      × (length front ≡ length xs)
unfolding take_all
take_all-append [] ys zs s s' h = ([], zs, s, refl, h, refl, refl)
take_all-append (x ∷ xs) ys zs s s' h = elim (taken-cases (take_slot x s)) [
  | inl (e, s1, refused) ↦ absurd (cc (sym (ap (then_take (take_all (xs ++ ys))) refused) ∙ h))
  | inr (fd, s1, found) ↦
      let rest = sym (ap (then_take (take_all (xs ++ ys))) found) ∙ h in
      elim (taken-cases (take_all (xs ++ ys) s1)) [
        | inl (e, s2, refused) ↦ absurd (cc (sym (ap (prepend_fd fd) refused) ∙ rest))
        | inr (more, s2, all) ↦
            let both = sym (ap (prepend_fd fd) all) ∙ rest in
            let (front, back, t, first, second, whole, same) =
              take_all-append xs ys more s1 s2 all in
            (
              fd ∷ front,
              back,
              t,
              ap (then_take (take_all xs)) found ∙ ap (prepend_fd fd) first,
              cc (second, both),
              cc (whole, both),
              ap suc same,
            )
      ]
]

words_of-given_words : (l : List ℕ) → words_of (given_words l absent) ≡ l
words_of-given_words [] = refl
words_of-given_words (v ∷ vs) = refl

take_descriptors_lem :
    (C : Capnp) (global : ℕ) (cfg : CreateContainerConfig) (m : C.Message) (s t s' : State)
    (front back : List ℕ)
    → ReceivesContainer C global cfg m
    → take_all cfg.additional_fds s ≡ (inr front, t)
    → take_all cfg.leak_fds t ≡ (inr back, s')
    → take_descriptors C m s ≡ (ok (front, back), s')
unfolding take_descriptors
take_descriptors_lem C global cfg m s t s' front back got first second = ground (
  arith,
  got.additional_fds,
  got.leak_fds,
  words_of-given_words cfg.additional_fds,
  words_of-given_words cfg.leak_fds,
)

-- For a `Send` of 1 to 253 descriptors over a connection with nothing left to read, which the
-- kernel passes whole and for which the socket has room: if its slots are then given to a container
-- as its additional descriptors and those to leak, in this order and divided in any way, and the
-- server handles the request before anything else happens at the socket, then the container is given
-- the descriptors as the kernel passed them, in their order and divided in the same way, and the
-- socket holds what it held before.
pub take_descriptors-send :
    (C : Capnp) (global : ℕ) (cfg : CreateContainerConfig) (m : C.Message) (pass : List ℕ → List ℕ)
    (fd : ℕ) (fds slots : List ℕ) (r r' : RemoteFds (link pass))
    → length (fd ∷ fds) ≤ max_fds
    → r.conn.waiting ≡ []
    → length (pass (fd ∷ fds)) ≡ length (fd ∷ fds)
    → length (fds_of r.conn) + length (fd ∷ fds) ≤ 2 ^ 64
    → send (link pass) (fd ∷ fds) r ≡ (ok slots, r')
    → cfg.additional_fds ++ cfg.leak_fds ≡ slots
    → ReceivesContainer C global cfg m
    → (front : List ℕ) × (back : List ℕ) × (last : ℕ) × (take_descriptors C m r'.conn.serving.state
        ≡ (ok (front, back), record { last = last; fds = fds_of r.conn }))
      × (front ++ back ≡ pass (fd ∷ fds))
      × (length front ≡ length cfg.additional_fds)
take_descriptors-send C global cfg m pass fd fds slots r r' few idle whole room sent divided got =
    let (slots0, r0, last, sent0, fresh, taken, kept, quiet) =
      take_all-send pass fd fds r few idle whole room in
    let same_slots : slots0 ≡ slots = cc (sent, sent0) in
    let same_end : r0 ≡ r' = cc (sent, sent0) in
    let all : take_all (cfg.additional_fds ++ cfg.leak_fds) r'.conn.serving.state
        ≡ (inr (pass (fd ∷ fds)), record { last = last; fds = fds_of r.conn }) =
      ap (λ l. take_all l r'.conn.serving.state) (divided ∙ sym same_slots)
      ∙ ap (λ (e : RemoteFds (link pass)). take_all slots0 e.conn.serving.state) (sym same_end)
      ∙ taken in
    let (front, back, t, first, second, joined, same) =
      take_all-append cfg.additional_fds cfg.leak_fds (pass (fd ∷ fds)) r'.conn.serving.state _
        all in
    (
      front,
      back,
      last,
      take_descriptors_lem C global cfg m r'.conn.serving.state t _ front back got first second,
      sym joined,
      same,
    )
