-- ===== src/AttachServer/Sending.antt =====
-- The packets that the server's `write_loop` sends (conmon-rs/server/src/attach.rs).
use conmon_rs.Base.{
  ℕ, zero, suc, ◌<◌, ◌≤◌, ◌≡◌, refl, sym, ap, ◌∙◌, List, [], ◌∷◌, ◌++◌, map, length, take,
  take-append-drop, length-drop, drop, All, none, arith,
}
use mathlib.Core.List.{append-nil, append_assoc}
use conmon_rs.AttachServer.{
  done_packet, Pipe, content, done, Received, message, all, WriteHalf, returned, chunks_loop,
  chunks, packets, after_write, write_packets, after_done, after_packets, write_loop,
}

abbrev pub joined : List (List ℕ) → List ℕ
joined [] = []
joined (x ∷ xs) = x ++ joined xs

length-take-le : (n : ℕ) (xs : List ℕ) → length (take n xs) ≤ n
length-take-le zero xs = omega arith
length-take-le (suc n) [] = omega arith
length-take-le (suc n) (x ∷ xs) = omega (arith, length-take-le n xs)

chunks_loop_lem :
    (fuel size : ℕ) (buf : List ℕ)
    → length buf ≤ fuel
    → 0 < size
    → (joined (chunks_loop fuel size buf) ≡ buf)
      × All (λ c. length c ≤ size) (chunks_loop fuel size buf)
unfolding chunks_loop
chunks_loop_lem zero size [] h pos = (refl, tt)
chunks_loop_lem zero size (b ∷ buf) h pos = absurd (omega arith)
chunks_loop_lem (suc fuel) size [] h pos = (refl, tt)
chunks_loop_lem (suc fuel) size (b ∷ buf) h pos =
    let (whole, fit) =
      chunks_loop_lem fuel size (drop size (b ∷ buf)) (omega (arith, length-drop size (b ∷ buf)))
        pos in
    (
      ap (λ l. take size (b ∷ buf) ++ l) whole ∙ take-append-drop size (b ∷ buf),
      (length-take-le size (b ∷ buf), fit),
    )

-- Cutting into chunks loses nothing, and no chunk is longer than its size.
pub chunks_lem :
    (size : ℕ) (buf : List ℕ)
    → 0 < size
    → (joined (chunks size buf) ≡ buf) × All (λ c. length c ≤ size) (chunks size buf)
unfolding chunks
chunks_lem size buf pos = chunks_loop_lem (length buf) size buf (omega arith) pos

-- A write half whose writes all succeed, and that can be asked for the packets it has sent.
pub record Delivers (W : WriteHalf) : Type 0 where
  pub sent : W.State → List (List ℕ)
  pub takes : (p : List ℕ) (s : W.State) → (W.write p s).0 ≡ all
  pub sent-write : (p : List ℕ) (s : W.State) → sent (W.write p s).1 ≡ sent s ++ p ∷ []

abbrev pub Chunk : Type 0
Chunk = List ℕ × Pipe

abbrev pub as_message : Chunk → Received
as_message (buf, pipe) = message (content buf pipe)

abbrev pub all_packets : List Chunk → List (List ℕ)
all_packets [] = []
all_packets ((buf, pipe) ∷ outs) = packets buf pipe ++ all_packets outs

module _ (W : WriteHalf) (R : Delivers W) where
  open R use {sent}

  write-all : (p : List ℕ) (s : W.State) → W.write p s ≡ (all, (W.write p s).1)
  write-all p s = ap (λ r. (r, (W.write p s).1)) (R.takes p s)

  write_packets_lem :
      (ps : List (List ℕ)) (s : W.State)
      → (s' : W.State) × (write_packets W ps s ≡ (none, s')) × (sent s' ≡ sent s ++ ps)
  unfolding write_packets
  write_packets_lem [] s = (s, refl, sym (append-nil (sent s)))
  write_packets_lem (p ∷ ps) s =
      let (s', e, all_sent) = write_packets_lem ps (W.write p s).1 in
      (
        s',
        ap (after_write W (write_packets W ps)) (write-all p s) ∙ e,
        all_sent ∙ ap (λ l. l ++ ps) (R.sent-write p s) ∙ append_assoc (sent s) (p ∷ []) ps,
      )

  pub write_loop_lem :
      (outs : List Chunk) (rest : List Received) (s : W.State)
      → (s' : W.State) × (write_loop W (map as_message outs ++ message done ∷ rest) s
          ≡ (returned, s'))
        × (sent s' ≡ sent s ++ all_packets outs ++ done_packet ∷ [])
  unfolding write_loop
  write_loop_lem [] rest s = (
    (W.write done_packet s).1,
    ap (after_done W) (write-all done_packet s),
    R.sent-write done_packet s ∙ ap (λ l. l ++ done_packet ∷ []) (sym (append-nil (sent s))),
  )
  write_loop_lem ((buf, pipe) ∷ outs) rest s =
      let (s', e, before) = write_packets_lem (packets buf pipe) s in
      let (s'', e', after) = write_loop_lem outs rest s' in
      let loop = write_loop W (map as_message outs ++ message done ∷ rest) in
      (
        s'',
        ap (after_packets W loop) e ∙ e',
        after
            ∙ ap (λ l. (l ++ all_packets outs) ++ done_packet ∷ []) before
            ∙ ap (λ l. l ++ done_packet ∷ [])
                (append_assoc (sent s) (packets buf pipe) (all_packets outs)),
      )
