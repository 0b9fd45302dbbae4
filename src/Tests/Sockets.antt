-- ===== src/Tests/Sockets.antt =====
-- Descriptors sent to the server's socket, and what becomes of them there.
use conmon_rs.Base.{
  ℕ, suc, ◌+◌, ◌%◌, ◌^◌, ◌<◌, ◌≡◌, true, none, refl, List, [], ◌∷◌, ◌++◌, map, take, replicate,
  some, inr, arith,
}
use conmon_rs.Base.Results.{ok, err, number_of_fds_does_not_match}
use conmon_rs.RemoteFds.{
  RemoteFds, send, little_endian, append_uint64, read_little_endian, uint64, request_header,
}
use conmon_rs.FdSocket.{
  Serving, Reaction, reply, get, occupied, find_vacant, add, take_all, close, add_all, answer,
  serve,
}
use conmon_rs.FdSocket.Adding.{AreFresh, add_lem}
use conmon_rs.RemoteFds.Sequence.{send_all}
use conmon_rs.FdSocket.Sequence.{HandOvers, send_all-HandOvers}
use conmon_rs.FdSocket.Link.{link, take_all-send, send_dropped}
use conmon_rs.FdSocket.Owners.{
  World, connected, served, disconnected, Reach, start, next, IsOwned, Reach-IsOwned, Reach-empty,
}

-- The kernel gives the descriptors new numbers.
abbrev pub renumbered : List ℕ → List ℕ
renumbered fds = map (λ fd. fd + 20) fds

-- The receiver's buffer of 1024 bytes has room for 252 descriptors.
abbrev fits_252 : List ℕ → List ℕ
fits_252 fds = take 252 fds

-- Slot 8 is held by another connection, and slot 7 was the last.
abbrev pub serving : Serving
serving = record { state = record { last = 7; fds = (8, 33) ∷ [] }; slots = [] }

abbrev pub idle_client : RemoteFds (link renumbered)
idle_client = record { conn = record { serving = serving; waiting = [] }; req_id = 4 }

take_all-send_example :
    (slots : List ℕ) × (r' : RemoteFds (link renumbered)) × (last : ℕ) × (send
        (link renumbered)
        (3 ∷ 4 ∷ [])
        idle_client
      ≡ (ok slots, r'))
    × AreFresh slots ((8, 33) ∷ [])
    × (take_all slots r'.conn.serving.state
        ≡ (inr (23 ∷ 24 ∷ []), record { last = last; fds = (8, 33) ∷ [] }))
    × (r'.conn.serving.slots ≡ slots)
    × (r'.conn.waiting ≡ [])
take_all-send_example =
    take_all-send renumbered 3 (4 ∷ []) idle_client (omega arith) refl refl (omega arith)

add_all_skips :
    add_all (23 ∷ 24 ∷ []) serving
    ≡ some (
      9 ∷ 10 ∷ [],
      record {
        state = record { last = 10; fds = (10, 24) ∷ (9, 23) ∷ (8, 33) ∷ [] };
        slots = 9 ∷ 10 ∷ [];
      },
    )
unfolding add_all add find_vacant occupied get
add_all_skips = refl

abbrev client_of_252 : RemoteFds (link fits_252)
client_of_252 = record { conn = record { serving = serving; waiting = [] }; req_id = 4 }

send_dropped_example : send (link fits_252) (replicate 253 0) client_of_252 ≡ (
  err number_of_fds_does_not_match,
  record { conn = record { serving = serving; waiting = [] }; req_id = 5 },
)
send_dropped_example =
    send_dropped fits_252 0 (replicate 252 0) client_of_252 (omega arith) refl (omega arith)

-- A connection sends descriptor 23, which is put into slot 1.
abbrev one_sent : World
one_sent = record { state = record { last = 1; fds = (1, 23) ∷ [] }; guards = (1 ∷ []) ∷ [] }

abbrev one_sent_reply : Reaction
one_sent_reply = reply (append_uint64 [] (request_header 1 1) ++ append_uint64 [] 1)

one_sent-serve :
    serve
      (append_uint64 [] (request_header 1 1))
      (23 ∷ [])
      (record { state = record { last = 0; fds = [] }; slots = [] })
    ≡ some (one_sent_reply, record { state = one_sent.state; slots = 1 ∷ [] })
unfolding serve answer add_all add find_vacant occupied get append_uint64 request_header uint64
    read_little_endian little_endian
one_sent-serve = refl

one_sent-Reach : Reach one_sent
one_sent-Reach = next (next (start 0) connected) (
    served [] [] [] (append_uint64 [] (request_header 1 1)) (23 ∷ []) one_sent_reply
      (record { state = one_sent.state; slots = 1 ∷ [] }) refl one_sent-serve)

Reach-IsOwned_example : IsOwned ((1, 23) ∷ []) ((1 ∷ []) ∷ [])
Reach-IsOwned_example = Reach-IsOwned one_sent-Reach

abbrev all_closed : World
all_closed = record {
  state = (close (record { state = one_sent.state; slots = 1 ∷ [] })).state;
  guards = [];
}

all_closed-Reach : Reach all_closed
all_closed-Reach = next one_sent-Reach (disconnected [] [] (1 ∷ []) refl)

all_closed-empty : all_closed.state.fds ≡ []
all_closed-empty = Reach-empty all_closed-Reach refl

add_lem_example :
    (slot : ℕ) × (d : ℕ) × (add 23 serving.state
      ≡ some (slot, record { last = slot; fds = (slot, 23) ∷ (8, 33) ∷ [] }))
    × (slot ≡ (7 + suc d) % 2 ^ 64)
    × (get slot ((8, 33) ∷ []) ≡ none)
    × ((e : ℕ) → e < d → occupied ((7 + suc e) % 2 ^ 64) ((8, 33) ∷ []) ≡ true)
add_lem_example = add_lem 23 serving.state (omega arith)

-- The descriptors of the third call do not fit the receiver.
abbrev three_calls : List (List ℕ)
three_calls = (3 ∷ 4 ∷ []) ∷ [] ∷ replicate 253 5 ∷ []

abbrev idle_at_252 : RemoteFds (link fits_252)
idle_at_252 = record { conn = record { serving = serving; waiting = [] }; req_id = 4 }

send_all-HandOvers_example :
    HandOvers fits_252 three_calls
      (send_all (link fits_252) three_calls idle_at_252).0
      serving
      (send_all (link fits_252) three_calls idle_at_252).1.conn.serving
send_all-HandOvers_example = send_all-HandOvers fits_252 three_calls idle_at_252 refl (omega arith)
