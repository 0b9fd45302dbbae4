-- ===== src/Tests/Fds.antt =====
-- Requests for descriptors over a connection that answers with a fixed packet.
use conmon_rs.Base.{ℕ, ◌≡◌, refl, List, [], ◌∷◌, take, length, arith}
use conmon_rs.Base.Results.{ok}
use conmon_rs.RemoteFds.{
  FdConn, RemoteFds, request_header, little_endian, append_uint64, read_little_endian, uint64,
  read_slots, check_payload, check_header, check_response, exchange, finish_send, send,
}
use conmon_rs.RemoteFds.Response.{packet, slots_packet}
use conmon_rs.RemoteFds.Send.{Replies, send_sound}

abbrev pub fixed_reply : FdConn
fixed_reply = record {
  State = List ℕ;
  write_msg = λ header fds s. (ok tt, s);
  read = λ n s. (ok (take n s), s);
  close = λ s. (ok tt, s);
}

-- The last request had the id 6.
abbrev waiting : List ℕ → RemoteFds fixed_reply
waiting reply = record { conn = reply; req_id = 6 }

-- The slots 9 and 513 for request 7.
abbrev two_slots : List ℕ
two_slots =
    2 ∷ 0 ∷ 0 ∷ 0 ∷ 7 ∷ 0 ∷ 0 ∷ 0 ∷ 9 ∷ 0 ∷ 0 ∷ 0 ∷ 0 ∷ 0 ∷ 0 ∷ 0 ∷ 1 ∷ 2 ∷ 0 ∷ 0 ∷ 0 ∷ 0 ∷ 0 ∷ 0
    ∷ []

two_slots_lem : two_slots ≡ slots_packet 7 (9 ∷ 513 ∷ [])
unfolding slots_packet packet append_uint64 request_header little_endian
two_slots_lem = refl

two_slots-Replies : Replies fixed_reply (waiting two_slots) (3 ∷ 4 ∷ []) two_slots two_slots
two_slots-Replies = record { sent = two_slots; takes = refl; delivers = refl }

two_slots_sent : (send fixed_reply (3 ∷ 4 ∷ []) (waiting two_slots)).0 ≡ ok (9 ∷ 513 ∷ [])
unfolding send exchange finish_send check_response check_header check_payload read_slots uint64
    read_little_endian
two_slots_sent = refl

send_sound_example :
    (two_slots ≡ slots_packet 7 (9 ∷ 513 ∷ [])) × (length {A = ℕ} (9 ∷ 513 ∷ []) ≡ 2)
send_sound_example =
    send_sound fixed_reply 3 (4 ∷ []) two_slots (9 ∷ 513 ∷ []) (waiting two_slots) two_slots
      (omega arith) (ground arith) two_slots-Replies two_slots_sent

-- A late answer to request 6.
abbrev late : List ℕ
late = 1 ∷ 0 ∷ 0 ∷ 0 ∷ 6 ∷ 0 ∷ 0 ∷ 0 ∷ 9 ∷ 0 ∷ 0 ∷ 0 ∷ 0 ∷ 0 ∷ 0 ∷ 0 ∷ []

-- The server answers request 7 with the text "no".
abbrev refused : List ℕ
refused = 255 ∷ 255 ∷ 255 ∷ 255 ∷ 7 ∷ 0 ∷ 0 ∷ 0 ∷ 110 ∷ 111 ∷ []
