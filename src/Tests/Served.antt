-- ===== src/Tests/Served.antt =====
-- The server's loops on an attach connection, and the client at the other end.
use conmon_rs.Base.{ℕ, ◌≡◌, ◌↔◌, refl, true, List, [], ◌∷◌, ◌++◌, map, some, length, All, arith}
use conmon_rs.Base.Results.{ok}
use conmon_rs.Attach.Output.{stdout, redirect_response_to_output_streams}
use conmon_rs.AttachServer.{
  std_out, std_err, done, message, receive_error, all, WriteHalf, returned, write_loop, read,
  filled, until_zero, Sender, read_loop, packet_buf_size,
}
use conmon_rs.AttachServer.Sending.{Delivers, as_message}
use conmon_rs.AttachServer.Delivered.{delivered, redirect-write_loop}
use conmon_rs.AttachServer.Receiving.{Collects, HasNoZero, read_loop_whole_iff}
use conmon_rs.Tests.Sessions.{session, buffers, faithful_buffers, empty_buffers}

abbrev wire : WriteHalf
wire = record { State = List (List ℕ); write = λ p s. (all, s ++ p ∷ []) }

abbrev wire-Delivers : Delivers wire
wire-Delivers = record { sent = λ s. s; takes = λ p s. refl; sent-write = λ p s. refl }

redirect-write_loop_example :
    let (status, w') =
      write_loop wire
        (map as_message ((104 ∷ 105 ∷ [], std_out) ∷ (1 ∷ [], std_err) ∷ (33 ∷ [], std_out) ∷ [])
          ++ message done ∷ receive_error ∷ [])
        [] in
    let (result, s') =
      redirect_response_to_output_streams buffers session (map delivered w') empty_buffers in
    (status ≡ returned)
    × (result ≡ some (ok tt))
    × (s'.held stdout ≡ 104 ∷ 105 ∷ 33 ∷ [])
    × (s'.closed stdout ≡ true)
redirect-write_loop_example =
    redirect-write_loop wire wire-Delivers buffers faithful_buffers session
      ((104 ∷ 105 ∷ [], std_out) ∷ (1 ∷ [], std_err) ∷ (33 ∷ [], std_out) ∷ []) (receive_error ∷ [])
      [] empty_buffers stdout refl refl

abbrev queue : Sender
queue = record { State = List (List ℕ); send = λ p s. (true, s ++ p ∷ []) }

abbrev queue-Collects : Collects queue
queue-Collects = record { received = λ s. s; takes = λ p s. refl; received-send = λ p s. refl }

read_loop_whole_iff_example :
    ((read_loop queue true (map read ((7 ∷ 8 ∷ []) ∷ (9 ∷ 0 ∷ 4 ∷ []) ∷ [])) []).1
      ≡ (7 ∷ 8 ∷ []) ∷ (9 ∷ 0 ∷ 4 ∷ []) ∷ [])
    ↔ All HasNoZero ((7 ∷ 8 ∷ []) ∷ (9 ∷ 0 ∷ 4 ∷ []) ∷ [])
read_loop_whole_iff_example =
    read_loop_whole_iff queue queue-Collects true ((7 ∷ 8 ∷ []) ∷ (9 ∷ 0 ∷ 4 ∷ []) ∷ []) []
      ((omega arith, omega arith), ((omega arith, omega arith), tt)) refl

-- A read of one byte fills the rest of the buffer with zeros.
filled_lem : (length (filled (7 ∷ [])) ≡ packet_buf_size) × (until_zero (filled (7 ∷ [])) ≡ 7 ∷ [])
unfolding filled until_zero
filled_lem = (refl, refl)
