-- ===== src/RemoteFds/Sequence.antt =====
-- Several `Send` calls in a row (pkg/client/remote_fds.go).
use conmon_rs.Base.{
  ℕ, ◌+◌, ◌%◌, ◌^◌, ◌<◌, ◌≡◌, List, [], ◌∷◌, length, arith, ltb, leb, ◌&&◌, if◌then◌else◌,
}
use conmon_rs.Base.Results.{Result}
use conmon_rs.RemoteFds.{FdConn, RemoteFds, max_fds, send}
use conmon_rs.RemoteFds.Send.{req_id-send}

-- One `Send` after the other.
unfoldable pub send_all :
    (C : FdConn) → List (List ℕ) → RemoteFds C → List (Result (List ℕ)) × RemoteFds C
send_all C [] r = ([], r)
send_all C (fds ∷ rest) r =
    let (x, r') = send C fds r in let (xs, r'') = send_all C rest r' in (x ∷ xs, r'')

-- How many of the calls send a request.
abbrev pub requests : List (List ℕ) → ℕ
requests [] = 0
requests (fds ∷ rest) =
    (if ltb 0 (length fds) && leb (length fds) max_fds then 1 else 0) + requests rest

-- Over any connection, and whatever comes of the calls: after any number of them the id is the one
-- at the start and the number of the calls with 1 to 253 descriptors, modulo 2 ^ 32.
pub req_id-send_all :
    (C : FdConn) (calls : List (List ℕ)) (r : RemoteFds C)
    → r.req_id < 2 ^ 32
    → (send_all C calls r).1.req_id ≡ (r.req_id + requests calls) % 2 ^ 32
unfolding send_all
req_id-send_all C [] r h = omega arith
req_id-send_all C (fds ∷ rest) r h =
    let moved = req_id-send C fds r in
    let small : (send C fds r).1.req_id < 2 ^ 32 = ground arith in
    let later = req_id-send_all C rest (send C fds r).1 small in ground arith
