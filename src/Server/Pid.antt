-- ===== src/Server/Pid.antt =====
-- What a pid file may hold (pkg/client/client.go: `pidGivenFile`).
use conmon_rs.Base.{ℕ, ◌+◌, ◌-◌, ◌*◌, ◌^◌, ◌<◌, ◌≤◌, ◌≡◌, refl, ◌≢◌, ◌↔◌, List, [], ◌∷◌, arith}
use conmon_rs.Base.Results.{ok}
use conmon_rs.Server.{parse_uint_loop, parse_uint}

-- The value of a list of digits, the most significant first, after those that make up `n`.
unfoldable pub value_after : ℕ → List ℕ → ℕ
value_after n [] = n
value_after n (c ∷ cs) = value_after (n * 10 + (c - b'0')) cs

unfoldable pub AllDigits : List ℕ → Type 0
AllDigits [] = Unit {0}
AllDigits (c ∷ cs) = (b'0' ≤ c) × (c ≤ b'9') × AllDigits cs

value_after_mono : (n : ℕ) (cs : List ℕ) → n ≤ value_after n cs
unfolding value_after
value_after_mono n [] = ground arith
value_after_mono n (c ∷ cs) = let rest = value_after_mono (n * 10 + (c - b'0')) cs in ground arith

parse_uint_loop_sound :
    (n m : ℕ) (cs : List ℕ)
    → n < 2 ^ 32
    → parse_uint_loop n cs ≡ ok m
    → (m ≡ value_after n cs) × AllDigits cs × (m < 2 ^ 32)
unfolding parse_uint_loop value_after AllDigits
parse_uint_loop_sound n m [] small h = ground arith
parse_uint_loop_sound n m (c ∷ cs) small h =
    let rest = parse_uint_loop_sound (n * 10 + (c - b'0')) m cs in ground arith

parse_uint_loop_complete :
    (n : ℕ) (cs : List ℕ)
    → AllDigits cs
    → value_after n cs < 2 ^ 32
    → parse_uint_loop n cs ≡ ok (value_after n cs)
unfolding parse_uint_loop value_after AllDigits
parse_uint_loop_complete n [] digits small = refl
parse_uint_loop_complete n (c ∷ cs) digits small =
    let rest = parse_uint_loop_complete (n * 10 + (c - b'0')) cs in
    let mono = value_after_mono (n * 10 + (c - b'0')) cs in ground arith

-- Reading a pid succeeds exactly on a non-empty list of digits whose decimal value is below 2^32,
-- and the pid is then that value.
pub parse_uint_ok_iff :
    (cs : List ℕ) (m : ℕ)
    → (parse_uint cs ≡ ok m)
      ↔ ((cs ≢ []) × AllDigits cs × (value_after 0 cs < 2 ^ 32) × (m ≡ value_after 0 cs))
unfolding parse_uint
parse_uint_ok_iff [] m = ground arith
parse_uint_ok_iff (c ∷ cs) m =
    let sound = parse_uint_loop_sound 0 m (c ∷ cs) in
    let complete = parse_uint_loop_complete 0 (c ∷ cs) in ground arith
