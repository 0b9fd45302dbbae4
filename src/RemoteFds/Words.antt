-- ===== src/RemoteFds/Words.antt =====
-- Little-endian words (encoding/binary, as pkg/client/remote_fds.go uses it).
use conmon_rs.Base.{
  ℕ, zero, suc, ◌+◌, ◌*◌, ◌/◌, ◌%◌, ◌^◌, ◌<◌, ◌≤◌, ◌≡◌, refl, List, [], ◌∷◌, ◌++◌, length, take,
  drop, All, arith,
}
use conmon_rs.RemoteFds.{little_endian, read_little_endian, uint64}
use native.Mathlib.Nat.{pow-suc}

abbrev pub IsByte : ℕ → Type 0
IsByte b = b < 256

abbrev pub IsU64 : ℕ → Type 0
IsU64 v = v < 2 ^ 64

pub length-little_endian : (n v : ℕ) → length (little_endian n v) ≡ n
unfolding little_endian
length-little_endian zero v = refl
length-little_endian (suc n) v = omega (arith, length-little_endian n (v / 256))

pub drop-little_endian : (n v : ℕ) (rest : List ℕ) → drop n (little_endian n v ++ rest) ≡ rest
unfolding little_endian
drop-little_endian zero v rest = refl
drop-little_endian (suc n) v rest = drop-little_endian n (v / 256) rest

pub read-little_endian :
    (n v : ℕ) (rest : List ℕ) → v < 256 ^ n → read_little_endian n (little_endian n v ++ rest) ≡ v
unfolding little_endian read_little_endian
read-little_endian zero v rest h = omega arith
read-little_endian (suc n) v rest h =
    omega (arith, read-little_endian n (v / 256) rest (omega (arith, pow-suc 256 n)))

tail_word : (b w : ℕ) → b < 256 → ((b + 256 * w) % 256 ≡ b) × ((b + 256 * w) / 256 ≡ w)
tail_word b w h = omega arith

pow_pos : (n : ℕ) → 0 < 256 ^ n
pow_pos zero = omega arith
pow_pos (suc n) = omega (arith, pow-suc 256 n, pow_pos n)

-- Bytes that are there are determined by the word that is read from them.
pub little_endian-read :
    (n : ℕ) (bs : List ℕ)
    → All IsByte bs
    → n ≤ length bs
    → little_endian n (read_little_endian n bs) ≡ take n bs
unfolding little_endian read_little_endian
little_endian-read zero bs h len = refl
little_endian-read (suc n) [] h len = absurd (omega arith)
little_endian-read (suc n) (b ∷ bs) (hb, h) len =
    ground
      (arith, little_endian-read n bs h (omega arith), tail_word b (read_little_endian n bs) hb)

pub read_little_endian-lt :
    (n : ℕ) (bs : List ℕ) → All IsByte bs → read_little_endian n bs < 256 ^ n
unfolding read_little_endian
read_little_endian-lt zero bs h = omega arith
read_little_endian-lt (suc n) [] h = omega (arith, pow_pos n, pow-suc 256 n)
read_little_endian-lt (suc n) (b ∷ bs) (hb, h) =
    omega (arith, read_little_endian-lt n bs h, pow-suc 256 n)

-- `Uint64` of what `AppendUint64` has put in front.
pub uint64-little_endian :
    (v : ℕ) (rest : List ℕ) → IsU64 v → uint64 (little_endian 8 v ++ rest) ≡ v
unfolding uint64
uint64-little_endian v rest h = read-little_endian 8 v rest h

pub little_endian-uint64 :
    (bs : List ℕ) → All IsByte bs → 8 ≤ length bs → little_endian 8 (uint64 bs) ≡ take 8 bs
unfolding uint64
little_endian-uint64 bs h len = little_endian-read 8 bs h len

pub uint64-lt : (bs : List ℕ) → All IsByte bs → IsU64 (uint64 bs)
unfolding uint64
uint64-lt bs h = read_little_endian-lt 8 bs h
