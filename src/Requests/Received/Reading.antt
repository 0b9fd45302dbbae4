-- ===== src/Requests/Received/Reading.antt =====
-- Reading a message whose content is known (internal/proto/conmon.capnp.go).
use conmon_rs.Base.{ℕ, String, ◌<◌, ◌^◌, ◌≡◌, ap, ◌∙◌, Bool, true, false, ◌==◌, arith}
use conmon_rs.Base.Results.{ok}
use conmon_rs.Wire.{
  Capnp, Place, Content, stored_text, text_of, text_of-stored_text, bit, IsReadable,
}

pub bit-lt : (b : Bool) → bit b < 2 ^ 1
bit-lt true = omega arith
bit-lt false = omega arith

-- A flag that was set is read as itself.
pub flag_lem : {n : ℕ} (b : Bool) → n ≡ bit b → (n == 1) ≡ b
flag_lem true h = ground arith
flag_lem false h = ground arith

module _ (C : Capnp) {m : C.Message} (R : IsReadable C m) where
  pub text_lem :
      (p : Place) (k : ℕ) {v : String} → C.content m p k ≡ stored_text v → C.read_text m p k ≡ ok v
  text_lem p k {v = v} h =
      R.text_eq p k ∙ ap (λ c. ok (text_of c)) h ∙ ap (λ w. ok w) (text_of-stored_text v)

  pub list_lem : (p : Place) (k : ℕ) {c : Content} → C.content m p k ≡ c → C.read_list m p k ≡ ok c
  list_lem p k h = R.list_eq p k ∙ ap (λ c. ok c) h
