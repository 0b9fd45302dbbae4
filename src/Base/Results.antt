-- ===== src/Base/Results.antt =====
-- Go's error values and its (value, error) results, and code that changes a state and may fail.
use Prim.Native.Nat.{ℕ}
use Prim.Native.String.{String}
use mathlib.Core.Path.{◌≡◌, refl}
use mathlib.Core.Logic.{◌⊎◌, inl, inr}
use mathlib.Core.Bool.{Bool, true, false, ◌||◌}
use mathlib.Core.List.{List}

-- The sentinel errors of the package, those of the standard library that it tests for, and
-- `external` for any other error of a callee. `wrap` is `fmt.Errorf("text: %w", err)`; `join` and
-- `join_one` are `errors.Join` of two errors, and of one beside a nil.
pub data Error : Type 0 where
  runtime_unspecified run_dir_unspecified run_dir_not_created : Error
  timeout_wait_for_pid undefined_cgroup_manager terminal_size_nil : Error
  too_many_file_descriptors response_too_short response_id_does_not_match : Error
  number_of_fds_does_not_match invalid_response_length : Error
  missing_id_mappings unsupported : Error
  eof short_write closed_pipe esrch econnreset detached : Error
  invalid_value : String → String → Error
  server_error : List ℕ → Error
  external : ℕ → Error
  wrap : String → Error → Error
  join : Error → Error → Error
  join_one : Error → Error

-- `errors.Is`: some error of the tree satisfies the test.
unfoldable pub is_error : (Error → Bool) → Error → Bool
is_error test (wrap text e) = is_error test e
is_error test (join_one e) = is_error test e
is_error test (join e f) = is_error test e || is_error test f
is_error test e = test e

abbrev pub is_esrch : Error → Bool
is_esrch esrch = true
is_esrch _ = false

abbrev pub is_econnreset : Error → Bool
is_econnreset econnreset = true
is_econnreset _ = false

abbrev pub is_closed_pipe : Error → Bool
is_closed_pipe closed_pipe = true
is_closed_pipe _ = false

abbrev pub is_detached : Error → Bool
is_detached detached = true
is_detached _ = false

pub data Result {ℓ} (A : Type ℓ) : Type ℓ where
  ok : A → Result A
  err : Error → Result A

abbrev pub wrapped {ℓ} : {A : Type ℓ} → String → Result A → Result A
wrapped text (ok a) = ok a
wrapped text (err e) = err (wrap text e)

abbrev pub Exec {ℓ} : Type ℓ → Type ℓ → Type ℓ
Exec S A = S → Result A × S

module _ {ℓ} {S A : Type ℓ} where
  abbrev pub pure : A → Exec S A
  pure a s = (ok a, s)

  abbrev pub fail : Error → Exec S A
  fail e s = (err e, s)

  abbrev pub lift : Result A → Exec S A
  lift r s = (r, s)

  -- `if err != nil { return fmt.Errorf("text: %w", err) }` around a call.
  abbrev pub context : String → Exec S A → Exec S A
  context text m s = let (r, s') = m s in (wrapped text r, s')

module _ {ℓ} {S A B : Type ℓ} where
  abbrev pub continue : Result A → (A → Exec S B) → Exec S B
  continue (ok a) f s = f a s
  continue (err e) f s = (err e, s)

  infixl 5 ◌>>=◌ ◌>>◌
  abbrev pub ◌>>=◌ : Exec S A → (A → Exec S B) → Exec S B
  ◌>>=◌ m f s = let (r, s') = m s in continue r f s'

  abbrev pub ◌>>◌ : Exec S A → Exec S B → Exec S B
  m >> k = m >>= λ _. k

abbrev pub is_ok {ℓ} : {A : Type ℓ} → Result A → Bool
is_ok (ok a) = true
is_ok (err e) = false

pub Result-cases {ℓ} :
    {A : Type ℓ} (r : Result A) → ((a : A) × (r ≡ ok a)) ⊎ ((e : Error) × (r ≡ err e))
Result-cases (ok a) = inl (a, refl)
Result-cases (err e) = inr (e, refl)

-- The first step of a block that succeeds has succeeded.
pub continue-eq-ok {ℓ} :
    {S A B : Type ℓ} (r : Result A) (f : A → Exec S B) (s : S) {b : B} {s' : S}
    → continue r f s ≡ (ok b, s')
    → (a : A) × (r ≡ ok a) × (f a s ≡ (ok b, s'))
continue-eq-ok (ok a) f s h = (a, refl, h)
continue-eq-ok (err e) f s h = cc
