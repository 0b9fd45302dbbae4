-- ===== src/Base/Chain.antt =====
-- `do` for results without a state: each step returns at the first error.
use mathlib.Core.Path.{◌≡◌, refl}
use conmon_rs.Base.Results.{Result, ok, err}

module _ {ℓ κ} {X : Type ℓ} {Y : Type κ} where
  infixl 5 ◌>>=◌
  abbrev pub ◌>>=◌ : Result X → (X → Result Y) → Result Y
  ◌>>=◌ r next = elim r [ err e ↦ err e | ok x ↦ next x ]

  -- What a chain that returns a value has done first.
  pub >>=-eq-ok :
      (r : Result X) (next : X → Result Y) {y : Y}
      → (r >>= next) ≡ ok y
      → (x : X) × (r ≡ ok x) × (next x ≡ ok y)
  >>=-eq-ok (err e) next returns = cc
  >>=-eq-ok (ok x) next returns = (x, refl, returns)
