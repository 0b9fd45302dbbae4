-- ===== src/Config/Levels.antt =====
-- The validation of levels and drivers against the constants
-- (pkg/client/client.go).
use conmon_rs.Base.{
  String, str_eq, eq_iff, ◌≡◌, refl, ◌↔◌, ◌⊎◌, inl, inr, Bool-cases, List, [], ◌∷◌,
}
use conmon_rs.Base.Results.{ok, err, invalid_value}
use conmon_rs.Config.{
  LogrusLevel, from_logrus_level, panic_level, fatal_level, error_level, warn_level, info_level,
  debug_level, trace_level, other, validate_string_slice, validate_log_level,
}

-- `given` is one of the values.
abbrev pub OneOf : String → List String → Type 0
OneOf given [] = ⊥
OneOf given (v ∷ vs) = (given ≡ v) ⊎ OneOf given vs

-- The loop accepts exactly the possible values, and its only error names the value that was given.
pub validate_string_slice-OneOf :
    (typ given : String) (vs : List String)
    → ((validate_string_slice typ given vs ≡ ok tt) ↔ OneOf given vs)
      × ((validate_string_slice typ given vs ≡ ok tt)
          ⊎ (validate_string_slice typ given vs ≡ err (invalid_value typ given)))
unfolding validate_string_slice
validate_string_slice-OneOf typ given [] = ((λ h. cc, λ h. absurd h), inr refl)
validate_string_slice-OneOf typ given (v ∷ vs) =
    let (same, refuses) = validate_string_slice-OneOf typ given vs in
    elim (Bool-cases (str_eq given v)) [
      | inl e ↦ rw e ((λ h. inl ((eq_iff given v).0 e), λ h. refl), inl refl)
      | inr e ↦ rw e (
        (λ h. inr (same.0 h), λ h. elim h [ inl p ↦ cc ((eq_iff given v).1 p) | inr q ↦ same.1 q ]),
        refuses,
      )
    ]

-- Every level that `FromLogrusLevel` gives is accepted by the validation.
pub validate-from_logrus_level :
    (level : LogrusLevel) → validate_log_level (from_logrus_level level) ≡ ok tt
unfolding validate_log_level validate_string_slice from_logrus_level
validate-from_logrus_level panic_level = refl
validate-from_logrus_level fatal_level = refl
validate-from_logrus_level error_level = refl
validate-from_logrus_level warn_level = refl
validate-from_logrus_level info_level = refl
validate-from_logrus_level debug_level = refl
validate-from_logrus_level trace_level = refl
validate-from_logrus_level (other n) = refl
