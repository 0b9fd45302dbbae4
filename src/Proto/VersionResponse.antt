-- ===== src/Proto/VersionResponse.antt =====
-- The accessors of `Conmon_VersionResponse` that the client and its server use
-- (internal/proto/conmon.capnp.go).
use conmon_rs.Base.{ℕ, String}
use conmon_rs.Base.Results.{Result}
use conmon_rs.Wire.{Capnp, root}

module _ (C : Capnp) where
  abbrev pub process_id : C.Message → ℕ
  process_id m = C.scalar m root 0 32

  abbrev pub version : C.Message → Result String
  version m = C.read_text m root 0

  abbrev pub tag : C.Message → Result String
  tag m = C.read_text m root 1

  abbrev pub commit : C.Message → Result String
  commit m = C.read_text m root 2

  abbrev pub build_date : C.Message → Result String
  build_date m = C.read_text m root 3

  abbrev pub target : C.Message → Result String
  target m = C.read_text m root 4

  abbrev pub rust_version : C.Message → Result String
  rust_version m = C.read_text m root 5

  abbrev pub cargo_version : C.Message → Result String
  cargo_version m = C.read_text m root 6

  abbrev pub cargo_tree : C.Message → Result String
  cargo_tree m = C.read_text m root 7

  abbrev pub set_process_id : ℕ → C.Message → C.Message
  set_process_id v m = C.set_scalar root 0 32 v m

  abbrev pub set_version : String → C.Message → Result C.Message
  set_version v m = C.set_text root 0 v m

  abbrev pub set_tag : String → C.Message → Result C.Message
  set_tag v m = C.set_text root 1 v m

  abbrev pub set_commit : String → C.Message → Result C.Message
  set_commit v m = C.set_text root 2 v m

  abbrev pub set_build_date : String → C.Message → Result C.Message
  set_build_date v m = C.set_text root 3 v m

  abbrev pub set_target : String → C.Message → Result C.Message
  set_target v m = C.set_text root 4 v m

  abbrev pub set_rust_version : String → C.Message → Result C.Message
  set_rust_version v m = C.set_text root 5 v m

  abbrev pub set_cargo_version : String → C.Message → Result C.Message
  set_cargo_version v m = C.set_text root 6 v m

  abbrev pub set_cargo_tree : String → C.Message → Result C.Message
  set_cargo_tree v m = C.set_text root 7 v m
