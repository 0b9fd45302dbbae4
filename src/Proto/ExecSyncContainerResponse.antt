-- ===== src/Proto/ExecSyncContainerResponse.antt =====
-- The accessors of `Conmon_ExecSyncContainerResponse` that the client and its server use
-- (internal/proto/conmon.capnp.go).
use conmon_rs.Base.{ℕ, Bool, List, ◌==◌}
use conmon_rs.Base.Results.{Result}
use conmon_rs.Wire.{Capnp, root, bit}

module _ (C : Capnp) where
  abbrev pub exit_code : C.Message → ℕ
  exit_code m = C.scalar m root 0 32

  abbrev pub stdout : C.Message → Result (List ℕ)
  stdout m = C.read_data m root 0

  abbrev pub stderr : C.Message → Result (List ℕ)
  stderr m = C.read_data m root 1

  abbrev pub timed_out : C.Message → Bool
  timed_out m = C.scalar m root 32 1 == 1

  abbrev pub set_exit_code : ℕ → C.Message → C.Message
  set_exit_code v m = C.set_scalar root 0 32 v m

  abbrev pub set_stdout : List ℕ → C.Message → Result C.Message
  set_stdout v m = C.set_data root 0 v m

  abbrev pub set_stderr : List ℕ → C.Message → Result C.Message
  set_stderr v m = C.set_data root 1 v m

  abbrev pub set_timed_out : Bool → C.Message → C.Message
  set_timed_out v m = C.set_scalar root 32 1 (bit v) m
