-- ===== src/Config/Acceptance.antt =====
-- When `toArgs` succeeds (pkg/client/client.go).
use conmon_rs.Config.Levels.{OneOf, validate_string_slice-OneOf}
use conmon_rs.Base.{ℕ, String, List, [], ◌∷◌, eq_iff, ◌≡◌, refl, ◌≢◌, ◌⊎◌, ◌↔◌, true, arith}
use conmon_rs.Base.Results.{Result, ok, err, is_ok}
use conmon_rs.Consts.CgroupManager
use conmon_rs.Client.{ConmonClient}
use conmon_rs.Config.{
  ConmonServerConfig, entrypoint_of, required_args, log_level_args, log_driver_args,
  cgroup_manager_args, add_tracing, to_args_of, validate_log_level, validate_log_driver,
}

abbrev pub KnownManager : ℕ → Type 0
KnownManager m =
    (m ≡ CgroupManager.systemd) ⊎ ((m ≡ CgroupManager.cgroupfs) ⊎ (m ≡ CgroupManager.per_command))

abbrev pub known_levels : List String
known_levels = "trace" ∷ "debug" ∷ "info" ∷ "warn" ∷ "error" ∷ "off" ∷ []

abbrev pub known_drivers : List String
known_drivers = "stdout" ∷ "systemd" ∷ []

-- The conditions under which `toArgs` succeeds. `look_path` is what the search of the binary in
-- `PATH` gives.
pub record IsAcceptable (look_path : Result String) (cfg : ConmonServerConfig) : Type 0 where
  pub entry : (cfg.conmon_server_path ≢ "") ⊎ (is_ok look_path ≡ true)
  pub has_runtime : cfg.runtime ≢ ""
  pub has_run_dir : cfg.server_run_dir ≢ ""
  pub level : (cfg.log_level ≡ "") ⊎ OneOf cfg.log_level known_levels
  pub driver : (cfg.log_driver ≡ "") ⊎ OneOf cfg.log_driver known_drivers
  pub manager : KnownManager cfg.cgroup_manager

ok_tt_iff : (r : Result (Unit {0})) → (is_ok r ≡ true) ↔ (r ≡ ok tt)
ok_tt_iff (ok tt) = (λ h. refl, λ h. refl)
ok_tt_iff (err e) = ground arith

module _ (cfg : ConmonServerConfig) where
  entry_iff :
      (look_path : Result String)
      → (is_ok (entrypoint_of look_path cfg) ≡ true)
        ↔ ((cfg.conmon_server_path ≢ "") ⊎ (is_ok look_path ≡ true))
  unfolding entrypoint_of
  entry_iff look_path = ground (arith, eq_iff cfg.conmon_server_path "")

  required_iff :
      (is_ok (required_args cfg) ≡ true) ↔ ((cfg.runtime ≢ "") × (cfg.server_run_dir ≢ ""))
  unfolding required_args
  required_iff = ground (arith, eq_iff cfg.runtime "", eq_iff cfg.server_run_dir "")

  level_iff :
      (is_ok (log_level_args cfg) ≡ true)
      ↔ ((cfg.log_level ≡ "") ⊎ OneOf cfg.log_level known_levels)
  unfolding log_level_args validate_log_level
  level_iff =
      let valid = (validate_string_slice-OneOf "log level" cfg.log_level known_levels).0 in
      ground (arith, eq_iff cfg.log_level "", ok_tt_iff (validate_log_level cfg.log_level), valid)

  driver_iff :
      (is_ok (log_driver_args cfg) ≡ true)
      ↔ ((cfg.log_driver ≡ "") ⊎ OneOf cfg.log_driver known_drivers)
  unfolding log_driver_args validate_log_driver
  driver_iff =
      let valid = (validate_string_slice-OneOf "log driver" cfg.log_driver known_drivers).0 in
      ground
        (arith, eq_iff cfg.log_driver "", ok_tt_iff (validate_log_driver cfg.log_driver), valid)

manager_iff : (m : ℕ) → (is_ok (cgroup_manager_args m) ≡ true) ↔ KnownManager m
unfolding cgroup_manager_args
manager_iff m = ground arith

-- `toArgs` succeeds exactly if the path of the binary is given or the search finds one, the runtime
-- and the run directory are given, the level is empty or one of trace, debug, info, warn, error and
-- off, the driver is empty, stdout or systemd, and the cgroup manager is one of the three.
pub to_args_ok_iff :
    {V : Type 0} (look_path : Result String) (cfg : ConmonServerConfig) (c : ConmonClient V)
    → (is_ok (to_args_of look_path cfg c).0 ≡ true) ↔ IsAcceptable look_path cfg
unfolding to_args_of add_tracing
to_args_ok_iff look_path cfg c = (
  λ h. ground (
    arith,
    entry_iff cfg look_path,
    required_iff cfg,
    level_iff cfg,
    driver_iff cfg,
    manager_iff cfg.cgroup_manager,
  ),
  λ h. ground (
    arith,
    entry_iff cfg look_path,
    required_iff cfg,
    level_iff cfg,
    driver_iff cfg,
    manager_iff cfg.cgroup_manager,
  ),
)
