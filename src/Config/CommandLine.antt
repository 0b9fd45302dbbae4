-- ===== src/Config/CommandLine.antt =====
-- The command line of the server (pkg/client/client.go, `toArgs`) against a reader of it, after the
-- flags of conmon-rs/server/src/config.rs.
use conmon_rs.Base.{
  String, ◌≡◌, refl, true, false, ◌||◌, Option, none, some, List, [], ◌++◌, ◌∙◌, arith,
}
use conmon_rs.Base.Results.{Result, ok, err, continue-eq-ok, continue, pure}
use mathlib.Core.List.{append_assoc, append-nil}
use conmon_rs.Client.{ConmonClient}
use conmon_rs.Config.{
  ConmonServerConfig, Tracing, entrypoint_of, required_args, runtime_root_args, log_level_args,
  log_driver_args, cgroup_manager_args, tracing_args, add_tracing, to_args_of,
}
use conmon_rs.Config.Reader.{
  Options, read_args, no_options, given, manager_name, tracing_on, options_of,
}

abbrev overlay : Option String → Option String → Option String
overlay none old = old
overlay (some v) old = some v

overlay-none : (v : Option String) → overlay v none ≡ v
overlay-none none = refl
overlay-none (some v) = refl

last_step :
    {S : Type 0} (ep : String) {entrypoint : String} {args : List String} {s' : S}
    (r : Result (List String) × S)
    → continue {B = String × List String} r.0 (λ args'. pure (ep, args')) r.1
      ≡ (ok (entrypoint, args), s')
    → (r ≡ (ok args, s')) × (ep ≡ entrypoint)
last_step ep (ok a, s) h = ground arith
last_step ep (err e, s) h = cc

-- How the reader goes over each part of the arguments.
module _ (cfg : ConmonServerConfig) (rest : List String) (o : Options) where
  read_args-required :
      (args : List String)
      → required_args cfg ≡ ok args
      → read_args (args ++ rest) none o
        ≡ read_args rest none
            (record o { runtime = some cfg.runtime; runtime_dir = some cfg.server_run_dir })
  unfolding required_args read_args
  read_args-required args h = ground arith

  read_args-runtime_root :
      read_args (runtime_root_args cfg ++ rest) none o
      ≡ read_args rest none
          (record o { runtime_root = overlay (given cfg.runtime_root) o.runtime_root })
  unfolding runtime_root_args read_args
  read_args-runtime_root = ground arith

  read_args-log_level :
      (args : List String)
      → log_level_args cfg ≡ ok args
      → read_args (args ++ rest) none o
        ≡ read_args rest none (record o { log_level = overlay (given cfg.log_level) o.log_level })
  unfolding log_level_args read_args
  read_args-log_level args h = ground arith

  read_args-log_driver :
      (args : List String)
      → log_driver_args cfg ≡ ok args
      → read_args (args ++ rest) none o
        ≡ read_args rest none
            (record o { log_driver = overlay (given cfg.log_driver) o.log_driver })
  unfolding log_driver_args read_args
  read_args-log_driver args h = ground arith

  read_args-cgroup_manager :
      (args : List String)
      → cgroup_manager_args cfg.cgroup_manager ≡ ok args
      → read_args (args ++ rest) none o
        ≡ read_args rest none (record o {
          cgroup_manager = overlay (manager_name cfg.cgroup_manager) o.cgroup_manager;
        })
  unfolding cgroup_manager_args read_args
  read_args-cgroup_manager args h = ground arith

read_args-tracing :
    (t : Tracing) (o : Options)
    → read_args (tracing_args t) none o
      ≡ some (record o {
        enable_tracing = true;
        tracing_endpoint = overlay (given t.endpoint) o.tracing_endpoint;
      })
unfolding tracing_args read_args
read_args-tracing t o = ground arith

-- What `toArgs` has put together before it looks at the tracing.
unfoldable base_args :
    ConmonServerConfig → List String → List String → List String → List String → List String
base_args cfg required level driver manager =
    required ++ (runtime_root_args cfg ++ (level ++ (driver ++ manager)))

read_args-nil : (o : Options) → read_args [] none o ≡ some o
unfolding read_args
read_args-nil o = refl

base_options : ConmonServerConfig → Options
base_options cfg = record (options_of cfg) { enable_tracing = false; tracing_endpoint = none }

read_args-base :
    (cfg : ConmonServerConfig) (required level driver manager rest : List String)
    → required_args cfg ≡ ok required
    → log_level_args cfg ≡ ok level
    → log_driver_args cfg ≡ ok driver
    → cgroup_manager_args cfg.cgroup_manager ≡ ok manager
    → read_args
        (required ++ (runtime_root_args cfg ++ (level ++ (driver ++ manager))) ++ rest)
        none
        no_options
      ≡ read_args rest none (base_options cfg)
unfolding base_options
read_args-base cfg required level driver manager rest hr hl hd hm = simp (append_assoc) (
    read_args-required cfg _ no_options required hr
    ∙ read_args-runtime_root cfg _ _
    ∙ read_args-log_level cfg _ _ level hl
    ∙ read_args-log_driver cfg _ _ driver hd
    ∙ read_args-cgroup_manager cfg rest _ manager hm
    ∙ rw (
      overlay-none (given cfg.runtime_root),
      overlay-none (given cfg.log_level),
      overlay-none (given cfg.log_driver),
      overlay-none (manager_name cfg.cgroup_manager),
    ))

base_only :
    (cfg : ConmonServerConfig) (required level driver manager : List String)
    → required_args cfg ≡ ok required
    → log_level_args cfg ≡ ok level
    → log_driver_args cfg ≡ ok driver
    → cgroup_manager_args cfg.cgroup_manager ≡ ok manager
    → read_args
        (required ++ (runtime_root_args cfg ++ (level ++ (driver ++ manager))))
        none
        no_options
      ≡ some (base_options cfg)
base_only cfg required level driver manager hr hl hd hm =
    rw append-nil at (read_args-base cfg required level driver manager [] hr hl hd hm)
    ∙ read_args-nil (base_options cfg)

module _ {V : Type 0} (look_path : Result String) (cfg : ConmonServerConfig) where
  -- The values that a successful run has gone through.
  pub record Parts (c c' : ConmonClient V) (entrypoint : String) (args : List String) : Type 0 where
    pub required : List String
    pub level : List String
    pub driver : List String
    pub manager : List String
    pub entry : entrypoint_of look_path cfg ≡ ok entrypoint
    pub required_eq : required_args cfg ≡ ok required
    pub level_eq : log_level_args cfg ≡ ok level
    pub driver_eq : log_driver_args cfg ≡ ok driver
    pub manager_eq : cgroup_manager_args cfg.cgroup_manager ≡ ok manager
    pub last :
        add_tracing cfg.tracing
          (required ++ (runtime_root_args cfg ++ (level ++ (driver ++ manager))))
          c
        ≡ (ok args, c')

  pub to_args-Parts :
      (c c' : ConmonClient V) (entrypoint : String) (args : List String)
      → to_args_of look_path cfg c ≡ (ok (entrypoint, args), c')
      → Parts c c' entrypoint args
  unfolding to_args_of
  to_args-Parts c c' entrypoint args h =
      let (ep, e0, h0) = continue-eq-ok (entrypoint_of look_path cfg) _ c h in
      let (required, e1, h1) = continue-eq-ok (required_args cfg) _ c h0 in
      let (level, e2, h2) = continue-eq-ok (log_level_args cfg) _ c h1 in
      let (driver, e3, h3) = continue-eq-ok (log_driver_args cfg) _ c h2 in
      let (manager, e4, h4) = continue-eq-ok (cgroup_manager_args cfg.cgroup_manager) _ c h3 in
      let (done, same) = last_step ep (add_tracing cfg.tracing _ c) h4 in
      record {
        required = required;
        level = level;
        driver = driver;
        manager = manager;
        entry = rw (← same) e0;
        required_eq = e1;
        level_eq = e2;
        driver_eq = e3;
        manager_eq = e4;
        last = done;
      }

  with_tracing :
      (c c' : ConmonClient V) (entrypoint : String) (args : List String)
      → Parts c c' entrypoint args
      → (t : Option Tracing) → cfg.tracing ≡ t
      → (read_args args none no_options ≡ some (options_of cfg))
        × (c' ≡ record c { tracing_enabled = c.tracing_enabled || tracing_on cfg.tracing })
  unfolding add_tracing base_options
  with_tracing c c' entrypoint args p none e = ground (
    arith,
    base_only cfg p.required p.level p.driver p.manager p.required_eq p.level_eq p.driver_eq
        p.manager_eq,
  )
  with_tracing c c' entrypoint args p (some t) e = ground (
    arith,
    base_only cfg p.required p.level p.driver p.manager p.required_eq p.level_eq p.driver_eq
        p.manager_eq,
    read_args-base cfg p.required p.level p.driver p.manager (tracing_args t) p.required_eq
        p.level_eq p.driver_eq p.manager_eq,
    read_args-tracing t (base_options cfg),
    overlay-none (given t.endpoint),
  )

  -- If `toArgs` succeeds, then a reader of the arguments finds every setting of the configuration
  -- under its flag and nothing else; an empty setting is not passed on. The client remembers that
  -- tracing is on, and nothing else of it changes.
  pub read_args-to_args :
      (c c' : ConmonClient V) (entrypoint : String) (args : List String)
      → to_args_of look_path cfg c ≡ (ok (entrypoint, args), c')
      → (read_args args none no_options ≡ some (options_of cfg))
        × (c' ≡ record c { tracing_enabled = c.tracing_enabled || tracing_on cfg.tracing })
  read_args-to_args c c' entrypoint args h =
      let p = to_args-Parts c c' entrypoint args h in
      with_tracing c c' entrypoint args p cfg.tracing refl
