-- ===== src/Server/Budget.antt =====
-- What `New` and `Shutdown` spend (pkg/client/client.go): commands that are run and time that is
-- slept, under one measure on the world.
pub mod Calls
pub mod New
use native.Mathlib.Nat.{suc-mul}
use conmon_rs.Base.{
  ℕ, zero, suc, ◌+◌, ◌*◌, ◌≤◌, ◌≡◌, refl, ap, sym, ◌∙◌, ◌⊎◌, inl, inr, Bool-cases, arith, String,
  List, [], ◌∷◌,
}
use conmon_rs.Base.Results.{Error, Result, ok, err, Result-cases}
use mathlib.Core.List.{foldl}
use conmon_rs.Wire.{Capnp}
use conmon_rs.Client.{ConmonClient}
use conmon_rs.Config.{ConmonServerConfig}
use conmon_rs.Attach.Readers.{Effect, shutdown_readers}
use conmon_rs.Rpc.{Host, Process}
use conmon_rs.Server.{Command, System, gone, wait_for_exit, after_sigint, shutdown, sigint}

module _ (C : Capnp) (H : Host C) (S : System H.World) (spent : H.World → ℕ)
    (command per_ms : ℕ) where
  -- A command costs at most `command`, a millisecond of sleep at most `per_ms`, and the rest of
  -- the operating system nothing.
  pub record Prices : Type 0 where
    pub makes :
        (path : String) (mode : ℕ) (w : H.World) → spent (S.mkdir_all path mode w).1 ≡ spent w
    pub reads : (path : String) (w : H.World) → spent (S.read_file path w).1 ≡ spent w
    pub removes : (path : String) (w : H.World) → spent (S.remove path w).1 ≡ spent w
    pub kills : (pid signal : ℕ) (w : H.World) → spent (S.kill pid signal w).1 ≡ spent w
    pub performs : (effect : Effect) (w : H.World) → spent (S.perform effect w) ≡ spent w
    pub runs : (c : Command) (w : H.World) → spent (S.run_command c w).1 ≤ spent w + command
    pub sleeps : (ms : ℕ) (w : H.World) → spent (S.sleep ms w) ≤ spent w + ms * per_ms

  module _ (P : Prices) where
    spent-wait_for_exit :
        (n pid : ℕ) (w : H.World)
        → spent (wait_for_exit C H S n pid w).1 ≤ spent w + n * (100 * per_ms)
    unfolding wait_for_exit
    spent-wait_for_exit zero pid w = omega arith
    spent-wait_for_exit (suc n) pid w =
        let w' = (S.kill pid 0 w).1 in
        let rest = spent-wait_for_exit n pid (S.sleep 100 w') in
        let slept = P.sleeps 100 w' in
        let killed = P.kills pid 0 w in
        elim (Bool-cases (gone (S.kill pid 0 w).0)) [
          | inl over ↦ rw over (omega arith)
          | inr running ↦ rw running (omega (arith, suc-mul n (100 * per_ms)))
        ]

    spent-perform :
        (es : List Effect) (w : H.World) → spent (foldl (λ v e. S.perform e v) w es) ≡ spent w
    spent-perform [] w = refl
    spent-perform (e ∷ es) w = spent-perform es (S.perform e w) ∙ P.performs e w

    spent-after_sigint :
        (pid : ℕ) (r : Result (Unit {0})) (w : H.World)
        → spent (after_sigint C H S pid r w).1 ≤ spent w + 10000 * per_ms
    unfolding after_sigint
    spent-after_sigint pid (ok _) w = omega (arith, spent-wait_for_exit 100 pid w)
    spent-after_sigint pid (err e) w = ground arith

    -- `Shutdown` sleeps for at most ten seconds, and runs no command.
    pub spent-shutdown :
        (c : ConmonClient H.SemVer) (w : H.World)
        → spent (shutdown C H S c w).1 ≤ spent w + 10000 * per_ms
    unfolding shutdown
    spent-shutdown c w =
        let closed = foldl (λ v e. S.perform e v) w (shutdown_readers c.attach_readers) in
        let (r, w') = S.kill c.server_pid sigint closed in
        omega (
          arith,
          spent-after_sigint c.server_pid r w',
          P.kills c.server_pid sigint closed,
          spent-perform (shutdown_readers c.attach_readers) w,
        )
