-- ===== src/Server/Waiting.antt =====
-- The two polling loops of the client (pkg/client/client.go: `Shutdown`, `waitUntilServerUp`).
use conmon_rs.Base.{
  ℕ, zero, suc, ◌<◌, ◌≡◌, refl, sym, ap, ◌∙◌, Bool-cases, Bool, true, ◌↔◌, ◌⊎◌, inl, inr, arith,
}
use conmon_rs.Base.Results.{Error, Result, ok, err, timeout_wait_for_pid, Result-cases}
use mathlib.Core.List.{foldl}
use conmon_rs.Wire.{Capnp}
use conmon_rs.Client.{ConmonClient}
use conmon_rs.Attach.Readers.{shutdown_readers}
use conmon_rs.Requests.Metadata.{Injected}
use conmon_rs.Rpc.{Host, Process}
use conmon_rs.Rpc.Methods.{VersionResponse, call_version}
use conmon_rs.Server.{
  System, gone, sigint, shutdown, wait_for_exit, after_sigint, quiet, wait_loop,
  wait_until_server_up,
}

module _ (C : Capnp) (H : Host C) (S : System H.World) where
  -- The world at the k-th poll of a process, when no poll before it found the process gone.
  unfoldable pub world_at_poll : ℕ → ℕ → H.World → H.World
  world_at_poll pid zero w = w
  world_at_poll pid (suc k) w = world_at_poll pid k (S.sleep 100 (S.kill pid 0 w).1)

  unfoldable pub gone_at : ℕ → ℕ → H.World → Bool
  gone_at pid k w = gone (S.kill pid 0 (world_at_poll pid k w)).0

  wait_for_exit_sound :
      (n pid : ℕ) (w : H.World)
      → (wait_for_exit C H S n pid w).0 ≡ ok tt
      → (k : ℕ) × (k < n) × (gone_at pid k w ≡ true)
  unfolding wait_for_exit gone_at world_at_poll
  wait_for_exit_sound zero pid w h = cc
  wait_for_exit_sound (suc n) pid w h = elim (Bool-cases (gone (S.kill pid 0 w).0)) [
    | inl over ↦ (0, ground arith, over)
    | inr running ↦
        let (k, small, found) =
          wait_for_exit_sound n pid (S.sleep 100 (S.kill pid 0 w).1) (ground arith) in
        (suc k, ground arith, found)
  ]

  wait_for_exit_complete :
      (n pid k : ℕ) (w : H.World)
      → k < n
      → gone_at pid k w ≡ true
      → (wait_for_exit C H S n pid w).0 ≡ ok tt
  unfolding wait_for_exit gone_at world_at_poll
  wait_for_exit_complete zero pid k w small found = ground arith
  wait_for_exit_complete (suc n) pid zero w small found = ground arith
  wait_for_exit_complete (suc n) pid (suc k) w small found =
      let rest = wait_for_exit_complete n pid k (S.sleep 100 (S.kill pid 0 w).1) in ground arith

  wait_for_exit_timeout :
      (n pid : ℕ) (w : H.World)
      → ((wait_for_exit C H S n pid w).0 ≡ ok tt)
        ⊎ ((wait_for_exit C H S n pid w).0 ≡ err timeout_wait_for_pid)
  unfolding wait_for_exit
  wait_for_exit_timeout zero pid w = inr refl
  wait_for_exit_timeout (suc n) pid w =
      let rest = wait_for_exit_timeout n pid (S.sleep 100 (S.kill pid 0 w).1) in ground arith

  after_sigint_ok_iff :
      (pid : ℕ) (r : Result (Unit {0})) (w : H.World)
      → ((after_sigint C H S pid r w).0 ≡ ok tt)
        ↔ ((gone r ≡ true) ⊎ ((r ≡ ok tt) × ((k : ℕ) × (k < 100) × (gone_at pid k w ≡ true))))
  unfolding after_sigint
  after_sigint_ok_iff pid (ok _) w = (
    λ h. inr (refl, wait_for_exit_sound 100 pid w h),
    elim [
      | inl h ↦ cc
      | inr (h, (k, small, found)) ↦ wait_for_exit_complete 100 pid k w small found
    ],
  )
  after_sigint_ok_iff pid (err e) w = ground arith

  -- The state after the attach sessions are closed, in which the server is sent its signal.
  abbrev pub closed_sessions : ConmonClient H.SemVer → H.World → H.World
  closed_sessions c w = foldl (λ v e. S.perform e v) w (shutdown_readers c.attach_readers)

  abbrev pub after_signal : ConmonClient H.SemVer → H.World → Result (Unit {0}) × H.World
  after_signal c w = S.kill c.server_pid sigint (closed_sessions c w)

  -- `Shutdown` succeeds exactly when the process is gone at the signal, or the signal is sent and
  -- one of the 100 polls that follow finds the process gone.
  pub shutdown_ok_iff :
      (c : ConmonClient H.SemVer) (w : H.World)
      → ((shutdown C H S c w).0 ≡ ok tt) ↔ (
          (gone (after_signal c w).0 ≡ true)
          ⊎ (((after_signal c w).0 ≡ ok tt)
              × ((k : ℕ) × (k < 100) × (gone_at c.server_pid k (after_signal c w).1 ≡ true))))
  unfolding shutdown
  shutdown_ok_iff c w = after_sigint_ok_iff c.server_pid (after_signal c w).0 (after_signal c w).1

module _ (C : Capnp) (H : Host C) (S : System H.World) (injected : Injected) where
  -- The process at the k-th attempt to read the server's version, and what the attempt returns.
  unfoldable pub at_attempt : ℕ → Process C H → Process C H
  at_attempt zero p = p
  at_attempt (suc k) p =
      let q = (call_version C H injected (quiet C H S injected) p).1 in
      at_attempt k (record q { world = S.sleep 1 q.world })

  unfoldable pub attempt : ℕ → Process C H → Result VersionResponse
  attempt k p = (call_version C H injected (quiet C H S injected) (at_attempt k p)).0

  wait_loop_up :
      (n : ℕ) (last : Result (Unit {0})) (p : Process C H) {v : VersionResponse}
      → (call_version C H injected (quiet C H S injected) p).0 ≡ ok v
      → (wait_loop C H S injected (suc n) last p).0 ≡ ok tt
  unfolding wait_loop
  wait_loop_up n last p up = ground arith

  wait_loop_step :
      (n : ℕ) (last : Result (Unit {0})) (p : Process C H) (f : Error)
      → (call_version C H injected (quiet C H S injected) p).0 ≡ err f
      → wait_loop C H S injected (suc n) last p
        ≡ wait_loop C H S injected n (err f) (
            let q = (call_version C H injected (quiet C H S injected) p).1 in
            record q { world = S.sleep 1 q.world })
  unfolding wait_loop
  wait_loop_step n last p f down = rw (wait_loop, down)

  wait_loop_first :
      (n : ℕ) (last last' : Result (Unit {0})) (p : Process C H)
      → wait_loop C H S injected (suc n) last p ≡ wait_loop C H S injected (suc n) last' p
  unfolding wait_loop
  wait_loop_first n last last' p = refl

  wait_loop_sound :
      (n : ℕ) (e : Error) (p : Process C H)
      → (wait_loop C H S injected n (err e) p).0 ≡ ok tt
      → (k : ℕ) × (k < n) × (v : VersionResponse) × (attempt k p ≡ ok v)
  unfolding wait_loop attempt at_attempt
  wait_loop_sound zero e p h = cc
  wait_loop_sound (suc n) e p h =
      let q = (call_version C H injected (quiet C H S injected) p).1 in
      elim (Result-cases (call_version C H injected (quiet C H S injected) p).0) [
        | inl (v, up) ↦ (0, ground arith, v, up)
        | inr (f, down) ↦
            let (k, small, v, up) =
              wait_loop_sound n f (record q { world = S.sleep 1 q.world })
                (sym (ap (λ z. z.0) (wait_loop_step n (err e) p f down)) ∙ h) in
            (suc k, ground arith, v, up)
      ]

  wait_loop_complete :
      (n : ℕ) (last : Result (Unit {0})) (p : Process C H) (k : ℕ) {v : VersionResponse}
      → k < n
      → attempt k p ≡ ok v
      → (wait_loop C H S injected n last p).0 ≡ ok tt
  unfolding attempt at_attempt
  wait_loop_complete zero last p k small up = ground arith
  wait_loop_complete (suc n) last p zero small up = wait_loop_up n last p up
  wait_loop_complete (suc n) last p (suc k) small up =
      let q = (call_version C H injected (quiet C H S injected) p).1 in
      elim (Result-cases (call_version C H injected (quiet C H S injected) p).0) [
        | inl (v, now) ↦ wait_loop_up n last p now
        | inr (f, down) ↦
            (ap (λ z. z.0) (wait_loop_step n last p f down))
            ∙ wait_loop_complete n (err f) (record q { world = S.sleep 1 q.world }) k (ground arith)
                up
      ]

  -- Waiting for a new server succeeds exactly when one of the first 100 attempts to read its
  -- version does.
  pub wait_until_server_up_ok_iff :
      (p : Process C H)
      → ((wait_until_server_up C H S injected p).0 ≡ ok tt)
        ↔ ((k : ℕ) × (k < 100) × (v : VersionResponse) × (attempt k p ≡ ok v))
  unfolding wait_until_server_up
  wait_until_server_up_ok_iff p = (
    λ h.
        wait_loop_sound 100 timeout_wait_for_pid p
          (sym (ap (λ z. z.0) (wait_loop_first 99 (ok tt) (err timeout_wait_for_pid) p)) ∙ h),
    λ (k, small, v, up). wait_loop_complete 100 (ok tt) p k small up,
  )
