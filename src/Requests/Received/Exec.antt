-- ===== src/Requests/Received/Exec.antt =====
-- The request of `ExecSyncContainer` as its reader finds it (pkg/client/client.go).
use conmon_rs.Base.{ℕ, ◌<◌, ◌^◌, ◌≡◌, refl, sym, ap, ◌∙◌, Bool, false, ◌==◌, arith}
use conmon_rs.Base.Results.{ok, wrapped}
use conmon_rs.Base.Chain.{>>=-eq-ok}
use conmon_rs.Proto.ExecSyncContainerRequest
use conmon_rs.Wire.{Capnp, root, absent, stored_text, update, bit, IsLawful, IsReadable}
use conmon_rs.Wire.Lists.{string_slice_to_text_list, string_string_map_to_map_entry_list}
use conmon_rs.Wire.Frame.{
  content_self, wrapped-eq-ok, FitsInt32, ReadsEntries, text_slot, struct_slot, string_slice_lem,
  map_lem,
}
use conmon_rs.Wire.Elements.{ReadsEntries-Keeps}
use conmon_rs.Requests.Config.{ExecSyncConfig}
use conmon_rs.Requests.Metadata.{Injected, set_metadata}
use conmon_rs.Requests.Metadata.Effect.{
  update_lem, given_texts, given_structs, text_slot_lem, struct_slot_lem, set_metadata_frame,
}
use conmon_rs.Requests.Fill.{chosen_cgroup_manager, fill_exec_sync}
use conmon_rs.Requests.Container.Elements.{scalar-Keeps}
use conmon_rs.Requests.Received.Reading.{bit-lt, flag_lem, text_lem, list_lem}

ruleset slot_reads = (text_slot_lem, struct_slot_lem, update_lem)

-- What the accessors of the request return. An empty list is a null pointer.
pub record ReceivesExec (C : Capnp) (global : ℕ) (cfg : ExecSyncConfig) (m : C.Message)
    : Type 0 where
  pub id : ExecSyncContainerRequest.id C m ≡ ok cfg.id
  pub command : ExecSyncContainerRequest.command C m ≡ ok (given_texts cfg.command absent)
  pub env_vars : ExecSyncContainerRequest.env_vars C m ≡ ok (given_structs cfg.env_vars absent)
  pub each_entry : ReadsEntries C ExecSyncContainerRequest.new_env_vars 0 cfg.env_vars m
  pub timeout : ExecSyncContainerRequest.timeout_sec C m ≡ cfg.timeout
  pub terminal : ExecSyncContainerRequest.terminal C m ≡ cfg.terminal
  pub cgroup_manager :
      ExecSyncContainerRequest.cgroup_manager C m ≡ chosen_cgroup_manager global cfg.cgroup_manager

-- The numbers fit their fields, and the lists have fewer than 2 ^ 31 elements.
pub record FitsExec (global : ℕ) (cfg : ExecSyncConfig) : Type 0 where
  pub command : FitsInt32 cfg.command
  pub env_vars : FitsInt32 cfg.env_vars
  pub timeout : cfg.timeout < 2 ^ 64
  pub manager : chosen_cgroup_manager global cfg.cgroup_manager < 2 ^ 16

module _ (C : Capnp) (L : IsLawful C) (tracing : Bool) (global : ℕ) (injected : Injected)
    (cfg : ExecSyncConfig) (req m : C.Message) (R : IsReadable C m) where
  -- Over a lawful library: if the closure of `ExecSyncContainer` succeeds on a new request, then the
  -- accessors of the request return every field of the configuration, and the cgroup manager that
  -- was chosen.
  pub fill_exec_sync-ReceivesExec :
      FitsExec global cfg
      → FitsInt32 injected.entries
      → ((k : ℕ) → C.content req root k ≡ absent)
      → fill_exec_sync C tracing global injected cfg req ≡ ok m
      → ReceivesExec C global cfg m
  unfolding fill_exec_sync
  fill_exec_sync-ReceivesExec fit fit' fresh h =
      let manager = chosen_cgroup_manager global cfg.cgroup_manager in
      let (m1, e1, h1) = >>=-eq-ok (set_metadata C tracing _ injected req) _ h in
      let (m2, e2, h2) = >>=-eq-ok (wrapped "set ID" (C.set_text root 0 cfg.id m1)) _ h1 in
      let m3 = C.set_scalar root 0 64 cfg.timeout m2 in
      let (m4, e4, h4) = >>=-eq-ok (string_slice_to_text_list C 1 cfg.command m3) _ h2 in
      let m5 = C.set_scalar root 64 1 (bit cfg.terminal) m4 in
      let (m6, e6, h6) = >>=-eq-ok (string_string_map_to_map_entry_list C 4 cfg.env_vars m5) _ h4 in
      let m7 = C.set_scalar root 80 16 manager m6 in
      let last : m7 ≡ m = cc h6 in
      let w = L.set_text_lem root 0 cfg.id m1 m2 (wrapped-eq-ok "set ID" _ e2) in
      let (c4, s4) = string_slice_lem C L 1 cfg.command m3 m4 fit.command e4 in
      let (entries, c6, s6) = map_lem C L 4 cfg.env_vars m5 m6 fit.env_vars e6 in
      let all : C.content m root
          ≡ struct_slot 4 cfg.env_vars
              (text_slot 1 cfg.command (update 0 (stored_text cfg.id) (C.content m1 root))) =
        rw (← last) (
          rw (
            L.content-set_scalar root 80 16 manager m6,
            c6,
            L.content-set_scalar root 64 1 (bit cfg.terminal) m4,
            c4,
            L.content-set_scalar root 0 64 cfg.timeout m2,
            content_self C w,
          )) in
      let frame : (j : ℕ) → (3 == j) ≡ false → (2 == j) ≡ false → C.content m1 root j ≡ absent =
        λ j p q. (set_metadata_frame C L tracing _ injected req m1 j fit' e1 p q).0 ∙ fresh j in
      let late : (o n : ℕ) → C.scalar m5 root o n ≡ C.scalar m6 root o n =
        λ o n. ap (λ (f : ℕ → ℕ → ℕ). f o n) (sym s6) in
      let early : (o n : ℕ) → C.scalar m4 root o n ≡ C.scalar m3 root o n =
        λ o n. ap (λ (f : ℕ → ℕ → ℕ). f o n) s4 in
      record {
        id = text_lem C R root 0 (rw all (simp slot_reads));
        command = list_lem C R root 1 (rw all (simp slot_reads (rw (frame 1 refl refl))));
        env_vars = list_lem C R root 4 (rw all (simp slot_reads (rw (frame 4 refl refl))));
        each_entry = rw (← last) (
            ReadsEntries-Keeps C L 4 0 cfg.env_vars m6 m7 (scalar-Keeps C L 4 80 16 manager m6)
              entries);
        timeout = rw (← last) (
            L.scalar-set_scalar_ne root root 80 16 0 64 manager m6 (omega arith)
            ∙ sym (late 0 64)
            ∙ L.scalar-set_scalar_ne root root 64 1 0 64 (bit cfg.terminal) m4 (omega arith)
            ∙ early 0 64
            ∙ L.scalar-set_scalar root 0 64 cfg.timeout m2 fit.timeout);
        terminal = flag_lem cfg.terminal (
            rw (← last) (
              L.scalar-set_scalar_ne root root 80 16 64 1 manager m6 (omega arith)
              ∙ sym (late 64 1)
              ∙ L.scalar-set_scalar root 64 1 (bit cfg.terminal) m4 (bit-lt cfg.terminal)));
        cgroup_manager = rw (← last) (L.scalar-set_scalar root 80 16 manager m6 fit.manager);
      }
