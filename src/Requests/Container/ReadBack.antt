-- ===== src/Requests/Container/ReadBack.antt =====
-- The whole request of `CreateContainer` as the server reads it (pkg/client/client.go).
use conmon_rs.Base.{All, ℕ, ◌<◌, ◌^◌, ◌≡◌, refl, ◌∙◌, Bool, false, ◌==◌, length}
use conmon_rs.Base.Results.{ok}
use conmon_rs.Base.Chain.{>>=-eq-ok}
use conmon_rs.Wire.{bit, Capnp, root, Content, absent, stored_text, structs, IsLawful}
use conmon_rs.Wire.Frame.{FitsInt32, ReadsEntries}
use conmon_rs.Requests.Config.{CreateContainerConfig}
use conmon_rs.Requests.Metadata.{Injected, set_metadata}
use conmon_rs.Requests.Metadata.Effect.{
  update_lem, given_texts, given_words, given_structs, text_slot_lem, word_slot_lem,
  struct_slot_lem, set_metadata_frame,
}
use conmon_rs.Requests.Fill.{chosen_cgroup_manager}
use conmon_rs.Requests.Container.{fill_container_base, fill_container_lists, fill_create_container}
use conmon_rs.Requests.Container.Drivers.{FitsDriver, ReadsDrivers, ReadsDrivers-Keeps}
use conmon_rs.Requests.Container.Elements.{lists-ReadsDrivers, rest-elements}
use conmon_rs.Requests.Container.Fields.{
  FitsConfig, base_slots, list_slots, rest_slots, base_lem, lists_lem, rest_lem,
}

-- What a reader finds at the slots and offsets of the accessors. An empty list is absent, but for
-- the log drivers.
pub record ReadsBack (C : Capnp) (global : ℕ) (cfg : CreateContainerConfig) (m : C.Message)
    : Type 0 where
  pub id : C.content m root 0 ≡ stored_text cfg.id
  pub bundle_path : C.content m root 1 ≡ stored_text cfg.bundle_path
  pub exit_paths : C.content m root 2 ≡ given_texts cfg.exit_paths absent
  pub oom_exit_paths : C.content m root 3 ≡ given_texts cfg.oom_exit_paths absent
  pub log_drivers : C.content m root 4 ≡ structs (length cfg.log_drivers)
  pub each_driver : ReadsDrivers C 0 cfg.log_drivers m
  pub cleanup_cmd : C.content m root 5 ≡ given_texts cfg.cleanup_cmd absent
  pub global_args : C.content m root 6 ≡ given_texts cfg.global_args absent
  pub command_args : C.content m root 7 ≡ given_texts cfg.command_args absent
  pub env_vars : C.content m root 10 ≡ given_structs cfg.env_vars absent
  pub each_entry : ReadsEntries C 10 0 cfg.env_vars m
  pub additional_fds : C.content m root 11 ≡ given_words cfg.additional_fds absent
  pub leak_fds : C.content m root 12 ≡ given_words cfg.leak_fds absent
  pub terminal : C.scalar m root 0 1 ≡ bit cfg.terminal
  pub stdin : C.scalar m root 1 1 ≡ bit cfg.stdin
  pub cgroup_manager : C.scalar m root 16 16 ≡ chosen_cgroup_manager global cfg.cgroup_manager

abbrev all_slots : CreateContainerConfig → (ℕ → Content) → ℕ → Content
all_slots cfg f = rest_slots cfg (list_slots cfg (base_slots cfg f))

ruleset slot_reads = (text_slot_lem, word_slot_lem, struct_slot_lem, update_lem)

module _ (C : Capnp) (L : IsLawful C) (tracing : Bool) (global : ℕ) (injected : Injected)
    (cfg : CreateContainerConfig) (req m : C.Message) where
  -- Over a lawful library, with lists of fewer than 2 ^ 31 elements, sizes of 64 bits and a cgroup
  -- manager of 16: if the closure of `CreateContainer` succeeds on a new request, then the request
  -- carries each field of the configuration at its place: texts, flags, the lists of texts and of
  -- descriptors in their order, path, size and type of each log driver, key and value of each
  -- environment entry, and the cgroup manager that was chosen. The type of a driver is left open
  -- where it is neither of the two. This holds with and without tracing.
  pub fill_create_container-ReadsBack :
      FitsConfig cfg
      → All FitsDriver cfg.log_drivers
      → FitsInt32 injected.entries
      → chosen_cgroup_manager global cfg.cgroup_manager < 2 ^ 16
      → ((k : ℕ) → C.content req root k ≡ absent)
      → fill_create_container C tracing global injected cfg req ≡ ok m
      → ReadsBack C global cfg m
  unfolding fill_create_container
  fill_create_container-ReadsBack fit sizes fit' small fresh h =
      let (m1, e1, h1) = >>=-eq-ok (set_metadata C tracing _ injected req) _ h in
      let (m2, e2, h2) = >>=-eq-ok (fill_container_base C cfg m1) _ h1 in
      let (m3, e3, h3) = >>=-eq-ok (fill_container_lists C cfg m2) _ h2 in
      let (c2, terminal, stdin) = base_lem C L cfg m1 m2 e2 in
      let (c3, s3) = lists_lem C L cfg m2 m3 fit e3 in
      let (c4, manager, terminal', stdin') = rest_lem C L cfg m3 m _ small fit h3 in
      let (kept, entries) = rest-elements C L cfg _ m3 m fit h3 in
      let all : C.content m root ≡ all_slots cfg (C.content m1 root) = rw (c4, c3, c2) in
      let frame : (j : ℕ) → (9 == j) ≡ false → (8 == j) ≡ false → C.content m1 root j ≡ absent =
        λ j p q. (set_metadata_frame C L tracing _ injected req m1 j fit' e1 p q).0 ∙ fresh j in
      record {
        id = rw all (simp slot_reads);
        bundle_path = rw all (simp slot_reads);
        exit_paths = rw all (simp slot_reads (rw (frame 2 refl refl)));
        oom_exit_paths = rw all (simp slot_reads (rw (frame 3 refl refl)));
        log_drivers = rw all (simp slot_reads);
        each_driver =
            ReadsDrivers-Keeps C 0 cfg.log_drivers m3 m kept
              (lists-ReadsDrivers C L cfg m2 m3 fit sizes e3);
        cleanup_cmd = rw all (simp slot_reads (rw (frame 5 refl refl)));
        global_args = rw all (simp slot_reads (rw (frame 6 refl refl)));
        command_args = rw all (simp slot_reads (rw (frame 7 refl refl)));
        env_vars = rw all (simp slot_reads (rw (frame 10 refl refl)));
        each_entry = entries;
        additional_fds = rw all (simp slot_reads (rw (frame 11 refl refl)));
        leak_fds = rw all (simp slot_reads (rw (frame 12 refl refl)));
        terminal = terminal' ∙ rw s3 terminal;
        stdin = stdin' ∙ rw s3 stdin;
        cgroup_manager = manager;
      }
