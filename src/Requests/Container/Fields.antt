-- ===== src/Requests/Container/Fields.antt =====
-- What the server finds in the request of `CreateContainer` (pkg/client/client.go).
use conmon_rs.Base.{
  ℕ, ◌+◌, ◌<◌, ◌^◌, ◌≡◌, refl, ap, ◌∙◌, Bool, true, false, List, [], ◌∷◌, length, arith,
}
use conmon_rs.Base.Results.{ok, wrapped}
use conmon_rs.Base.Chain.{>>=-eq-ok}
use conmon_rs.Wire.{
  bit, Capnp, Place, root, at, Content, stored_text, structs, update, IsLawful, struct_list,
}
use conmon_rs.Wire.Lists.{
  int32, string_slice_to_text_list, string_string_map_to_map_entry_list,
  remote_fd_slice_to_uint64_list,
}
use conmon_rs.Wire.Frame.{
  wrapped-eq-ok, FitsInt32, text_slot, word_slot, struct_slot, map_lem, content_self, content-other,
  string_slice_lem, remote_fd_slice_lem,
}
use conmon_rs.Requests.Config.{ContainerLogDriver, CreateContainerConfig}
use conmon_rs.Requests.Metadata.Effect.{scalar-set_scalar_at}
use conmon_rs.Requests.Container.{
  set_log_driver_type, set_log_drivers, init_log_drivers, fill_container_base, fill_container_lists,
  fill_container_rest,
}

module _ (C : Capnp) (L : IsLawful C) where
  set_log_driver_type_root :
      (i typ : ℕ) (m : C.Message)
      → (C.content (set_log_driver_type C i typ m) ≡ C.content m)
        × (C.scalar (set_log_driver_type C i typ m) root ≡ C.scalar m root)
  unfolding set_log_driver_type
  set_log_driver_type_root i typ m = ground (
    arith,
    L.content-set_scalar (at 4 i) 0 16 0 m,
    L.content-set_scalar (at 4 i) 0 16 1 m,
    scalar-set_scalar_at C L 4 i 0 16 0 m,
    scalar-set_scalar_at C L 4 i 0 16 1 m,
  )

  set_log_drivers_root :
      (i : ℕ) (ds : List ContainerLogDriver) (m m' : C.Message)
      → set_log_drivers C i ds m ≡ ok m'
      → (C.content m' root ≡ C.content m root) × (C.scalar m' root ≡ C.scalar m root)
  unfolding set_log_drivers
  set_log_drivers_root i [] m m' h = ground arith
  set_log_drivers_root i (d ∷ ds) m m' h =
      let m0 = set_log_driver_type C i d.log_driver_type m in
      let (m1, h1, h2) =
        >>=-eq-ok (wrapped "set log driver path" (C.set_text (at 4 i) 0 d.path m0)) _ h in
      let w = L.set_text_lem (at 4 i) 0 d.path m0 m1 (wrapped-eq-ok "set log driver path" _ h1) in
      let m2 = C.set_scalar (at 4 i) 64 64 d.max_size m1 in
      let (c, s) = set_log_drivers_root (i + 1) ds m2 m' h2 in
      let (c0, s0) = set_log_driver_type_root i d.log_driver_type m in
      (
        c
            ∙ ap (λ (f : Place → ℕ → Content). f root)
                (L.content-set_scalar (at 4 i) 64 64 d.max_size m1)
            ∙ content-other C w root refl
            ∙ ap (λ (f : Place → ℕ → Content). f root) c0,
        s ∙ scalar-set_scalar_at C L 4 i 64 64 d.max_size m1 ∙ w.scalar_eq root ∙ s0,
      )

  init_log_drivers_root :
      (ds : List ContainerLogDriver) (m m' : C.Message)
      → FitsInt32 ds
      → init_log_drivers C ds m ≡ ok m'
      → (C.content m' root ≡ update 4 (structs (length ds)) (C.content m root))
        × (C.scalar m' root ≡ C.scalar m root)
  unfolding init_log_drivers
  init_log_drivers_root ds m m' fit h =
      let small : int32 (length ds) ≡ length ds = omega arith in
      let (m1, h1, h2) =
        >>=-eq-ok (wrapped "create log drivers" (C.new_list struct_list 4 (length ds) m)) _
          (rw small at h) in
      let (c, s) =
        L.new_list_root struct_list 4 (length ds) m m1 (wrapped-eq-ok "create log drivers" _ h1) in
      let (c', s') = set_log_drivers_root 0 ds m1 m' h2 in (c' ∙ c, s' ∙ s)

-- Every list of the configuration has fewer than 2 ^ 31 elements.
pub record FitsConfig (cfg : CreateContainerConfig) : Type 0 where
  pub exit_paths : FitsInt32 cfg.exit_paths
  pub oom_exit_paths : FitsInt32 cfg.oom_exit_paths
  pub log_drivers : FitsInt32 cfg.log_drivers
  pub cleanup_cmd : FitsInt32 cfg.cleanup_cmd
  pub global_args : FitsInt32 cfg.global_args
  pub command_args : FitsInt32 cfg.command_args
  pub env_vars : FitsInt32 cfg.env_vars
  pub additional_fds : FitsInt32 cfg.additional_fds
  pub leak_fds : FitsInt32 cfg.leak_fds

-- The pointer slots that each part of the closure writes, over what they held before.
abbrev pub base_slots : CreateContainerConfig → (ℕ → Content) → ℕ → Content
base_slots cfg f = update 1 (stored_text cfg.bundle_path) (update 0 (stored_text cfg.id) f)

abbrev pub list_slots : CreateContainerConfig → (ℕ → Content) → ℕ → Content
list_slots cfg f = text_slot 7 cfg.command_args (
    text_slot 6 cfg.global_args (
      text_slot 5 cfg.cleanup_cmd (
        update 4 (structs (length cfg.log_drivers))
          (text_slot 3 cfg.oom_exit_paths (text_slot 2 cfg.exit_paths f)))))

abbrev pub rest_slots : CreateContainerConfig → (ℕ → Content) → ℕ → Content
rest_slots cfg f =
    word_slot 12 cfg.leak_fds (word_slot 11 cfg.additional_fds (struct_slot 10 cfg.env_vars f))

bit-lt : (b : Bool) → bit b < 2 ^ 1
bit-lt true = omega arith
bit-lt false = omega arith

module _ (C : Capnp) (L : IsLawful C) (cfg : CreateContainerConfig) (req m : C.Message) where
  pub base_lem :
      fill_container_base C cfg req ≡ ok m
      → (C.content m root ≡ base_slots cfg (C.content req root))
        × (C.scalar m root 0 1 ≡ bit cfg.terminal)
        × (C.scalar m root 1 1 ≡ bit cfg.stdin)
  unfolding fill_container_base
  base_lem h =
      let (m1, e1, h1) = >>=-eq-ok (wrapped "set ID" (C.set_text root 0 cfg.id req)) _ h in
      let (m2, e2, h2) =
        >>=-eq-ok (wrapped "set bundle path" (C.set_text root 1 cfg.bundle_path m1)) _ h1 in
      let w1 = L.set_text_lem root 0 cfg.id req m1 (wrapped-eq-ok _ _ e1) in
      let w2 = L.set_text_lem root 1 cfg.bundle_path m1 m2 (wrapped-eq-ok _ _ e2) in
      let m3 = C.set_scalar root 0 1 (bit cfg.terminal) m2 in
      let m4 = C.set_scalar root 1 1 (bit cfg.stdin) m3 in
      ground (
        arith,
        L.content-set_scalar root 1 1 (bit cfg.stdin) m3,
        L.content-set_scalar root 0 1 (bit cfg.terminal) m2,
        content_self C w1,
        content_self C w2,
        L.scalar-set_scalar root 1 1 (bit cfg.stdin) m3 (bit-lt cfg.stdin),
        L.scalar-set_scalar_ne root root 1 1 0 1 (bit cfg.stdin) m3 (omega arith),
        L.scalar-set_scalar root 0 1 (bit cfg.terminal) m2 (bit-lt cfg.terminal),
      )

  pub lists_lem :
      FitsConfig cfg
      → fill_container_lists C cfg req ≡ ok m
      → (C.content m root ≡ list_slots cfg (C.content req root))
        × (C.scalar m root ≡ C.scalar req root)
  unfolding fill_container_lists
  lists_lem fit h =
      let (m1, e1, h1) =
        >>=-eq-ok (wrapped _ (string_slice_to_text_list C 2 cfg.exit_paths req)) _ h in
      let (m2, e2, h2) =
        >>=-eq-ok (wrapped _ (string_slice_to_text_list C 3 cfg.oom_exit_paths m1)) _ h1 in
      let (m3, e3, h3) = >>=-eq-ok (wrapped _ (init_log_drivers C cfg.log_drivers m2)) _ h2 in
      let (m4, e4, h4) =
        >>=-eq-ok (wrapped _ (string_slice_to_text_list C 5 cfg.cleanup_cmd m3)) _ h3 in
      let (m5, e5, h5) =
        >>=-eq-ok (wrapped _ (string_slice_to_text_list C 6 cfg.global_args m4)) _ h4 in
      let (c1, s1) =
        string_slice_lem C L 2 cfg.exit_paths req m1 fit.exit_paths (wrapped-eq-ok _ _ e1) in
      let (c2, s2) =
        string_slice_lem C L 3 cfg.oom_exit_paths m1 m2 fit.oom_exit_paths (wrapped-eq-ok _ _ e2) in
      let (c3, s3) =
        init_log_drivers_root C L cfg.log_drivers m2 m3 fit.log_drivers (wrapped-eq-ok _ _ e3) in
      let (c4, s4) =
        string_slice_lem C L 5 cfg.cleanup_cmd m3 m4 fit.cleanup_cmd (wrapped-eq-ok _ _ e4) in
      let (c5, s5) =
        string_slice_lem C L 6 cfg.global_args m4 m5 fit.global_args (wrapped-eq-ok _ _ e5) in
      let (c6, s6) =
        string_slice_lem C L 7 cfg.command_args m5 m fit.command_args (wrapped-eq-ok _ _ h5) in
      (rw (c6, c5, c4, c3, c2, c1), s6 ∙ s5 ∙ s4 ∙ s3 ∙ s2 ∙ s1)

  pub rest_lem :
      (manager : ℕ)
      → manager < 2 ^ 16
      → FitsConfig cfg
      → fill_container_rest C manager cfg req ≡ ok m
      → (C.content m root ≡ rest_slots cfg (C.content req root))
        × (C.scalar m root 16 16 ≡ manager)
        × (C.scalar m root 0 1 ≡ C.scalar req root 0 1)
        × (C.scalar m root 1 1 ≡ C.scalar req root 1 1)
  unfolding fill_container_rest
  rest_lem manager small fit h =
      let (m1, e1, h1) =
        >>=-eq-ok (wrapped _ (string_string_map_to_map_entry_list C 10 cfg.env_vars req)) _ h in
      let m1' = C.set_scalar root 16 16 manager m1 in
      let (m2, e2, h2) =
        >>=-eq-ok (wrapped _ (remote_fd_slice_to_uint64_list C 11 cfg.additional_fds m1')) _ h1 in
      let (_, c1, s1) = map_lem C L 10 cfg.env_vars req m1 fit.env_vars (wrapped-eq-ok _ _ e1) in
      let (c2, s2) =
        remote_fd_slice_lem C L 11 cfg.additional_fds m1' m2 fit.additional_fds
          (wrapped-eq-ok _ _ e2) in
      let (c3, s3) =
        remote_fd_slice_lem C L 12 cfg.leak_fds m2 m fit.leak_fds (wrapped-eq-ok _ _ h2) in
      let late : C.scalar m root ≡ C.scalar m1' root = s3 ∙ s2 in
      (
        rw (c3, c2, L.content-set_scalar root 16 16 manager m1, c1),
        rw late (L.scalar-set_scalar root 16 16 manager m1 small),
        rw (late, ← s1) (L.scalar-set_scalar_ne root root 16 16 0 1 manager m1 (omega arith)),
        rw (late, ← s1) (L.scalar-set_scalar_ne root root 16 16 1 1 manager m1 (omega arith)),
      )
