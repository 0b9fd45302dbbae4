-- ===== src/Requests/Container/Elements.antt =====
-- The elements of the log drivers and of the environment within the whole request of
-- `CreateContainer` (pkg/client/client.go).
use conmon_rs.Base.{◌≡◌, refl, ap, ℕ, ◌≢◌, inl, arith, All}
use mathlib.Core.Path.{fun_ext}
use conmon_rs.Base.Results.{ok, wrapped}
use conmon_rs.Base.Chain.{>>=-eq-ok}
use conmon_rs.Wire.{Capnp, Place, root, at, Content, IsLawful}
use conmon_rs.Wire.Lists.{
  string_slice_to_text_list, string_string_map_to_map_entry_list, remote_fd_slice_to_uint64_list,
}
use conmon_rs.Wire.Frame.{wrapped-eq-ok, ReadsEntries, map_lem}
use conmon_rs.Wire.Elements.{
  Keeps, Keeps-trans, string_slice-Keeps, remote_fd_slice-Keeps, map-Keeps, ReadsEntries-Keeps,
}
use conmon_rs.Requests.Config.{CreateContainerConfig}
use conmon_rs.Requests.Container.{init_log_drivers, fill_container_lists, fill_container_rest}
use conmon_rs.Requests.Container.Drivers.{
  FitsDriver, ReadsDrivers, ReadsDrivers-Keeps, init_log_drivers-ReadsDrivers,
}
use conmon_rs.Requests.Container.Fields.{FitsConfig}

module _ (C : Capnp) (L : IsLawful C) (cfg : CreateContainerConfig) (req m : C.Message) where
  pub lists-ReadsDrivers :
      FitsConfig cfg
      → All FitsDriver cfg.log_drivers
      → fill_container_lists C cfg req ≡ ok m
      → ReadsDrivers C 0 cfg.log_drivers m
  unfolding fill_container_lists
  lists-ReadsDrivers fit sizes h =
      let (m1, e1, h1) =
        >>=-eq-ok (wrapped _ (string_slice_to_text_list C 2 cfg.exit_paths req)) _ h in
      let (m2, e2, h2) =
        >>=-eq-ok (wrapped _ (string_slice_to_text_list C 3 cfg.oom_exit_paths m1)) _ h1 in
      let (m3, e3, h3) = >>=-eq-ok (wrapped _ (init_log_drivers C cfg.log_drivers m2)) _ h2 in
      let (m4, e4, h4) =
        >>=-eq-ok (wrapped _ (string_slice_to_text_list C 5 cfg.cleanup_cmd m3)) _ h3 in
      let (m5, e5, h5) =
        >>=-eq-ok (wrapped _ (string_slice_to_text_list C 6 cfg.global_args m4)) _ h4 in
      let drivers =
        init_log_drivers-ReadsDrivers C L cfg.log_drivers m2 m3 fit.log_drivers sizes
          (wrapped-eq-ok _ _ e3) in
      let k4 =
        string_slice-Keeps C L 4 5 cfg.cleanup_cmd m3 m4 fit.cleanup_cmd (omega arith)
          (wrapped-eq-ok _ _ e4) in
      let k5 =
        string_slice-Keeps C L 4 6 cfg.global_args m4 m5 fit.global_args (omega arith)
          (wrapped-eq-ok _ _ e5) in
      let k6 =
        string_slice-Keeps C L 4 7 cfg.command_args m5 m fit.command_args (omega arith)
          (wrapped-eq-ok _ _ h5) in
      ReadsDrivers-Keeps C 0 cfg.log_drivers m3 m
        (Keeps-trans C L 4 m3 m5 m k6 (Keeps-trans C L 4 m3 m4 m5 k5 k4)) drivers

module _ (C : Capnp) (L : IsLawful C) where
  pub scalar-Keeps : (l o w v : ℕ) (m : C.Message) → Keeps C l m (C.set_scalar root o w v m)
  scalar-Keeps l o w v m j = (
    ap (λ (f : Place → ℕ → Content). f (at l j)) (L.content-set_scalar root o w v m),
    fun_ext λ o'. fun_ext λ w'. L.scalar-set_scalar_ne root (at l j) o w o' w' v m (inl refl),
  )

  -- What follows the environment in the closure.
  late-Keeps :
      (cfg : CreateContainerConfig) (l manager : ℕ) (m1 m2 m : C.Message)
      → FitsConfig cfg
      → 11 ≢ l
      → 12 ≢ l
      → remote_fd_slice_to_uint64_list C 11 cfg.additional_fds (C.set_scalar root 16 16 manager m1)
        ≡ ok m2
      → remote_fd_slice_to_uint64_list C 12 cfg.leak_fds m2 ≡ ok m
      → Keeps C l m1 m
  late-Keeps cfg l manager m1 m2 m fit ne ne' h h' =
      Keeps-trans C L l m1 m2 m
        (remote_fd_slice-Keeps C L l 12 cfg.leak_fds m2 m fit.leak_fds ne' h')
        (Keeps-trans C L l m1 _ m2
          (remote_fd_slice-Keeps C L l 11 cfg.additional_fds _ m2 fit.additional_fds ne h)
          (scalar-Keeps l 16 16 manager m1))

  pub rest-elements :
      (cfg : CreateContainerConfig) (manager : ℕ) (req m : C.Message)
      → FitsConfig cfg
      → fill_container_rest C manager cfg req ≡ ok m
      → Keeps C 4 req m × ReadsEntries C 10 0 cfg.env_vars m
  unfolding fill_container_rest
  rest-elements cfg manager req m fit h =
      let (m1, e1, h1) =
        >>=-eq-ok (wrapped _ (string_string_map_to_map_entry_list C 10 cfg.env_vars req)) _ h in
      let (m2, e2, h2) =
        >>=-eq-ok
          (wrapped _ (
            remote_fd_slice_to_uint64_list C 11 cfg.additional_fds
              (C.set_scalar root 16 16 manager m1)))
          _ h1 in
      let env = wrapped-eq-ok _ _ e1 in
      let fds = wrapped-eq-ok _ _ e2 in
      let leak = wrapped-eq-ok _ _ h2 in
      let (entries, _, _) = map_lem C L 10 cfg.env_vars req m1 fit.env_vars env in
      (
        Keeps-trans C L 4 req m1 m
            (late-Keeps cfg 4 manager m1 m2 m fit (omega arith) (omega arith) fds leak)
            (map-Keeps C L 4 10 cfg.env_vars req m1 fit.env_vars (omega arith) env),
        ReadsEntries-Keeps C L 10 0 cfg.env_vars m1 m
            (late-Keeps cfg 10 manager m1 m2 m fit (omega arith) (omega arith) fds leak) entries,
      )
