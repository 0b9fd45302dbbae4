-- ===== src/Requests/Container/Drivers.antt =====
-- The log drivers of `CreateContainer` as the server reads them (pkg/client/client.go:
-- `initLogDrivers`).
use conmon_rs.Base.{
  ℕ, ◌+◌, ◌^◌, ◌<◌, ◌≤◌, ◌≡◌, refl, ap, ◌∙◌, ◌⊎◌, inl, ◌==◌, false, List, [], ◌∷◌, length, All,
  arith,
}
use conmon_rs.Base.Results.{ok, wrapped}
use conmon_rs.Base.Chain.{>>=-eq-ok}
use conmon_rs.Wire.{Capnp, Place, at, struct_list, Content, stored_text, IsLawful}
use conmon_rs.Wire.Lists.{int32}
use conmon_rs.Wire.Frame.{content_self, content-other, wrapped-eq-ok, FitsInt32}
use conmon_rs.Wire.Elements.{Keeps}
use conmon_rs.Requests.Config.{ContainerLogDriver}
use conmon_rs.Requests.Metadata.Effect.{update_lem}
use conmon_rs.Requests.Container.{set_log_driver_type, set_log_drivers, init_log_drivers}

-- A size is the bit pattern of a uint64.
abbrev pub FitsDriver : ContainerLogDriver → Type 0
FitsDriver d = d.max_size < 2 ^ 64

module _ (C : Capnp) where
  -- The drivers from index `i` on: path, size, and the type if it is one of the two.
  abbrev pub ReadsDrivers : ℕ → List ContainerLogDriver → C.Message → Type 0
  ReadsDrivers i [] m = Unit
  ReadsDrivers i (d ∷ ds) m =
      (C.content m (at 4 i) 0 ≡ stored_text d.path)
      × (C.scalar m (at 4 i) 64 64 ≡ d.max_size)
      × ((C.scalar m (at 4 i) 0 16 ≡ d.log_driver_type) ⊎ (2 ≤ d.log_driver_type))
      × ReadsDrivers (i + 1) ds m

  pub ReadsDrivers-Keeps :
      (i : ℕ) (ds : List ContainerLogDriver) (m m' : C.Message)
      → Keeps C 4 m m'
      → ReadsDrivers i ds m
      → ReadsDrivers i ds m'
  ReadsDrivers-Keeps i [] m m' same h = tt
  ReadsDrivers-Keeps i (d ∷ ds) m m' same (path, size, type', rest) = (
    rw (same i).0 path,
    rw (same i).1 size,
    rw (same i).1 type',
    ReadsDrivers-Keeps (i + 1) ds m m' same rest,
  )

module _ (C : Capnp) (L : IsLawful C) where
  type_lem :
      (i typ : ℕ) (m : C.Message)
      → (C.scalar (set_log_driver_type C i typ m) (at 4 i) 0 16 ≡ typ) ⊎ (2 ≤ typ)
  unfolding set_log_driver_type
  type_lem i typ m = ground (
    arith,
    L.scalar-set_scalar (at 4 i) 0 16 0 m (omega arith),
    L.scalar-set_scalar (at 4 i) 0 16 1 m (omega arith),
  )

  type_frame :
      (i j typ : ℕ) (m : C.Message) (o w : ℕ)
      → (i == j) ≡ false
      → C.scalar (set_log_driver_type C i typ m) (at 4 j) o w ≡ C.scalar m (at 4 j) o w
  unfolding set_log_driver_type
  type_frame i j typ m o w apart = ground (
    arith,
    L.scalar-set_scalar_ne (at 4 i) (at 4 j) 0 16 o w 0 m (inl (ground arith)),
    L.scalar-set_scalar_ne (at 4 i) (at 4 j) 0 16 o w 1 m (inl (ground arith)),
  )

  type_content :
      (i typ : ℕ) (m : C.Message) → C.content (set_log_driver_type C i typ m) ≡ C.content m
  unfolding set_log_driver_type
  type_content i typ m =
      ground (arith, L.content-set_scalar (at 4 i) 0 16 0 m, L.content-set_scalar (at 4 i) 0 16 1 m)

  one_driver :
      (i : ℕ) (d : ContainerLogDriver) (m m1 : C.Message)
      → FitsDriver d
      → C.set_text (at 4 i) 0 d.path (set_log_driver_type C i d.log_driver_type m) ≡ ok m1
      → let m2 = C.set_scalar (at 4 i) 64 64 d.max_size m1 in
        ReadsDrivers C i (d ∷ []) m2
        × ((j : ℕ)
            → j < i
            → (C.content m2 (at 4 j) ≡ C.content m (at 4 j))
              × ((o w : ℕ) → C.scalar m2 (at 4 j) o w ≡ C.scalar m (at 4 j) o w))
  one_driver i d m m1 fit h =
      let m0 = set_log_driver_type C i d.log_driver_type m in
      let w = L.set_text_lem (at 4 i) 0 d.path m0 m1 h in
      let size = L.content-set_scalar (at 4 i) 64 64 d.max_size m1 in
      let c : (q : Place)
          → C.content (C.set_scalar (at 4 i) 64 64 d.max_size m1) q ≡ C.content m1 q =
        λ q. ap (λ (f : Place → ℕ → Content). f q) size in
      let path : C.content (C.set_scalar (at 4 i) 64 64 d.max_size m1) (at 4 i) 0
          ≡ stored_text d.path =
        ap (λ (f : ℕ → Content). f 0) (c (at 4 i) ∙ content_self C w) ∙ update_lem 0 0 _ _ in
      let typ : C.scalar (C.set_scalar (at 4 i) 64 64 d.max_size m1) (at 4 i) 0 16
          ≡ C.scalar m0 (at 4 i) 0 16 =
        L.scalar-set_scalar_ne (at 4 i) (at 4 i) 64 64 0 16 d.max_size m1 (omega arith)
        ∙ ap (λ (f : ℕ → ℕ → ℕ). f 0 16) (w.scalar_eq (at 4 i)) in
      (
        (
          path,
          L.scalar-set_scalar (at 4 i) 64 64 d.max_size m1 fit,
          rw typ (type_lem i d.log_driver_type m),
          tt,
        ),
        λ j lt. (
          c (at 4 j)
              ∙ content-other C w (at 4 j) (ground arith)
              ∙ ap (λ (f : Place → ℕ → Content). f (at 4 j)) (type_content i d.log_driver_type m),
          λ o w'.
              L.scalar-set_scalar_ne (at 4 i) (at 4 j) 64 64 o w' d.max_size m1 (inl (ground arith))
              ∙ ap (λ (f : ℕ → ℕ → ℕ). f o w') (w.scalar_eq (at 4 j))
              ∙ type_frame i j d.log_driver_type m o w' (ground arith),
        ),
      )

  set_log_drivers-ReadsDrivers :
      (i : ℕ) (ds : List ContainerLogDriver) (m m' : C.Message)
      → All FitsDriver ds
      → set_log_drivers C i ds m ≡ ok m'
      → ReadsDrivers C i ds m'
        × ((j : ℕ)
            → j < i
            → (C.content m' (at 4 j) ≡ C.content m (at 4 j))
              × ((o w : ℕ) → C.scalar m' (at 4 j) o w ≡ C.scalar m (at 4 j) o w))
  unfolding set_log_drivers
  set_log_drivers-ReadsDrivers i [] m m' fit h =
      let same : m ≡ m' = cc h in (tt, λ j lt. rw (← same) (refl, λ o w. refl))
  set_log_drivers-ReadsDrivers i (d ∷ ds) m m' (one, fit) h =
      let m0 = set_log_driver_type C i d.log_driver_type m in
      let (m1, h1, h2) =
        >>=-eq-ok (wrapped "set log driver path" (C.set_text (at 4 i) 0 d.path m0)) _ h in
      let m2 = C.set_scalar (at 4 i) 64 64 d.max_size m1 in
      let ((path, size, typ, _), early) =
        one_driver i d m m1 one (wrapped-eq-ok "set log driver path" _ h1) in
      let (rest, below) = set_log_drivers-ReadsDrivers (i + 1) ds m2 m' fit h2 in
      let (c, s) = below i (omega arith) in
      (
        (rw c path, s 64 64 ∙ size, rw (s 0 16) typ, rest),
        λ j lt.
            let (c1, s1) = below j (omega arith) in
            let (c2, s2) = early j lt in (c1 ∙ c2, λ o w. s1 o w ∙ s2 o w),
      )

  -- The list of log drivers that was written reads back driver by driver.
  pub init_log_drivers-ReadsDrivers :
      (ds : List ContainerLogDriver) (m m' : C.Message)
      → FitsInt32 ds
      → All FitsDriver ds
      → init_log_drivers C ds m ≡ ok m'
      → ReadsDrivers C 0 ds m'
  unfolding init_log_drivers
  init_log_drivers-ReadsDrivers ds m m' short fit h =
      let (m1, h1, h2) =
        >>=-eq-ok (wrapped "create log drivers" (C.new_list struct_list 4 (int32 (length ds)) m)) _
          h in
      (set_log_drivers-ReadsDrivers 0 ds m1 m' fit h2).0
