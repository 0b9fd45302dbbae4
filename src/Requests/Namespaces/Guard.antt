-- ===== src/Requests/Namespaces/Guard.antt =====
-- What the request of `CreateNamespaces` carries, and when it is refused (pkg/client/client.go).
use conmon_rs.Base.{
  ℕ, ◌+◌, ◌≡◌, ◌≢◌, refl, ap, ◌∙◌, Bool, true, false, ◌||◌, ◌==◌, Option, none, some, String, List,
  [], ◌∷◌, ◌++◌, map, length, if◌then◌else◌, length-append, replicate, arith, Bool-cases,
  Option-cases, inl, inr,
}
use mathlib.Core.List.{append_assoc}
use conmon_rs.Base.Results.{is_ok, ok, err, wrapped, missing_id_mappings, Result-cases}
use conmon_rs.Base.Chain.{>>=-eq-ok}
use conmon_rs.Consts.Namespace
use conmon_rs.Wire.{Capnp, root, Content, words, IsLawful, word_list}
use conmon_rs.Wire.Lists.{int32, string_slice_to_text_list}
use conmon_rs.Wire.Frame.{wrapped-eq-ok, FitsInt32, content_self, string_slice_lem, set_middle}
use conmon_rs.Requests.Config.{IdMappings, CreateNamespacesConfig}
use conmon_rs.Requests.Mappings.{mappings_to_slice}
use conmon_rs.Requests.Metadata.{Injected, set_metadata}
use conmon_rs.Requests.Metadata.Effect.{update_lem, text_slot_lem}
use conmon_rs.Requests.Namespaces.{
  proto_namespace, usable_mappings, set_namespace, set_user_namespace, set_one, set_namespaces,
  fill_namespaces_list, fill_create_namespaces,
}

-- The number of a namespace on the wire, after the schema (conmon-rs/common/proto/conmon.capnp:
-- `Namespace`), for each constant of the client; 0 for a number that is none.
unfoldable pub wire_value : ℕ → ℕ
wire_value n =
    if n == Namespace.pid
    then 2
    else if n == Namespace.net
    then 1
    else if n == Namespace.user
    then 3
    else if n == Namespace.uts
    then 4
    else 0

wire_value-none : (n : ℕ) → proto_namespace n ≡ none → 0 ≡ wire_value n
unfolding wire_value proto_namespace
wire_value-none n h = ground arith

wire_value-some : (n v : ℕ) → proto_namespace n ≡ some v → v ≡ wire_value n
unfolding wire_value proto_namespace
wire_value-some n v h = ground arith

abbrev pub wants_user : List ℕ → Bool
wants_user [] = false
wants_user (n ∷ ns) = n == Namespace.user || wants_user ns

-- The mappings are given, and neither list reaches 2 ^ 31 elements.
pub record FitsMappings (id_mappings : Option IdMappings) : Type 0 where
  pub lists :
      (mappings : IdMappings)
      → id_mappings ≡ some mappings
      → FitsInt32 (mappings_to_slice mappings.uids) × FitsInt32 (mappings_to_slice mappings.gids)

usable_some :
    (id_mappings : Option IdMappings) (mappings : IdMappings)
    → usable_mappings id_mappings ≡ ok mappings
    → id_mappings ≡ some mappings
unfolding usable_mappings
usable_some none mappings h = cc
usable_some (some given) mappings h = ground arith

module _ (C : Capnp) (L : IsLawful C) where
  -- Element `i` of the list at slot 1, which is still 0, becomes the wire value.
  set_namespace_lem :
      (front : List ℕ) (n : ℕ) (back : List ℕ) (m : C.Message)
      → C.content m root 1 ≡ words (front ++ 0 ∷ back)
      → C.content (set_namespace C (length front) n m) root 1
        ≡ words ((front ++ wire_value n ∷ []) ++ back)
  unfolding set_namespace
  set_namespace_lem front n back m e = elim (Option-cases (proto_namespace n)) [
    | inl p ↦
        rw (p, set_namespace)
          (e
            ∙ ap words (regroup front 0 back)
            ∙ ap (λ (x : ℕ). words ((front ++ x ∷ []) ++ back)) (wire_value-none n p))
    | inr (v, p) ↦
        let w =
          L.set_word_elem_lem 1 (length front) v (front ++ 0 ∷ back) m e
            (omega (arith, length-append front (0 ∷ back))) in
        rw (p, set_namespace)
          (ap (λ (f : ℕ → Content). f 1) (content_self C w)
            ∙ update_lem 1 1 _ (C.content m root)
            ∙ ap words (set_middle front 0 v back)
            ∙ ap (λ (x : ℕ). words ((front ++ x ∷ []) ++ back)) (wire_value-some n v p))
  ]
    where
      regroup :
          (front : List ℕ) (a : ℕ) (back : List ℕ) → front ++ a ∷ back ≡ (front ++ a ∷ []) ++ back
      regroup front a back = rw (append_assoc front (a ∷ []) back)

  slot_1_kept :
      (k : ℕ) (vs : List String) (m m' : C.Message) (t : String)
      → (k == 1) ≡ false
      → FitsInt32 vs
      → wrapped t (string_slice_to_text_list C k vs m) ≡ ok m'
      → C.content m' root 1 ≡ C.content m root 1
  slot_1_kept k vs m m' t other fit h =
      let (c, _) = string_slice_lem C L k vs m m' fit (wrapped-eq-ok t _ h) in
      ap (λ (f : ℕ → Content). f 1) c ∙ text_slot_lem k 1 vs (C.content m root) ∙ rw other

  set_one_lem :
      (id_mappings : Option IdMappings) (front : List ℕ) (n : ℕ) (back : List ℕ) (m m' : C.Message)
      → FitsMappings id_mappings
      → C.content m root 1 ≡ words (front ++ 0 ∷ back)
      → set_one C id_mappings (length front) n m ≡ ok m'
      → C.content m' root 1 ≡ words ((front ++ wire_value n ∷ []) ++ back)
  unfolding set_one set_user_namespace
  set_one_lem id_mappings front n back m m' fit e h = elim (Bool-cases (n == Namespace.user)) [
    | inl user ↦
        let (mappings, h0, h1) = >>=-eq-ok (usable_mappings id_mappings) _ (rw user at h) in
        let m0 = set_namespace C (length front) Namespace.user m in
        let (m1, h2, h3) =
          >>=-eq-ok (wrapped _ (string_slice_to_text_list C 2 (mappings_to_slice mappings.uids) m0))
            _ h1 in
        let (fu, fg) = fit.lists mappings (usable_some id_mappings mappings h0) in
        let same : Namespace.user ≡ n = ground arith in
        slot_1_kept 3 _ m1 m' _ refl fg h3
        ∙ slot_1_kept 2 _ m0 m1 _ refl fu h2
        ∙ set_namespace_lem front Namespace.user back m e
        ∙ ap (λ (x : ℕ). words ((front ++ wire_value x ∷ []) ++ back)) same
    | inr other ↦ ground (arith, set_namespace_lem front n back m e)
  ]

  set_namespaces_lem :
      (id_mappings : Option IdMappings) (front ns : List ℕ) (m m' : C.Message)
      → FitsMappings id_mappings
      → C.content m root 1 ≡ words (front ++ replicate (length ns) 0)
      → set_namespaces C id_mappings (length front) ns m ≡ ok m'
      → C.content m' root 1 ≡ words (front ++ map wire_value ns)
  unfolding set_namespaces
  set_namespaces_lem id_mappings front [] m m' fit e h = ground arith
  set_namespaces_lem id_mappings front (n ∷ ns) m m' fit e h =
      let (m1, h1, h2) = >>=-eq-ok (set_one C id_mappings (length front) n m) _ h in
      let e1 = set_one_lem id_mappings front n (replicate (length ns) 0) m m1 fit e h1 in
      set_namespaces_lem id_mappings (front ++ wire_value n ∷ []) ns m1 m' fit e1
        (rw (length-append front (wire_value n ∷ [])) h2)
      ∙ rw (append_assoc front (wire_value n ∷ []) (map wire_value ns))

module _ (C : Capnp) where
  -- A user namespace without usable mappings is refused, wherever it stands in the list.
  refuses_user :
      (id_mappings : Option IdMappings) (i : ℕ) (ns : List ℕ) (m m' : C.Message)
      → wants_user ns ≡ true
      → usable_mappings id_mappings ≡ err missing_id_mappings
      → set_namespaces C id_mappings i ns m ≢ ok m'
  unfolding set_namespaces set_one set_user_namespace
  refuses_user id_mappings i [] m m' wants bad h = cc
  refuses_user id_mappings i (n ∷ ns) m m' wants bad h =
      let (m1, h1, h2) = >>=-eq-ok (set_one C id_mappings i n m) _ h in
      ground (arith, refuses_user id_mappings (i + 1) ns m1 m')

module _ (C : Capnp) (tracing : Bool) (injected : Injected) where
  unfilled :
      (cfg : CreateNamespacesConfig) (req m : C.Message)
      → wants_user cfg.namespaces ≡ true
      → usable_mappings cfg.id_mappings ≡ err missing_id_mappings
      → fill_namespaces_list C tracing injected cfg req ≢ ok m
  unfolding fill_namespaces_list
  unfilled cfg req m wants bad h =
      let (m1, h1, h2) = >>=-eq-ok (set_metadata C tracing _ injected req) _ h in
      let (m2, h3, h4) =
        >>=-eq-ok (wrapped _ (C.new_list word_list 1 (int32 (length cfg.namespaces)) m1)) _ h2 in
      refuses_user C cfg.id_mappings 0 cfg.namespaces m2 m wants bad h4

module _ (C : Capnp) (L : IsLawful C) (tracing : Bool) (injected : Injected) where
  -- Over a lawful library, and with lists of fewer than 2 ^ 31 elements: if the namespaces and
  -- their mappings are filled in, then the request carries for each namespace of the
  -- configuration, in its order, the number that the schema gives it: ipc 0, net 1, pid 2, user 3,
  -- uts 4; one that the client does not know goes out as that of ipc.
  pub fill_namespaces_list-words :
      (cfg : CreateNamespacesConfig) (req m : C.Message)
      → FitsInt32 cfg.namespaces
      → FitsMappings cfg.id_mappings
      → fill_namespaces_list C tracing injected cfg req ≡ ok m
      → C.content m root 1 ≡ words (map wire_value cfg.namespaces)
  unfolding fill_namespaces_list
  fill_namespaces_list-words cfg req m fit fit' h =
      let n = length cfg.namespaces in
      let small : int32 n ≡ n = omega arith in
      let (m1, h1, h2) = >>=-eq-ok (set_metadata C tracing _ injected req) _ h in
      let (m2, h3, h4) =
        >>=-eq-ok (wrapped "init namespaces" (C.new_list word_list 1 n m1)) _ (rw small at h2) in
      let (c, _) = L.new_list_root word_list 1 n m1 m2 (wrapped-eq-ok _ _ h3) in
      set_namespaces_lem C L cfg.id_mappings [] cfg.namespaces m2 m fit'
        (ap (λ (f : ℕ → Content). f 1) c ∙ update_lem 1 1 _ (C.content m1 root)) h4

module _ (C : Capnp) (tracing : Bool) (injected : Injected) where
  -- Without usable id mappings a request for a user namespace is never filled, so the call of
  -- `CreateNamespaces` gets an error in place of a request. The configuration is then unchanged.
  pub fill_create_namespaces_unmapped :
      (cfg : CreateNamespacesConfig) (req : C.Message)
      → wants_user cfg.namespaces ≡ true
      → usable_mappings cfg.id_mappings ≡ err missing_id_mappings
      → (is_ok (fill_create_namespaces C tracing injected cfg req).0 ≡ false)
        × ((fill_create_namespaces C tracing injected cfg req).1 ≡ cfg)
  unfolding fill_create_namespaces
  fill_create_namespaces_unmapped cfg req wants bad =
      elim (Result-cases (fill_namespaces_list C tracing injected cfg req)) [
        | inl (m, e) ↦ absurd (unfilled C tracing injected cfg req m wants bad e)
        | inr (x, e) ↦ rw (e, fill_create_namespaces) (refl, refl)
      ]
