-- ===== src/RpcServer/Namespaces.antt =====
-- What the client's `CreateNamespaces` returns of the server's answer
-- (conmon-rs/server/src/rpc.rs, pkg/client/client.go).
use conmon_rs.Consts.Namespace
use conmon_rs.Proto.CreateNamespacesRequest
use conmon_rs.Base.{
  ℕ, ◌+◌, ◌<◌, ◌^◌, ◌≡◌, refl, ap, ◌∙◌, String, str_eq, List, [], ◌∷◌, length, map, inl, inr,
  Bool-cases, arith,
}
use conmon_rs.Base.Results.{ok}
use conmon_rs.Base.Chain.{>>=-eq-ok}
use conmon_rs.Wire.{
  Capnp, Place, root, at, Content, stored_text, structs, struct_list, IsLawful, IsReadable,
}
use conmon_rs.Wire.Frame.{content_self, content-other}
use conmon_rs.Requests.Metadata.Effect.{update_lem}
use conmon_rs.Requests.Received.Reading.{text_lem, list_lem}
use conmon_rs.Requests.Namespaces.{client_namespace}
use conmon_rs.Rpc.{Host, Process}
use conmon_rs.Rpc.Methods.{NamespacesResponse, read_namespaces, namespaces_response}
use conmon_rs.RpcServer.{
  PauseNamespace, ipc, pid, net, user, uts, to_capnp_namespace, write_namespaces,
  answer_create_namespaces,
}

-- The constant of the client for a namespace.
abbrev pub client_constant : PauseNamespace → ℕ
client_constant ipc = Namespace.ipc
client_constant pid = Namespace.pid
client_constant net = Namespace.net
client_constant user = Namespace.user
client_constant uts = Namespace.uts

abbrev pub entry : PauseNamespace × String → NamespacesResponse
entry (namespace, path) = record { namespace_type = client_constant namespace; path = path }

constant_lem :
    (n : PauseNamespace)
    → (client_namespace (to_capnp_namespace n) ≡ client_constant n)
      × (to_capnp_namespace n < 2 ^ 16)
unfolding client_namespace to_capnp_namespace
constant_lem ipc = (refl, omega arith)
constant_lem pid = (refl, omega arith)
constant_lem net = (refl, omega arith)
constant_lem user = (refl, omega arith)
constant_lem uts = (refl, omega arith)

module _ (C : Capnp) where
  -- The elements of the list at slot 0, from index `i` on.
  abbrev Holds : ℕ → List (PauseNamespace × String) → C.Message → Type 0
  Holds i [] m = Unit
  Holds i ((n, path) ∷ rest) m =
      (C.content m (at 0 i) 0 ≡ stored_text path)
      × (C.scalar m (at 0 i) 0 16 ≡ to_capnp_namespace n)
      × Holds (i + 1) rest m

  -- The elements below index `i` and the pointers of the response are as they were.
  abbrev Below : ℕ → C.Message → C.Message → Type 0
  Below i m m' =
      ((j : ℕ)
        → j < i
        → (C.content m' (at 0 j) 0 ≡ C.content m (at 0 j) 0)
          × (C.scalar m' (at 0 j) 0 16 ≡ C.scalar m (at 0 j) 0 16))
      × (C.content m' root ≡ C.content m root)

module _ (C : Capnp) (L : IsLawful C) where
  one_namespace :
      (i typ : ℕ) (path : String) (m m1 : C.Message)
      → typ < 2 ^ 16
      → C.set_text (at 0 i) 0 path m ≡ ok m1
      → let m2 = C.set_scalar (at 0 i) 0 16 typ m1 in
        (C.content m2 (at 0 i) 0 ≡ stored_text path)
        × (C.scalar m2 (at 0 i) 0 16 ≡ typ)
        × Below C i m m2
  one_namespace i typ path m m1 fits h =
      let w = L.set_text_lem (at 0 i) 0 path m m1 h in
      let c : (q : Place) → C.content (C.set_scalar (at 0 i) 0 16 typ m1) q ≡ C.content m1 q =
        λ q. ap (λ (f : Place → ℕ → Content). f q) (L.content-set_scalar (at 0 i) 0 16 typ m1) in
      (
        ap (λ (f : ℕ → Content). f 0) (c (at 0 i) ∙ content_self C w) ∙ update_lem 0 0 _ _,
        L.scalar-set_scalar (at 0 i) 0 16 typ m1 fits,
        (
          λ j lt. (
            ap (λ (f : ℕ → Content). f 0) (c (at 0 j) ∙ content-other C w (at 0 j) (ground arith)),
            L.scalar-set_scalar_ne (at 0 i) (at 0 j) 0 16 0 16 typ m1 (inl (ground arith))
                ∙ ap (λ (f : ℕ → ℕ → ℕ). f 0 16) (w.scalar_eq (at 0 j)),
          ),
          c root ∙ content-other C w root refl,
        ),
      )

  write_namespaces-Holds :
      (i : ℕ) (ns : List (PauseNamespace × String)) (m m' : C.Message)
      → write_namespaces C i ns m ≡ ok m'
      → Holds C i ns m' × Below C i m m'
  unfolding write_namespaces
  write_namespaces-Holds i [] m m' h =
      let last : m ≡ m' = cc h in rw (← last) (tt, (λ j lt. (refl, refl), refl))
  write_namespaces-Holds i ((n, path) ∷ rest) m m' h =
      let typ = to_capnp_namespace n in
      let (m1, h1, r) = >>=-eq-ok (C.set_text (at 0 i) 0 path m) _ h in
      let m2 = C.set_scalar (at 0 i) 0 16 typ m1 in
      let (here, kind, (below, top)) = one_namespace i typ path m m1 (constant_lem n).1 h1 in
      let (holds, (below', top')) = write_namespaces-Holds (i + 1) rest m2 m' r in
      let same = below' i (omega arith) in
      (
        (same.0 ∙ here, same.1 ∙ kind, holds),
        (
          λ j lt.
              let later = below' j (omega arith) in
              (later.0 ∙ (below j lt).0, later.1 ∙ (below j lt).1),
          top' ∙ top,
        ),
      )

  read_namespaces-Holds :
      (H : Host C) (i : ℕ) (ns : List (PauseNamespace × String)) (m : C.Message)
      → IsReadable C m
      → Holds C i ns m
      → read_namespaces C H (length ns) i m ≡ ok (map entry ns)
  unfolding read_namespaces
  read_namespaces-Holds H i [] m R h = refl
  read_namespaces-Holds H i ((n, path) ∷ rest) m R (here, kind, holds) =
      let later = read_namespaces-Holds H (i + 1) rest m R holds in
      let read = text_lem C R (at 0 i) 0 here in ground (arith, constant_lem n)

-- Over a lawful library, for an answer that can be read: `CreateNamespaces` returns the namespaces
-- that the server has made for the pod, in their order, each with the client's own constant for it
-- and with its path.
pub namespaces_response-answer :
    (C : Capnp) (L : IsLawful C) (H : Host C) (ns : List (PauseNamespace × String))
    (req response m : C.Message) (p : Process C H)
    → answer_create_namespaces C ns req response ≡ ok m
    → IsReadable C m
    → (namespaces_response C H m p).0 ≡ ok (map entry ns)
unfolding namespaces_response answer_create_namespaces
namespaces_response-answer C L H ns req response m p h R =
    let (pod_id, named, r) = >>=-eq-ok (CreateNamespacesRequest.pod_id C req) _ h in
    elim (Bool-cases (str_eq pod_id "")) [
      | inl nameless ↦ cc (rw nameless at r)
      | inr given ↦
          let (m1, made, written) =
            >>=-eq-ok (C.new_list struct_list 0 (length ns) response) _ (rw given at r) in
          let (top, s) = L.new_list_root struct_list 0 (length ns) response m1 made in
          let (holds, (below, top')) = write_namespaces-Holds C L 0 ns m1 m written in
          let listed : C.content m root 0 ≡ structs (length ns) =
            ap (λ (f : ℕ → Content). f 0) (top' ∙ top) ∙ update_lem 0 0 _ _ in
          rw (list_lem C R root 0 listed) (rw (read_namespaces-Holds C L H 0 ns m R holds) refl)
    ]
