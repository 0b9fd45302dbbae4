-- ===== src/RpcServer/Version.antt =====
-- What the client's `Version` and `RemoteFDs` return of the server's answers (conmon-rs/server/src/rpc.rs,
-- conmon-rs/server/src/version.rs, pkg/client/client.go).
use conmon_rs.Proto.StartFdSocketResponse
use conmon_rs.Proto.VersionRequest
use conmon_rs.Base.{ℕ, String, ◌<◌, ◌^◌, ◌≡◌, refl, ap, if◌then◌else◌, arith}
use conmon_rs.Base.Results.{ok}
use conmon_rs.Base.Chain.{>>=-eq-ok}
use conmon_rs.Wire.{Capnp, Place, root, Content, stored_text, update, IsLawful, IsReadable}
use conmon_rs.Wire.Frame.{content_self}
use conmon_rs.Requests.Received.Reading.{text_lem}
use conmon_rs.Rpc.{Host, Process}
use conmon_rs.Rpc.Methods.{version_response, store_version}
use conmon_rs.RpcServer.{Build, new_version, answer_version, answer_start_fd_socket}

module _ (C : Capnp) (L : IsLawful C) where
  set_root_text :
      (k : ℕ) (v : String) (m m' : C.Message)
      → C.set_text root k v m ≡ ok m'
      → (C.content m' root ≡ update k (stored_text v) (C.content m root))
        × (C.scalar m' root ≡ C.scalar m root)
  set_root_text k v m m' h =
      let w = L.set_text_lem root k v m m' h in (content_self C w, w.scalar_eq root)

  -- The client's `RemoteFDs` reads the path that the server gave.
  pub path-answer_start_fd_socket :
      (path : String) (response m : C.Message)
      → answer_start_fd_socket C path response ≡ ok m
      → IsReadable C m
      → StartFdSocketResponse.path C m ≡ ok path
  unfolding answer_start_fd_socket update
  path-answer_start_fd_socket path response m h R =
      text_lem C R root 0 (ap (λ (f : ℕ → Content). f 0) (set_root_text 0 path response m h).0)

  -- All that the server writes: a text at each of the slots 0 to 7, and the process id.
  answer_version_lem :
      (b : Build) (process_id : ℕ) (req response m : C.Message)
      → process_id < 2 ^ 32
      → answer_version C b process_id req response ≡ ok m
      → let v = new_version b (VersionRequest.verbose C req) in
        (C.content m root
          ≡ update 7 (stored_text v.cargo_tree) (
              update 6 (stored_text v.cargo_version) (
                update 5 (stored_text v.rust_version) (
                  update 4 (stored_text v.target) (
                    update 3 (stored_text v.build_date) (
                      update 2 (stored_text v.commit) (
                        update 1
                          (stored_text v.tag)
                          (update 0 (stored_text v.version) (C.content response root)))))))))
        × (C.scalar m root 0 32 ≡ process_id)
  unfolding answer_version
  answer_version_lem b process_id req response m fits h =
      let v = new_version b (VersionRequest.verbose C req) in
      let m0 = C.set_scalar root 0 32 process_id response in
      let (m1, h1, r1) = >>=-eq-ok (C.set_text root 0 v.version m0) _ h in
      let (m2, h2, r2) = >>=-eq-ok (C.set_text root 1 v.tag m1) _ r1 in
      let (m3, h3, r3) = >>=-eq-ok (C.set_text root 2 v.commit m2) _ r2 in
      let (m4, h4, r4) = >>=-eq-ok (C.set_text root 3 v.build_date m3) _ r3 in
      let (m5, h5, r5) = >>=-eq-ok (C.set_text root 4 v.target m4) _ r4 in
      let (m6, h6, r6) = >>=-eq-ok (C.set_text root 5 v.rust_version m5) _ r5 in
      let (m7, h7, h8) = >>=-eq-ok (C.set_text root 6 v.cargo_version m6) _ r6 in
      let w1 = set_root_text 0 v.version m0 m1 h1 in
      let w2 = set_root_text 1 v.tag m1 m2 h2 in
      let w3 = set_root_text 2 v.commit m2 m3 h3 in
      let w4 = set_root_text 3 v.build_date m3 m4 h4 in
      let w5 = set_root_text 4 v.target m4 m5 h5 in
      let w6 = set_root_text 5 v.rust_version m5 m6 h6 in
      let w7 = set_root_text 6 v.cargo_version m6 m7 h7 in
      let w8 = set_root_text 7 v.cargo_tree m7 m h8 in
      let c0 =
        ap (λ (f : Place → ℕ → Content). f root)
          (L.content-set_scalar root 0 32 process_id response) in
      let s0 = L.scalar-set_scalar root 0 32 process_id response fits in
      (
        rw (w8.0, w7.0, w6.0, w5.0, w4.0, w3.0, w2.0, w1.0, c0) refl,
        rw (w8.1, w7.1, w6.1, w5.1, w4.1, w3.1, w2.1, w1.1) s0,
      )

-- Over a lawful library, for an answer that can be read, a process id of 32 bits and a version
-- that parses: `Version` returns the process id and the constants of the server's build, each in
-- its field; the cargo tree is that of the build if the request was verbose, and empty if not.
pub version_response-answer_version :
    (C : Capnp) (L : IsLawful C) (H : Host C) (b : Build) (process_id : ℕ)
    (req response m : C.Message) (p : Process C H) (parsed : H.SemVer)
    → process_id < 2 ^ 32
    → answer_version C b process_id req response ≡ ok m
    → IsReadable C m
    → H.parse_semver b.pkg_version ≡ ok parsed
    → (version_response C H m p).0
      ≡ ok (record {
        process_id = process_id;
        version = b.pkg_version;
        tag = b.tag;
        commit = b.commit_hash;
        build_date = b.build_time;
        target = b.build_target;
        rust_version = b.rust_version;
        cargo_version = b.cargo_version;
        cargo_tree = if VersionRequest.verbose C req then b.cargo_tree else "";
      })
unfolding version_response store_version new_version update
version_response-answer_version C L H b process_id req response m p parsed fits h R parses =
    let (written, scalar) = answer_version_lem C L b process_id req response m fits h in
    let slot = λ (k : ℕ). ap (λ (f : ℕ → Content). f k) written in
    let t0 : C.read_text m root 0 ≡ ok b.pkg_version = text_lem C R root 0 (slot 0) in
    let t1 : C.read_text m root 1 ≡ ok b.tag = text_lem C R root 1 (slot 1) in
    let t2 : C.read_text m root 2 ≡ ok b.commit_hash = text_lem C R root 2 (slot 2) in
    let t3 : C.read_text m root 3 ≡ ok b.build_time = text_lem C R root 3 (slot 3) in
    let t4 : C.read_text m root 4 ≡ ok b.build_target = text_lem C R root 4 (slot 4) in
    let t5 : C.read_text m root 5 ≡ ok b.rust_version = text_lem C R root 5 (slot 5) in
    let t6 : C.read_text m root 6 ≡ ok b.cargo_version = text_lem C R root 6 (slot 6) in
    let t7 : C.read_text m root 7 ≡ ok (if VersionRequest.verbose C req then b.cargo_tree else "") =
      text_lem C R root 7 (slot 7) in
    ground arith
