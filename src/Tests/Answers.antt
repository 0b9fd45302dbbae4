-- ===== src/Tests/Answers.antt =====
-- The server's answers and what the client returns of them.
use conmon_rs.Base.{
  ℕ, ◌≡◌, refl, ◌∙◌, String, str_eq, true, false, some, List, [], ◌∷◌, if◌then◌else◌, arith,
}
use conmon_rs.Base.Results.{Error, Result, ok, err, external}
use conmon_rs.Consts.Namespace
use conmon_rs.Dial.{dial_below, dial_long_socket}
use conmon_rs.Wire.{root, absent, bytes, stored_text, update}
use conmon_rs.Requests.Config.{VersionConfig}
use conmon_rs.Requests.Metadata.{set_metadata}
use conmon_rs.Requests.Fill.{verbose_of, fill_version}
use conmon_rs.Rpc.{Host, Process, dial, invoke, place, on_connection}
use conmon_rs.Rpc.Methods.{
  VersionResponse, version_response, store_version, exec_response, namespaces_response,
  call_version,
}
use conmon_rs.Rpc.Delivery.{IsFaithful}
use conmon_rs.RpcServer.{
  Build, new_version, answer_version, Execution, ran, answer_exec_sync, PauseNamespace, net, user,
  write_namespaces, answer_create_namespaces,
}
use conmon_rs.RpcServer.Exec.{exec_response-answer_exec_sync}
use conmon_rs.RpcServer.Namespaces.{namespaces_response-answer}
use conmon_rs.RpcServer.Call.{call_version-answered}
use conmon_rs.Tests.Memory.{
  Memory, write, in_memory, in_memory-IsLawful, memory-IsReadable, new_message,
}
use conmon_rs.Tests.Life.{Network, just_started, late_server, process, no_trace, number}

abbrev build : Build
build = record {
  pkg_version = "0.6.0";
  tag = "v0.6.0";
  commit_hash = "f3c2";
  build_time = "2023-09-01";
  build_target = "x86_64";
  rust_version = "rustc 1.72";
  cargo_version = "cargo 1.72";
  cargo_tree = "conmonrs";
}

abbrev answered : Result Memory → Network → Result Memory × Network
answered (ok m) w = (answer_version in_memory build 42 m new_message, w)
answered (err e) w = (err e, w)

abbrev server : Host in_memory
server = record late_server {
  call = λ conn method request w. answered request w;
  parse_semver = λ v. if str_eq v "0.6.0" then ok (number 0 6 0) else err (external 8);
}

answered_err : (e : Error) (w : Network) (r : Memory) → ¬ ((answered (err e) w).0 ≡ ok r)
answered_err e w r h = cc

new_message_lem : (req : Memory) → ok new_message ≡ ok req → (k : ℕ) → req.contents root k ≡ absent
new_message_lem req h k = let same : new_message ≡ req = cc h in rw (← same) refl

server-IsFaithful : IsFaithful in_memory server
server-IsFaithful = record {
  fails = λ conn method e w results. answered_err e w results;
  fresh = λ method req h k. new_message_lem req h k;
}

abbrev caller : Process in_memory server
caller = record { client = process.client; world = record just_started { clock = 5 } }

abbrev reported : VersionResponse
reported = record {
  process_id = 42;
  version = "0.6.0";
  tag = "v0.6.0";
  commit = "f3c2";
  build_date = "2023-09-01";
  target = "x86_64";
  rust_version = "rustc 1.72";
  cargo_version = "cargo 1.72";
  cargo_tree = "conmonrs";
}

abbrev verbose : VersionConfig
verbose = record { verbose = true }

version_lem : (call_version in_memory server no_trace (some verbose) caller).0 ≡ ok reported
unfolding call_version invoke dial dial_long_socket dial_below place on_connection fill_version
    set_metadata version_response store_version answer_version new_version update stored_text
version_lem = refl

call_version-answered_example : reported ≡ record {
  process_id = 42;
  version = build.pkg_version;
  tag = build.tag;
  commit = build.commit_hash;
  build_date = build.build_time;
  target = build.build_target;
  rust_version = build.rust_version;
  cargo_version = build.cargo_version;
  cargo_tree = if verbose_of (some verbose) then build.cargo_tree else "";
}
call_version-answered_example =
    call_version-answered in_memory server in_memory-IsLawful server-IsFaithful no_trace caller
      build 42 (number 0 6 0) (some verbose) reported (omega arith) refl
      (λ m response e. (new_message, e.called ∙ e.responded, memory-IsReadable response))
      version_lem

-- The command wrote two bytes, and the child timed out.
abbrev late_command : Execution
late_command = ran (104 ∷ 105 ∷ []) [] false 137 true

abbrev late_answer : Memory
late_answer = in_memory.set_scalar root 32 1 1 (
    in_memory.set_scalar root 0 32 137
      (write root 1 (bytes []) (write root 0 (bytes (104 ∷ 105 ∷ [])) new_message)))

late_answer_lem : answer_exec_sync in_memory late_command new_message ≡ ok late_answer
unfolding answer_exec_sync
late_answer_lem = refl

exec_response-answer_exec_sync_example :
    (exec_response in_memory server late_answer caller).0
    ≡ ok (record { exit_code = 137; stdout = 104 ∷ 105 ∷ []; stderr = []; timed_out = true })
exec_response-answer_exec_sync_example =
    exec_response-answer_exec_sync in_memory in_memory-IsLawful server late_command new_message
      late_answer caller (record { pointers = λ k. refl; flag = refl }) (omega arith)
      late_answer_lem (memory-IsReadable late_answer)

-- A request for the pod "pod".
abbrev for_pod : Memory
for_pod = write root 5 (stored_text "pod") new_message

abbrev message_of : Result Memory → Memory
message_of (ok m) = m
message_of (err e) = new_message

abbrev two : List (PauseNamespace × String)
two = (net, "/run/netns/pod") ∷ (user, "/run/userns/pod") ∷ []

two_lem :
    answer_create_namespaces in_memory two for_pod new_message
    ≡ ok (message_of (answer_create_namespaces in_memory two for_pod new_message))
unfolding answer_create_namespaces write_namespaces update stored_text
two_lem = refl

namespaces_response-answer_example :
    (namespaces_response in_memory server
      (message_of (answer_create_namespaces in_memory two for_pod new_message))
      caller).0
    ≡ ok (
        record { namespace_type = Namespace.net; path = "/run/netns/pod" }
        ∷ record { namespace_type = Namespace.user; path = "/run/userns/pod" }
        ∷ [])
namespaces_response-answer_example =
    namespaces_response-answer in_memory in_memory-IsLawful server two for_pod new_message
      (message_of (answer_create_namespaces in_memory two for_pod new_message)) caller two_lem
      (memory-IsReadable (message_of (answer_create_namespaces in_memory two for_pod new_message)))
