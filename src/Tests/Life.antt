-- ===== src/Tests/Life.antt =====
-- A server that answers from the third millisecond on, and is gone 50 milliseconds after that.
use Prim.Native.String.{◌++◌ as ◌<>◌}
use conmon_rs.Base.{
  ℕ, ◌+◌, ◌-◌, ◌*◌, ◌≡◌, refl, str_eq, String, List, false, ltb, leb, ◌==◌, none, [], ◌∷◌,
  if◌then◌else◌, arith, ◌⊎◌, inr,
}
use conmon_rs.Base.Results.{Error, external, esrch, eof, Result, ok, err, is_error}
use conmon_rs.Client.{ConmonClient}
use conmon_rs.Wire.{text}
use conmon_rs.Requests.Config.{CreateNamespacesConfig}
use conmon_rs.Requests.Metadata.{Injected}
use conmon_rs.Dial.{Sockets, dial_below, dial_long_socket}
use conmon_rs.Rpc.{dial, Host, Process, Method, invoke, place, on_connection}
use conmon_rs.Rpc.Methods.{VersionResponse, version_response, store_version, call_version}
use conmon_rs.Rpc.Connections.{Counts}
use conmon_rs.Attach.Readers.{shutdown_readers, close_each}
use conmon_rs.Requests.Fill.{fill_version}
use conmon_rs.Requests.Metadata.{set_metadata}
use conmon_rs.Server.{System, shutdown, wait_until_server_up, finish_new}
use conmon_rs.Server.Waiting.{
  gone_at, world_at_poll, shutdown_ok_iff, attempt, at_attempt, wait_until_server_up_ok_iff,
}
use conmon_rs.Server.Start.{finish_new_outcome}
use conmon_rs.Tests.Memory.{Memory, in_memory, new_message}

pub record Network : Type 0 where
  pub connections : ℕ
  pub clock : ℕ

abbrev answer : Memory
answer = record new_message { contents = λ p k. if k == 0 then text "0.4.9" else text "" }

abbrev pub dialed : Network → Result (Unit {0}) × Network
dialed w =
    if leb 3 w.clock
    then (ok tt, record w { connections = w.connections + 1 })
    else (err (external 7), w)

abbrev pub called : Result Memory → Network → Result Memory × Network
called (ok m) w = (ok answer, w)
called (err e) w = (err e, w)

-- Versions as numbers.
abbrev pub number : ℕ → ℕ → ℕ → ℕ
number a b c = a * 1000000 + b * 1000 + c

abbrev slashes : List String → String
slashes [] = ""
slashes (s ∷ []) = s
slashes (s ∷ t ∷ ts) = s <> ("/" <> slashes (t ∷ ts))

-- Every directory opens as descriptor 3.
abbrev pub files : Sockets Network (Unit {0})
files = record {
  File = Unit {0};
  open_file = λ path w. (ok tt, record w { connections = w.connections + 1 });
  fd = λ f. 3;
  close_file = λ f w. record w { connections = w.connections - 1 };
  dial_unix = λ network name w. dialed w;
  dir = λ path. "/run";
  base = λ path. path;
  join = slashes;
}

abbrev pub late_server : Host in_memory
late_server = record {
  World = Network;
  Conn = Unit {0};
  Results = Memory;
  SemVer = ℕ;
  sockets = files;
  close = λ conn w. record w { connections = w.connections - 1 };
  new_request = λ method. ok new_message;
  call = λ conn method request w. called request w;
  response = λ m. ok m;
  join_path = λ directory file. file;
  parse_semver = λ v. if str_eq v "0.4.9" then ok (number 0 4 9) else err (external 8);
  semver = number;
  semver_lt = ltb;
}

abbrev pub system : System Network
system = record {
  mkdir_all = λ path mode w. (ok tt, w);
  is_exist = λ e. false;
  look_path = λ file w. ok "/usr/bin/conmonrs";
  run_command = λ command w. (ok tt, w);
  read_file = λ file w. (ok (52 ∷ 50 ∷ []), w);
  remove = λ file w. (ok tt, w);
  kill = λ pid signal w. if leb 53 w.clock then (err esrch, w) else (ok tt, w);
  sleep = λ milliseconds w. record w { clock = w.clock + milliseconds };
  perform = λ effect w. w;
}

abbrev client : ConmonClient ℕ
client = record {
  server_pid = 42;
  run_dir = "/run";
  attach_readers = [];
  tracing_enabled = false;
  server_version = number 0 0 0;
  cgroup_manager = 0;
}

abbrev pub just_started : Network
just_started = record { connections = 0; clock = 0 }

abbrev pub process : Process in_memory late_server
process = record { client = client; world = just_started }

abbrev pub no_trace : Injected
no_trace = record { entries = []; marshalled = err eof }

shutdown_ok_iff_example : (shutdown in_memory late_server system client just_started).0 ≡ ok tt
unfolding gone_at world_at_poll shutdown_readers close_each is_error
shutdown_ok_iff_example =
    (shutdown_ok_iff in_memory late_server system client just_started).1
      (inr (refl, (1, omega arith, refl)))

-- What the server says of itself.
abbrev said : VersionResponse
said = record {
  process_id = 0;
  version = "0.4.9";
  tag = "";
  commit = "";
  build_date = "";
  target = "";
  rust_version = "";
  cargo_version = "";
  cargo_tree = "";
}

fourth_attempt : attempt in_memory late_server system no_trace 3 process ≡ ok said
unfolding attempt at_attempt call_version invoke dial dial_long_socket dial_below place
    on_connection fill_version set_metadata version_response store_version
fourth_attempt = refl

wait_until_server_up_ok_iff_example :
    (wait_until_server_up in_memory late_server system no_trace process).0 ≡ ok tt
wait_until_server_up_ok_iff_example =
    (wait_until_server_up_ok_iff in_memory late_server system no_trace process).1
      (3, omega arith, said, fourth_attempt)

finish_new_outcome_example :
    ((c : ConmonClient ℕ) × ((finish_new in_memory late_server system no_trace 77 process).0 ≡ ok c)
      × (c.server_pid ≡ 77))
    ⊎ ((e : Error) × ((finish_new in_memory late_server system no_trace 77 process).0 ≡ err e)
        × ((q : Process in_memory late_server) × (q.client.server_pid ≡ 77)
            × ((finish_new in_memory late_server system no_trace 77 process).1.world
                ≡ (shutdown in_memory late_server system q.client q.world).1)))
finish_new_outcome_example = finish_new_outcome in_memory late_server system no_trace 77 process

dialed_one : (w : Network) → (dialed w).0 ≡ ok tt → (dialed w).1.connections ≡ w.connections + 1
dialed_one w h = ground arith

dialed_none :
    (w : Network) {e : Error} → (dialed w).0 ≡ err e → (dialed w).1.connections ≡ w.connections
dialed_none w h = ground arith

called_same :
    (conn : Unit {0}) (method : Method) (r : Result Memory) (w : Network)
    → (called r w).1.connections ≡ w.connections
called_same conn method (ok m) w = refl
called_same conn method (err e) w = refl

pub counts : Counts in_memory late_server (λ w. w.connections)
counts = record {
  sockets = record {
    opens = λ path w f h. refl;
    opens_none = λ path w e h. cc;
    closes = λ f w. refl;
    dials = λ network name w conn h. dialed_one w h;
    dials_none = λ network name w e h. dialed_none w h;
  };
  closed = λ conn w. refl;
  called = called_same;
}

abbrev pub namespaces : CreateNamespacesConfig
namespaces = record { namespaces = 1 ∷ []; id_mappings = none; base_path = ""; pod_id = "pod" }
