-- ===== src/Tests/Small.antt =====
-- Calls with few fields that succeed.
use conmon_rs.Base.{◌≡◌, refl, none, some}
use conmon_rs.Base.Results.{ok}
use conmon_rs.Attach.Session.{
  Surroundings, from_output, attach, pre_attach, attach_streams, setup_stdio_channels, read_stdio,
  output_result,
}
use conmon_rs.Dial.{dial_below, dial_long_socket}
use conmon_rs.Requests.Config.{SetWindowSizeContainerConfig}
use conmon_rs.Requests.Metadata.{set_metadata}
use conmon_rs.Requests.Fill.{fill_attach, fill_set_window_size}
use conmon_rs.Rpc.{dial, invoke, place, on_connection}
use conmon_rs.Rpc.Methods.{no_response, call_set_window_size_container}
use conmon_rs.Rpc.Attach.{run_session, run_dialed, run_attach, call_attach_container}
use conmon_rs.Tests.Memory.{in_memory}
use conmon_rs.Tests.Sessions.{session, broken}
use conmon_rs.Tests.Life.{late_server, no_trace}
use conmon_rs.Tests.Balance.{running}

-- The output ends without an error.
abbrev quiet_end : Surroundings
quiet_end = record broken { message = from_output none }

attached_lem :
    (call_attach_container in_memory late_server (λ es w. w) no_trace session quiet_end running).0
    ≡ ok tt
unfolding call_attach_container invoke dial dial_long_socket dial_below place on_connection
    fill_attach set_metadata run_attach run_dialed run_session attach pre_attach attach_streams
    setup_stdio_channels read_stdio output_result
attached_lem = refl

abbrev window : SetWindowSizeContainerConfig
window = record { id = "ctr"; size = some (record { width = 80; height = 24 }) }

resized_lem :
    (call_set_window_size_container in_memory late_server no_trace window running).0 ≡ ok tt
unfolding call_set_window_size_container invoke dial dial_long_socket dial_below place on_connection
    fill_set_window_size set_metadata no_response
resized_lem = refl
