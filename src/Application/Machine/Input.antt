-- ===== src/Application/Machine/Input.antt =====
-- openscreen-application/src/lib.rs: handle_input.
use openscreen_rs.Base.{List, [], ◌∷◌, Outcome}
use openscreen_rs.Deps.{Deps}
use openscreen_rs.Network.{NetworkInput}
use openscreen_rs.Application.{ApplicationInput, ApplicationOutput, ApplicationError}
use openscreen_rs.Application.Machine.{ApplicationStateMachine, Held, Handling}
use openscreen_rs.Application.Machine.Commands.{
  handle_start_presentation, handle_terminate_presentation, handle_check_url_availability,
  handle_open_presentation_connection, handle_send_presentation_message,
  handle_close_presentation_connection, handle_request_agent_status, handle_request_agent_info,
}
use openscreen_rs.Application.Machine.Receives.{handle_network_event, handle_data_received}

module _ (d : Deps) where
  -- The match on the input.
  unfoldable pub dispatch_input : ApplicationInput → Handling (Unit {0})
  dispatch_input (ApplicationInput.start_presentation url presentation_id) =
      handle_start_presentation d url presentation_id
  dispatch_input (ApplicationInput.terminate_presentation presentation_id reason) =
      handle_terminate_presentation d presentation_id reason
  dispatch_input (ApplicationInput.check_url_availability urls watch_duration) =
      handle_check_url_availability d urls watch_duration
  dispatch_input (ApplicationInput.open_presentation_connection presentation_id url) =
      handle_open_presentation_connection d presentation_id url
  dispatch_input (ApplicationInput.send_presentation_message connection_id message) =
      handle_send_presentation_message d connection_id message
  dispatch_input (ApplicationInput.close_presentation_connection connection_id reason) =
      handle_close_presentation_connection d connection_id reason
  dispatch_input (ApplicationInput.request_agent_status status_message) =
      handle_request_agent_status d status_message
  dispatch_input ApplicationInput.request_agent_info = handle_request_agent_info d
  dispatch_input ApplicationInput.transport_connected =
      handle_network_event d NetworkInput.transport_connected
  dispatch_input (ApplicationInput.stream_opened id) =
      handle_network_event d (NetworkInput.stream_opened id)
  dispatch_input (ApplicationInput.stream_closed id) =
      handle_network_event d (NetworkInput.stream_closed id)
  dispatch_input (ApplicationInput.data_received stream bytes) = handle_data_received d stream bytes
  dispatch_input (ApplicationInput.crypto_completed result) =
      handle_network_event d (NetworkInput.crypto_completed result)
  dispatch_input (ApplicationInput.tick timestamp) =
      handle_network_event d (NetworkInput.tick timestamp)

  -- The outputs are cleared first, whatever the caller left in the vector.
  unfoldable pub handle_input :
      ApplicationStateMachine
      → ApplicationInput
      → List ApplicationOutput
      → Outcome ApplicationError (Unit {0}) × Held
  handle_input m input outputs = dispatch_input input (record { machine = m; outputs = [] })

  -- Calls of handle_input in a row.
  unfoldable pub run_application :
      ApplicationStateMachine → List ApplicationInput → ApplicationStateMachine
  run_application m [] = m
  run_application m (input ∷ inputs) = run_application (handle_input m input []).1.machine inputs
