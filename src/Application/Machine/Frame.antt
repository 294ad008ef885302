-- ===== src/Application/Machine/Frame.antt =====
-- What the handlers of the application machine keep: a property that an output and a change of the
-- application state keep.
use openscreen_rs.Base.{ℕ, ◌≡◌, false, List, [], ◌∷◌, Outcome, ok, err, panic}
use openscreen_rs.Base.Keeps.{
  Keeps, keeps_rules, Keeps-pure, Keeps-bind, Keeps-if, Keeps-raise, Keeps-fault,
}
use openscreen_rs.Deps.{Deps}
use openscreen_rs.Common.{MessageError}
use openscreen_rs.Network.{NetworkEvent, NetworkInput, NetworkOutput}
use openscreen_rs.Application.{ApplicationOutput, ApplicationEvent, ApplicationState}
use openscreen_rs.Application.Enumerations.{PresentationResult}
use openscreen_rs.Application.Messages.{ApplicationMessage}
use openscreen_rs.Application.Machine.{
  Held, authenticated_only, take_request_id, encode_request, emit_output, send, enter,
}
use openscreen_rs.Application.Machine.Commands.{
  collect_urls, handle_start_presentation, handle_terminate_presentation,
  handle_check_url_availability, handle_open_presentation_connection,
  handle_send_presentation_message, handle_close_presentation_connection,
  handle_request_agent_status, handle_request_agent_info,
}
use openscreen_rs.Application.Machine.Receives.{
  report, handle_start_result, handle_open_result, copy_message, handle_application_message,
  handle_in_network, convert_event, convert_output, convert_outputs, handle_network_event,
  handle_decoded, handle_data_received,
}
use openscreen_rs.Application.Machine.Input.{dispatch_input}
use openscreen_rs.Application.Machine.Requests.{Command, input_of, is_numbered}

abbrev pub IsOther : ApplicationOutput → Type 0
IsOther (ApplicationOutput.send_data stream bytes) = ⊥
IsOther _ = Unit {0}

module _ (d : Deps) {I : Held → Type 0}
    (pushes : (output : ApplicationOutput) → IsOther output → Keeps I (emit_output d output))
    (enters : (app_state : ApplicationState) → Keeps I (enter app_state)) where
  report-Keeps : (happened : ApplicationEvent) → Keeps I (report d happened)
  unfolding report
  report-Keeps happened = pushes _ tt

  start_result-Keeps :
      (result : PresentationResult) (connection_id : ℕ)
      → Keeps I (handle_start_result d result connection_id)
  unfolding handle_start_result
  start_result-Keeps PresentationResult.success connection_id =
      search (keeps_rules, enters, report-Keeps)
  start_result-Keeps _ connection_id = report-Keeps _

  open_result-Keeps :
      (result : PresentationResult) (connection_id : ℕ)
      → Keeps I (handle_open_result d result connection_id)
  unfolding handle_open_result
  open_result-Keeps PresentationResult.success connection_id = report-Keeps _
  open_result-Keeps _ connection_id = Keeps-pure tt

  copy-Keeps : (message : List ℕ) → Keeps I (copy_message d message)
  unfolding copy_message
  copy-Keeps message = Keeps-if _ _ _ (Keeps-pure _) (Keeps-raise _)

  -- A message from the peer.
  pub message-Keeps : (msg : ApplicationMessage) → Keeps I (handle_application_message d msg)
  unfolding handle_application_message
  message-Keeps (ApplicationMessage.agent_info_response response) = report-Keeps _
  message-Keeps (ApplicationMessage.agent_status_response response) = report-Keeps _
  message-Keeps (ApplicationMessage.agent_info_event happened) = report-Keeps _
  message-Keeps (ApplicationMessage.presentation_start_response response) = start_result-Keeps _ _
  message-Keeps (ApplicationMessage.presentation_termination_event happened) =
      Keeps-bind _ _ (enters _) (λ _. report-Keeps _)
  message-Keeps (ApplicationMessage.presentation_connection_open_response response) =
      open_result-Keeps _ _
  message-Keeps (ApplicationMessage.presentation_connection_message msg) =
      Keeps-bind _ _ (copy-Keeps _) (λ message_vec. report-Keeps _)
  message-Keeps (ApplicationMessage.presentation_connection_close_event happened) = report-Keeps _
  message-Keeps (ApplicationMessage.presentation_change_event happened) = report-Keeps _
  message-Keeps _ = Keeps-pure tt

  event-Keeps : (happened : NetworkEvent) → Keeps I (convert_event d happened)
  unfolding convert_event
  event-Keeps NetworkEvent.authenticated = search (keeps_rules, enters, report-Keeps)
  event-Keeps (NetworkEvent.authentication_failed e) = report-Keeps _

  output-Keeps : (output : NetworkOutput) → Keeps I (convert_output d output)
  unfolding convert_output
  output-Keeps (NetworkOutput.send_message msg) = Keeps-pure tt
  output-Keeps (NetworkOutput.send_data bytes) = Keeps-pure tt
  output-Keeps (NetworkOutput.event happened) = event-Keeps happened
  output-Keeps _ = pushes _ tt

  -- The outputs of the network layer.
  pub outputs-Keeps : (outputs : List NetworkOutput) → Keeps I (convert_outputs d outputs)
  unfolding convert_outputs
  outputs-Keeps [] = Keeps-pure tt
  outputs-Keeps (output ∷ outputs) =
      Keeps-bind _ _ (output-Keeps output) (λ _. outputs-Keeps outputs)

module _ (d : Deps) {I : Held → Type 0}
    (pushes : (output : ApplicationOutput) → IsOther output → Keeps I (emit_output d output))
    (enters : (app_state : ApplicationState) → Keeps I (enter app_state))
    (hands : (input : NetworkInput) → Keeps I (handle_in_network d input)) where
  -- An input that is passed on, and bytes from the peer.
  pub network-Keeps : (input : NetworkInput) → Keeps I (handle_network_event d input)
  unfolding handle_network_event
  network-Keeps input =
      Keeps-bind _ _ (hands input) (λ outputs. outputs-Keeps d pushes enters outputs)

  decoded-Keeps :
      (stream : ℕ) (bytes : List ℕ) (r : Outcome MessageError ApplicationMessage)
      → Keeps I (handle_decoded d stream bytes r)
  unfolding handle_decoded
  decoded-Keeps stream bytes (ok msg) = message-Keeps d pushes enters msg
  decoded-Keeps stream bytes (err e) = network-Keeps _
  decoded-Keeps stream bytes panic = Keeps-fault

  pub data-Keeps : (stream : ℕ) (bytes : List ℕ) → Keeps I (handle_data_received d stream bytes)
  unfolding handle_data_received
  data-Keeps stream bytes = decoded-Keeps stream bytes _

gate-Keeps : {I : Held → Type 0} → Keeps I authenticated_only
unfolding authenticated_only
gate-Keeps = search keeps_rules

module _ (d : Deps) {I : Held → Type 0}
    (pushes : (output : ApplicationOutput) → Keeps I (emit_output d output)) where
  encode-Keeps : (msg : ApplicationMessage) → Keeps I (encode_request d msg)
  unfolding encode_request
  encode-Keeps msg = record { at = λ s h. h }

  pub send-Keeps : (msg : ApplicationMessage) → Keeps I (send d msg)
  unfolding send
  send-Keeps msg = search (keeps_rules, encode-Keeps, pushes)

  pub collect-Keeps : (urls acc : List (List ℕ)) → Keeps I (collect_urls d urls acc)
  unfolding collect_urls
  collect-Keeps [] acc = Keeps-pure acc
  collect-Keeps (url ∷ urls) acc = Keeps-if _ _ _ (collect-Keeps urls _) (Keeps-raise _)

  -- A command of the user that takes no request id, and any command.
  pub unnumbered-Keeps :
      (c : Command) → is_numbered c ≡ false → Keeps I (dispatch_input d (input_of c))
  unfolding dispatch_input handle_send_presentation_message handle_close_presentation_connection
  unnumbered-Keeps (Command.send_message connection_id message) h =
      search (keeps_rules, gate-Keeps, send-Keeps)
  unnumbered-Keeps (Command.close connection_id reason) h =
      search (keeps_rules, gate-Keeps, send-Keeps)
  unnumbered-Keeps _ h = cc

  pub command-Keeps :
      Keeps I take_request_id → (c : Command) → Keeps I (dispatch_input d (input_of c))
  unfolding dispatch_input handle_start_presentation handle_terminate_presentation
      handle_check_url_availability handle_open_presentation_connection
      handle_send_presentation_message handle_close_presentation_connection
      handle_request_agent_status handle_request_agent_info
  command-Keeps takes (Command.check urls watch_duration) = Keeps-bind _ _ gate-Keeps (λ _.
      Keeps-bind _ _ takes
        (λ request_id. Keeps-bind _ _ (collect-Keeps urls []) (λ url_vec. send-Keeps _)))
  command-Keeps takes (Command.send_message connection_id message) =
      Keeps-bind _ _ gate-Keeps (λ _. send-Keeps _)
  command-Keeps takes (Command.close connection_id reason) =
      Keeps-bind _ _ gate-Keeps (λ _. send-Keeps _)
  command-Keeps takes _ =
      Keeps-bind _ _ gate-Keeps (λ _. Keeps-bind _ _ takes (λ request_id. send-Keeps _))
