-- ===== src/Application/Machine/Receives.antt =====
-- openscreen-application/src/lib.rs: what comes from the peer and from the network layer.
use openscreen_rs.Base.{
  ℕ, Option, none, some, List, [], ◌∷◌, Outcome, ok, err, panic, pure, raise, fault, ◌>>=◌, ◌>>◌,
  if◌then◌else◌,
}
use openscreen_rs.Deps.{Deps}
use openscreen_rs.Common.{MessageError, max_string_length}
use openscreen_rs.Network.{NetworkError, NetworkEvent, NetworkInput, NetworkOutput}
use openscreen_rs.Network.StateMachine.Spake2.{handle}
use openscreen_rs.Application.{
  ApplicationOutput, ApplicationEvent, ApplicationError, ApplicationState,
}
use openscreen_rs.Application.Enumerations.{PresentationResult}
use openscreen_rs.Application.Messages.{ApplicationMessage, Status}
use openscreen_rs.Application.Messages.Decode.Message.{decode_application_message}
use openscreen_rs.Application.Machine.{Handling, enter, emit_output}

-- `?` on the result of the network layer.
abbrev pub network_result :
    List NetworkOutput
    → Outcome NetworkError (Unit {0})
    → Outcome ApplicationError (List NetworkOutput)
network_result outputs (ok _) = ok outputs
network_result outputs (err e) = err (ApplicationError.network_error e)
network_result outputs panic = panic

module _ (d : Deps) where
  -- A new String<256>, and a push_str whose failure is ignored.
  abbrev pub string_of : List ℕ → List ℕ
  string_of text = (d.heapless.push_str max_string_length [] text).1

  abbrev pub status_string : Option Status → Option (List ℕ)
  status_string none = none
  status_string (some status) = some (string_of status.status)

  unfoldable pub report : ApplicationEvent → Handling (Unit {0})
  report happened = emit_output d (ApplicationOutput.event happened)

  unfoldable pub handle_start_result : PresentationResult → ℕ → Handling (Unit {0})
  handle_start_result PresentationResult.success connection_id = do
    enter ApplicationState.presenting
    report (ApplicationEvent.presentation_started connection_id)
  handle_start_result _ connection_id = report ApplicationEvent.presentation_rejected

  unfoldable pub handle_open_result : PresentationResult → ℕ → Handling (Unit {0})
  handle_open_result PresentationResult.success connection_id =
      report (ApplicationEvent.presentation_connection_opened connection_id)
  handle_open_result _ connection_id = pure tt

  -- `message_vec.extend_from_slice(…)` into a Vec<u8, 1024>
  unfoldable pub copy_message : List ℕ → Handling (List ℕ)
  copy_message message =
      let copied = d.heapless.extend_from_slice 1024 [] message in
      if copied.0 then pure copied.1 else raise ApplicationError.buffer_full

  unfoldable pub handle_application_message : ApplicationMessage → Handling (Unit {0})
  handle_application_message (ApplicationMessage.agent_info_response response) =
      report ApplicationEvent.agent_info_changed
  handle_application_message (ApplicationMessage.agent_status_response response) =
      report (ApplicationEvent.agent_status_received (status_string response.status))
  handle_application_message (ApplicationMessage.agent_info_event happened) =
      report ApplicationEvent.agent_info_changed
  handle_application_message (ApplicationMessage.presentation_start_response response) =
      handle_start_result response.result response.connection_id
  handle_application_message (ApplicationMessage.presentation_termination_event happened) = do
    enter ApplicationState.authenticated
    report (
        ApplicationEvent.presentation_terminated (string_of happened.presentation_id)
          happened.reason)
  handle_application_message (ApplicationMessage.presentation_connection_open_response response) =
      handle_open_result response.result response.connection_id
  handle_application_message (ApplicationMessage.presentation_connection_message msg) = do
    message_vec ← copy_message msg.message
    report (ApplicationEvent.presentation_message_received msg.connection_id message_vec)
  handle_application_message (ApplicationMessage.presentation_connection_close_event happened) =
      report
        (ApplicationEvent.presentation_connection_closed happened.connection_id happened.reason)
  handle_application_message (ApplicationMessage.presentation_change_event happened) =
      report ApplicationEvent.presentation_changed
  handle_application_message _ = pure tt

  -- `self.network.handle(&input, &mut network_outputs)?`
  unfoldable pub handle_in_network : NetworkInput → Handling (List NetworkOutput)
  handle_in_network input s =
      let handled = handle d s.machine.network input [] in
      (
        network_result handled.outputs handled.result,
        record s { machine = record s.machine { network = handled.machine } },
      )

  unfoldable pub convert_event : NetworkEvent → Handling (Unit {0})
  convert_event NetworkEvent.authenticated = do
    enter ApplicationState.authenticated
    report ApplicationEvent.authenticated
  convert_event (NetworkEvent.authentication_failed e) =
      report ApplicationEvent.authentication_failed

  -- One round of the loop over the outputs of the network layer.
  unfoldable pub convert_output : NetworkOutput → Handling (Unit {0})
  convert_output NetworkOutput.open_uni_stream = emit_output d ApplicationOutput.open_bi_stream
  convert_output (NetworkOutput.send_message msg) = pure tt
  convert_output (NetworkOutput.send_data bytes) = pure tt
  convert_output (NetworkOutput.close_stream stream) =
      emit_output d (ApplicationOutput.close_stream stream)
  convert_output NetworkOutput.close_connection = emit_output d ApplicationOutput.close_connection
  convert_output (NetworkOutput.request_crypto req) =
      emit_output d (ApplicationOutput.request_crypto req)
  convert_output NetworkOutput.needs_poll = emit_output d ApplicationOutput.needs_poll
  convert_output (NetworkOutput.event happened) = convert_event happened

  unfoldable pub convert_outputs : List NetworkOutput → Handling (Unit {0})
  convert_outputs [] = pure tt
  convert_outputs (output ∷ outputs) = do convert_output output; convert_outputs outputs

  unfoldable pub handle_network_event : NetworkInput → Handling (Unit {0})
  handle_network_event input = do
    network_outputs ← handle_in_network input
    convert_outputs network_outputs

  -- The branch on what ApplicationMessage::decode returned.
  unfoldable pub handle_decoded :
      ℕ → List ℕ → Outcome MessageError ApplicationMessage → Handling (Unit {0})
  handle_decoded stream bytes (ok app_msg) = handle_application_message app_msg
  handle_decoded stream bytes (err e) =
      handle_network_event (NetworkInput.data_received stream bytes)
  handle_decoded stream bytes panic = fault

  unfoldable pub handle_data_received : ℕ → List ℕ → Handling (Unit {0})
  handle_data_received stream bytes =
      handle_decoded stream bytes (decode_application_message d bytes)
