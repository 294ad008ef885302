-- ===== src/Application/Machine/Presents.antt =====
-- What a message from the peer does to the application state.
use openscreen_rs.Base.{ℕ, ◌≡◌, List, [], ◌∷◌, arith, ok, ◌>>=◌}
use openscreen_rs.Deps.{Deps, Laws}
use openscreen_rs.Application.{
  ApplicationInput, ApplicationOutput, ApplicationEvent, ApplicationState, max_application_queue,
}
use openscreen_rs.Application.Enumerations.{PresentationResult}
use openscreen_rs.Application.Messages.{ApplicationMessage, PresentationStartResponse}
use openscreen_rs.Application.Messages.Decode.Message.{decode_application_message}
use openscreen_rs.Application.Machine.{ApplicationStateMachine, emit_output, enter}
use openscreen_rs.Application.Machine.Receives.{
  report, handle_start_result, handle_application_message, handle_decoded, handle_data_received,
}
use openscreen_rs.Application.Machine.Input.{dispatch_input, handle_input}

module _ (d : Deps) (laws : Laws d) where
  -- Bytes that decode to a PresentationStartResponse with the result Success bring the machine to
  -- Presenting and report PresentationStarted with the id of the connection, whatever the state of
  -- the authentication below, authenticated or not, and whether or not a presentation was asked for.
  pub unauthenticated_start :
      (m : ApplicationStateMachine) (stream : ℕ) (bytes : List ℕ) (outputs : List ApplicationOutput)
      (response : PresentationStartResponse)
      → decode_application_message d bytes
        ≡ ok (ApplicationMessage.presentation_start_response response)
      → response.result ≡ PresentationResult.success
      → handle_input d m (ApplicationInput.data_received stream bytes) outputs ≡ (
        ok tt,
        record {
          machine = record m { app_state = ApplicationState.presenting };
          outputs =
              ApplicationOutput.event (ApplicationEvent.presentation_started response.connection_id)
              ∷ [];
        },
      )
  unfolding handle_input dispatch_input handle_data_received handle_decoded
      handle_application_message handle_start_result enter report emit_output ◌>>=◌
  unauthenticated_start m stream bytes outputs response decoded success_of = rw decoded (
      rw success_of (
        rw (
          laws.heapless.push_fits max_application_queue []
            (ApplicationOutput.event (ApplicationEvent.presentation_started response.connection_id))
            (omega arith))))
