-- ===== src/Application/Machine/Delegates.antt =====
-- What the application machine does to the authentication below it: it runs it, on the inputs that it
-- passes on, and nothing else.
use openscreen_rs.Base.{
  ℕ, ◌≡◌, ◌∙◌, refl, ap, sym, true, false, Option, none, some, List, [], ◌∷◌, arith, Outcome, ok,
  err, panic, fault, lift, ◌>>=◌,
}
use openscreen_rs.Base.Keeps.{Keeps, Keeps-bind, Keeps-lift}
use openscreen_rs.Deps.{Deps, Laws}
use openscreen_rs.Common.{MessageError}
use openscreen_rs.Network.{NetworkInput, NetworkOutput}
use openscreen_rs.Network.CryptoData.{new as new_crypto_data}
use openscreen_rs.Network.StateMachine.Context.{State}
use openscreen_rs.Network.StateMachine.Spake2.{
  Spake2StateMachine, new as network_new, handle, is_authenticated as network_is_authenticated,
}
use openscreen_rs.Network.StateMachine.Spake2.Final.{run}
use openscreen_rs.Application.{
  ApplicationInput, ApplicationOutput, ApplicationError, ApplicationState,
}
use openscreen_rs.Application.Messages.{ApplicationMessage}
use openscreen_rs.Application.Messages.Decode.Message.{decode_application_message}
use openscreen_rs.Application.Machine.{
  ApplicationStateMachine, Held, application_is_authenticated, take_request_id, emit_output, enter,
  new_application,
}
use openscreen_rs.Application.Machine.Receives.{
  handle_in_network, convert_outputs, handle_network_event, handle_decoded, handle_data_received,
}
use openscreen_rs.Application.Machine.Input.{dispatch_input, handle_input, run_application}
use openscreen_rs.Application.Machine.Requests.{Command, input_of}
use openscreen_rs.Network.StateMachine.Spake2.Evidence.{
  authenticated_evidence, meets, is_empty_result, is_ok_status,
}
use openscreen_rs.Network.StateMachine.Spake2.Frame.{config, handle-config}
use openscreen_rs.Application.Machine.Frame.{message-Keeps, outputs-Keeps, command-Keeps}

-- The input that is passed on: bytes only where they are no application message.
abbrev pub undecoded : ℕ → List ℕ → Outcome MessageError ApplicationMessage → Option NetworkInput
undecoded stream bytes (err e) = some (NetworkInput.data_received stream bytes)
undecoded stream bytes _ = none

state_of :
    (n : Spake2StateMachine) → network_is_authenticated n ≡ true → n.state ≡ State.authenticated
state_of n h = ground arith

module _ (d : Deps) where
  abbrev pub delegated_input : ApplicationInput → Option NetworkInput
  delegated_input ApplicationInput.transport_connected = some NetworkInput.transport_connected
  delegated_input (ApplicationInput.stream_opened id) = some (NetworkInput.stream_opened id)
  delegated_input (ApplicationInput.stream_closed id) = some (NetworkInput.stream_closed id)
  delegated_input (ApplicationInput.data_received stream bytes) =
      undecoded stream bytes (decode_application_message d bytes)
  delegated_input (ApplicationInput.crypto_completed result) =
      some (NetworkInput.crypto_completed result)
  delegated_input (ApplicationInput.tick timestamp) = some (NetworkInput.tick timestamp)
  delegated_input _ = none

  abbrev pub prepend : Option NetworkInput → List NetworkInput → List NetworkInput
  prepend none inputs = inputs
  prepend (some input) inputs = input ∷ inputs

  unfoldable pub delegated : List ApplicationInput → List NetworkInput
  delegated [] = []
  delegated (input ∷ inputs) = prepend (delegated_input input) (delegated inputs)

  abbrev after_input : Spake2StateMachine → Option NetworkInput → Spake2StateMachine
  after_input n none = n
  after_input n (some input) = (handle d n input []).machine

  abbrev IsNetwork : Spake2StateMachine → Held → Type 0
  IsNetwork n s = s.machine.network ≡ n

  pushes :
      (n : Spake2StateMachine) (output : ApplicationOutput)
      → Keeps (IsNetwork n) (emit_output d output)
  unfolding emit_output
  pushes n output = record { at = λ s h. h }

  enters :
      (n : Spake2StateMachine) (app_state : ApplicationState)
      → Keeps (IsNetwork n) (enter app_state)
  unfolding enter
  enters n app_state = record { at = λ s h. h }

  takes : (n : Spake2StateMachine) → Keeps (IsNetwork n) take_request_id
  unfolding take_request_id
  takes n = record { at = λ s h. h }

  result-IsNetwork :
      (n : Spake2StateMachine) (result : Outcome ApplicationError (List NetworkOutput)) (s : Held)
      → IsNetwork n s
      → IsNetwork n ((lift result >>= convert_outputs d) s).1
  result-IsNetwork n result s h =
      (Keeps-bind (lift result) (convert_outputs d) (Keeps-lift result)
          (λ outputs. outputs-Keeps d (λ output other. pushes n output) (enters n) outputs)).at
        s h

  event-network :
      (input : NetworkInput) (s : Held)
      → (handle_network_event d input s).1.machine.network
        ≡ (handle d s.machine.network input []).machine
  unfolding handle_network_event handle_in_network lift ◌>>=◌
  event-network input s = result-IsNetwork (handle d s.machine.network input []).machine _ _ refl

  decoded-network :
      (stream : ℕ) (bytes : List ℕ) (r : Outcome MessageError ApplicationMessage) (s : Held)
      → (handle_decoded d stream bytes r s).1.machine.network
        ≡ after_input s.machine.network (undecoded stream bytes r)
  unfolding handle_decoded fault
  decoded-network stream bytes (ok msg) s =
      (message-Keeps d (λ output h. pushes _ output) (enters _) msg).at s refl
  decoded-network stream bytes (err e) s = event-network (NetworkInput.data_received stream bytes) s
  decoded-network stream bytes panic s = refl

  command-network :
      (c : Command) (s : Held)
      → (dispatch_input d (input_of c) s).1.machine.network ≡ s.machine.network
  command-network c s = (command-Keeps d (pushes _) (takes _) c).at s refl

  input-network :
      (m : ApplicationStateMachine) (input : ApplicationInput) (outputs : List ApplicationOutput)
      → (handle_input d m input outputs).1.machine.network
        ≡ after_input m.network (delegated_input input)
  unfolding handle_input dispatch_input handle_data_received
  input-network m (ApplicationInput.data_received stream bytes) outputs =
      decoded-network stream bytes (decode_application_message d bytes) _
  input-network m ApplicationInput.transport_connected outputs = event-network _ _
  input-network m (ApplicationInput.stream_opened id) outputs = event-network _ _
  input-network m (ApplicationInput.stream_closed id) outputs = event-network _ _
  input-network m (ApplicationInput.crypto_completed result) outputs = event-network _ _
  input-network m (ApplicationInput.tick timestamp) outputs = event-network _ _
  input-network m (ApplicationInput.start_presentation url presentation_id) outputs =
      command-network (Command.start url presentation_id) _
  input-network m (ApplicationInput.terminate_presentation presentation_id reason) outputs =
      command-network (Command.terminate presentation_id reason) _
  input-network m (ApplicationInput.check_url_availability urls watch_duration) outputs =
      command-network (Command.check urls watch_duration) _
  input-network m (ApplicationInput.open_presentation_connection presentation_id url) outputs =
      command-network (Command.open_connection presentation_id url) _
  input-network m (ApplicationInput.send_presentation_message connection_id message) outputs =
      command-network (Command.send_message connection_id message) _
  input-network m (ApplicationInput.close_presentation_connection connection_id reason) outputs =
      command-network (Command.close connection_id reason) _
  input-network m (ApplicationInput.request_agent_status status_message) outputs =
      command-network (Command.ask_status status_message) _
  input-network m ApplicationInput.request_agent_info outputs = command-network Command.ask_info _

  run-prepend :
      (n : Spake2StateMachine) (input : Option NetworkInput) (inputs : List NetworkInput)
      → run d n (prepend input inputs) ≡ run d (after_input n input) inputs
  unfolding run
  run-prepend n none inputs = refl
  run-prepend n (some input) inputs = refl

  -- The authentication inside an application machine goes through the states that the network's own
  -- machine goes through on the inputs passed on: the transport, crypto and time inputs, and the bytes
  -- that are no application message. Commands and application messages do not touch it.
  pub application_refines :
      (m : ApplicationStateMachine) (inputs : List ApplicationInput)
      → (run_application d m inputs).network ≡ run d m.network (delegated inputs)
  unfolding run_application delegated run
  application_refines m [] = refl
  application_refines m (input ∷ inputs) =
      application_refines (handle_input d m input []).1.machine inputs
      ∙ ap (λ n. run d n (delegated inputs)) (input-network m input [])
      ∙ sym (run-prepend m.network (delegated_input input) (delegated inputs))

  -- An application machine that reports that it is authenticated has passed on to the network's
  -- machine an empty crypto result when that was in Computing, and a status message that says Ok when
  -- it was in AwaitingStatus.
  pub application_evidence :
      (inputs : List ApplicationInput)
      → application_is_authenticated (run_application d new_application inputs) ≡ true
      → (meets d is_empty_result (network_new new_crypto_data) (delegated inputs) ≡ true)
        × (meets d (is_ok_status d) (network_new new_crypto_data) (delegated inputs) ≡ true)
  application_evidence inputs h = authenticated_evidence d new_crypto_data (delegated inputs) (
      state_of (run d (network_new new_crypto_data) (delegated inputs))
        (ap network_is_authenticated (sym (application_refines new_application inputs)) ∙ h))

module _ (d : Deps) (laws : Laws d) where
  run-config :
      (n : Spake2StateMachine) (inputs : List NetworkInput)
      → config (run d n inputs).crypto_data ≡ config n.crypto_data
  unfolding run
  run-config n [] = refl
  run-config n (input ∷ inputs) =
      run-config (handle d n input []).machine inputs ∙ handle-config d laws n input []

  -- Whatever comes in, an application machine authenticates as the initiator, under an empty password
  -- and empty fingerprints: nothing sets them after ApplicationStateMachine::new.
  pub empty_password :
      (inputs : List ApplicationInput)
      → let c = (run_application d new_application inputs).network.crypto_data in
        (c.psk ≡ [])
        × (c.my_fingerprint ≡ [])
        × (c.peer_fingerprint ≡ [])
        × (c.is_responder ≡ false)
  empty_password inputs =
      let e : config (run_application d new_application inputs).network.crypto_data
          ≡ config new_crypto_data =
        ap (λ n. config n.crypto_data) (application_refines d new_application inputs)
        ∙ run-config (network_new new_crypto_data) (delegated d inputs) in
      (
        ap (λ c. c.psk) e,
        ap (λ c. c.my_fingerprint) e,
        ap (λ c. c.peer_fingerprint) e,
        ap (λ c. c.is_responder) e,
      )
