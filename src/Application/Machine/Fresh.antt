-- ===== src/Application/Machine/Fresh.antt =====
-- The request ids in the messages that the application machine sends.
use openscreen_rs.Base.{
  ℕ, ◌<◌, ◌^◌, ◌≤◌, ◌≡◌, ◌≢◌, refl, true, Option, none, some, List, [], ◌∷◌, length, arith, Outcome,
  ok, err, panic,
}
use openscreen_rs.Deps.{Deps, Laws}
use openscreen_rs.Common.{MessageError, max_cbor_size}
use openscreen_rs.Application.{ApplicationInput, ApplicationOutput}
use openscreen_rs.Application.Messages.{ApplicationMessage}
use openscreen_rs.Application.Messages.Decode.Message.{decode_application_message}
use openscreen_rs.Application.Messages.Sizes.{IsDecodable}
use openscreen_rs.Application.Messages.Wire.Message.{application_wire}
use openscreen_rs.Application.Machine.{ApplicationStateMachine, application_is_authenticated}
use openscreen_rs.Application.Machine.Input.{handle_input, run_application}
use openscreen_rs.Application.Machine.Requests.{Command, input_of, request_of, is_numbered}
use openscreen_rs.Application.Machine.Sending.{command_sends}
use openscreen_rs.Application.Machine.Ids.{takes_id, issued, next_id-differs}

-- The request id of a request.
abbrev pub request_id_of : ApplicationMessage → Option ℕ
request_id_of (ApplicationMessage.presentation_start_request msg) = some msg.request_id
request_id_of (ApplicationMessage.presentation_termination_request msg) = some msg.request_id
request_id_of (ApplicationMessage.presentation_url_availability_request msg) = some msg.request_id
request_id_of (ApplicationMessage.presentation_connection_open_request msg) = some msg.request_id
request_id_of (ApplicationMessage.agent_status_request msg) = some msg.request_id
request_id_of (ApplicationMessage.agent_info_request msg) = some msg.request_id
request_id_of _ = none

abbrev id_in : Outcome MessageError ApplicationMessage → Option ℕ
id_in (ok msg) = request_id_of msg
id_in (err e) = none
id_in panic = none

-- The request id that a peer reads from the first SendData.
abbrev pub sent_id : Deps → List ApplicationOutput → Option ℕ
sent_id d [] = none
sent_id d (ApplicationOutput.send_data stream bytes ∷ outputs) =
    id_in (decode_application_message d bytes)
sent_id d (output ∷ outputs) = sent_id d outputs

request_id_of-request_of :
    (c : Command) (id : ℕ) → is_numbered c ≡ true → request_id_of (request_of c id) ≡ some id
request_id_of-request_of (Command.send_message connection_id message) id h = cc
request_id_of-request_of (Command.close connection_id reason) id h = cc
request_id_of-request_of (Command.start url presentation_id) id h = refl
request_id_of-request_of (Command.terminate presentation_id reason) id h = refl
request_id_of-request_of (Command.check urls watch_duration) id h = refl
request_id_of-request_of (Command.open_connection presentation_id url) id h = refl
request_id_of-request_of (Command.ask_status status_message) id h = refl
request_id_of-request_of Command.ask_info id h = refl

takes_id-input_of : (c : Command) → takes_id (input_of c) ≡ is_numbered c
takes_id-input_of (Command.start url presentation_id) = refl
takes_id-input_of (Command.terminate presentation_id reason) = refl
takes_id-input_of (Command.check urls watch_duration) = refl
takes_id-input_of (Command.open_connection presentation_id url) = refl
takes_id-input_of (Command.send_message connection_id message) = refl
takes_id-input_of (Command.close connection_id reason) = refl
takes_id-input_of (Command.ask_status status_message) = refl
takes_id-input_of Command.ask_info = refl

module _ (d : Deps) (laws : Laws d) where
  sends_id :
      (m : ApplicationStateMachine) (c : Command)
      → application_is_authenticated m ≡ true
      → is_numbered c ≡ true
      → IsDecodable (request_of c m.next_request_id)
      → length (application_wire d (request_of c m.next_request_id)) ≤ max_cbor_size
      → sent_id d (handle_input d m (input_of c) []).1.outputs ≡ some m.next_request_id
  sends_id m c h numbered small room =
      let sends = command_sends d laws m c [] h small room in
      rw (sends.0, sends.1) (request_id_of-request_of c m.next_request_id numbered)

  takes_one :
      (m : ApplicationStateMachine) (c : Command) (inputs : List ApplicationInput)
      → application_is_authenticated m ≡ true
      → is_numbered c ≡ true
      → 0 < issued d m (input_of c ∷ inputs)
  unfolding issued
  takes_one m c inputs h numbered = rw (takes_id-input_of c, numbered, h) (omega arith)

  -- Let an authenticated machine be given a command whose message carries a request id, then any
  -- inputs, after which it is authenticated, and then another such command, with fewer than 2^64 ids
  -- taken from the first command on and before the second. Where both messages are of the sizes that
  -- a decoder accepts and of at most 1024 bytes, the ids that a peer reads from what is sent differ.
  pub fresh_ids :
      (m : ApplicationStateMachine) (c c' : Command) (between : List ApplicationInput)
      → let after = run_application d m (input_of c ∷ between) in
        m.next_request_id < 2 ^ 64
        → application_is_authenticated m ≡ true
        → application_is_authenticated after ≡ true
        → is_numbered c ≡ true
        → is_numbered c' ≡ true
        → IsDecodable (request_of c m.next_request_id)
        → length (application_wire d (request_of c m.next_request_id)) ≤ max_cbor_size
        → IsDecodable (request_of c' after.next_request_id)
        → length (application_wire d (request_of c' after.next_request_id)) ≤ max_cbor_size
        → issued d m (input_of c ∷ between) < 2 ^ 64
        → (id : ℕ) × (id' : ℕ) × (sent_id d (handle_input d m (input_of c) []).1.outputs ≡ some id)
          × (sent_id d (handle_input d after (input_of c') []).1.outputs ≡ some id')
          × (id' ≢ id)
  fresh_ids m c c' between below h h' numbered numbered' small room small' room' few =
      let after = run_application d m (input_of c ∷ between) in
      (
        m.next_request_id,
        after.next_request_id,
        sends_id m c h numbered small room,
        sends_id after c' h' numbered' small' room',
        next_id-differs d m (input_of c ∷ between) below (takes_one m c between h numbered) few,
      )
