-- ===== src/Examples/Applications.antt =====
-- The application machine and its messages, on concrete inputs.
use openscreen_rs.Base.{
  ap, some, ℕ, ◌+◌, ◌≤◌, ◌<◌, ◌≡◌, ◌≢◌, ◌⊎◌, refl, true, none, List, [], ◌∷◌, append-nil, Each,
  length, arith, ok, err, flatten, is_utf8, false,
}
use openscreen_rs.Base.Safe.{IsSafe}
use openscreen_rs.Network.CryptoData.{new as new_crypto_data}
use openscreen_rs.Network.StateMachine.Context.{State}
use openscreen_rs.Network.StateMachine.Spake2.{new as network_new}
use openscreen_rs.Network.StateMachine.Spake2.Final.{run}
use openscreen_rs.Application.{
  ApplicationInput, ApplicationOutput, ApplicationEvent, ApplicationError, ApplicationState,
}
use openscreen_rs.Application.Enumerations.{AgentCapability, PresentationResult}
use openscreen_rs.Application.Messages.{AgentInfo, ApplicationMessage, PresentationStartResponse}
use openscreen_rs.Application.Messages.Encode.Message.{encode_application_message}
use openscreen_rs.Application.Messages.Decode.Message.{decode_application_message}
use openscreen_rs.Application.Messages.Sizes.{IsDecodable}
use openscreen_rs.Application.Messages.Wire.Message.{application_wire, application_exact}
use openscreen_rs.Application.Messages.RoundTrip.{application-wire, application-encode}
use openscreen_rs.Application.Messages.Safe.Message.{decode_application-IsSafe}
use openscreen_rs.Network.Messages.Codec.Writes.{IsErr}
use openscreen_rs.Application.Machine.{ApplicationStateMachine, new_application}
use openscreen_rs.Application.Machine.Input.{handle_input, run_application}
use openscreen_rs.Application.Machine.Requests.{Command, input_of, request_of}
use openscreen_rs.Application.Machine.Gate.{not_authenticated, advance}
use openscreen_rs.Application.Machine.Sending.{command_sends}
use openscreen_rs.Application.Machine.Frame.{IsOther}
use openscreen_rs.Application.Machine.Delegates.{delegated, application_refines, empty_password}
use openscreen_rs.Application.Machine.Ids.{issued}
use openscreen_rs.Application.Machine.Fresh.{fresh_ids, sent_id}
use openscreen_rs.Application.Machine.Outputs.{nothing_sent}
use openscreen_rs.Application.Machine.Presents.{unauthenticated_start}
use openscreen_rs.Examples.Crates.{crates, crates-Laws, head, word, long}

abbrev info : AgentInfo
info = record {
  display_name = 84 ∷ 86 ∷ [];
  model_name = 77 ∷ [];
  capabilities = AgentCapability.receive_video ∷ AgentCapability.send_streaming ∷ [];
  state_token = 97 ∷ [];
  locales = (101 ∷ 110 ∷ []) ∷ [];
}

abbrev response : ApplicationMessage
response =
    ApplicationMessage.agent_info_response (record { request_id = 5000000000; agent_info = info })

response-IsDecodable : IsDecodable response
unfolding is_utf8
response-IsDecodable = (
  omega arith,
  (
    (refl, omega arith),
    (refl, omega arith),
    omega arith,
    (refl, omega arith),
    omega arith,
    ((refl, omega arith), tt),
  ),
)

abbrev started : PresentationStartResponse
started = record {
  request_id = 1;
  result = PresentationResult.success;
  connection_id = 7;
  http_response_code = none;
}

abbrev started_bytes : List ℕ
started_bytes = application_wire crates (ApplicationMessage.presentation_start_response started)

-- A machine whose authentication is done.
abbrev ready : ApplicationStateMachine
ready = record {
  network = record { state = State.authenticated; crypto_data = new_crypto_data };
  app_state = ApplicationState.authenticated;
  next_request_id = 41;
}

abbrev start : Command
start = Command.start (104 ∷ 58 ∷ []) (112 ∷ 49 ∷ [])

start-IsDecodable : IsDecodable (request_of start 41)
unfolding is_utf8
start-IsDecodable = (omega arith, (refl, omega arith), (refl, omega arith), omega arith, tt)

-- The type key 104, then the map of the four fields.
start_bytes :
    application_wire crates (request_of start 41)
    ≡ 0x40 ∷ 104 ∷ 0xA4 ∷ 0 ∷ 0x18 ∷ 41 ∷ 1 ∷ 0x62 ∷ 112 ∷ 49 ∷ 2 ∷ 0x62 ∷ 104 ∷ 58 ∷ 3 ∷ 0x80 ∷ []
unfolding head word long flatten
start_bytes = refl

room : length (application_wire crates response) ≤ 256
unfolding head word long flatten
room = omega arith

start_room : length (application_wire crates (request_of start 41)) ≤ 1024
unfolding head word long flatten
start_room = omega arith

started_decoded :
    decode_application_message crates started_bytes
    ≡ ok (ApplicationMessage.presentation_start_response started)
started_decoded = rw append-nil at (
    application-wire crates crates-Laws (ApplicationMessage.presentation_start_response started) []
      (omega arith, omega arith, tt))

application-encode_example :
    ((encode_application_message crates 256 response []).0 ≡ ok tt)
    × (decode_application_message crates (encode_application_message crates 256 response []).1
        ≡ ok response)
application-encode_example =
    application-encode crates crates-Laws 256 response response-IsDecodable room

application_exact_example :
    (0 + length (application_wire crates response) ≤ 10)
      × (encode_application_message crates 10 response []
          ≡ (ok tt, application_wire crates response))
    ⊎ (10 < 0 + length (application_wire crates response))
      × IsErr (encode_application_message crates 10 response []).0
application_exact_example = application_exact crates crates-Laws 10 response [] (omega arith)

decode_application-IsSafe_example :
    IsSafe (decode_application_message crates (0x40 ∷ 104 ∷ 0xFF ∷ []))
decode_application-IsSafe_example = decode_application-IsSafe crates (0x40 ∷ 104 ∷ 0xFF ∷ [])

not_authenticated_example :
    handle_input crates new_application (input_of start) (ApplicationOutput.needs_poll ∷ [])
    ≡ (err ApplicationError.not_authenticated, record { machine = new_application; outputs = [] })
not_authenticated_example =
    not_authenticated crates new_application start (ApplicationOutput.needs_poll ∷ []) refl

command_sends_example :
    let bytes = application_wire crates (request_of start 41) in
    (handle_input crates ready (input_of start) [] ≡ (
      ok tt,
      record { machine = advance true ready; outputs = ApplicationOutput.send_data 0 bytes ∷ [] },
    ))
    × (decode_application_message crates bytes ≡ ok (request_of start 41))
command_sends_example =
    command_sends crates crates-Laws ready start [] refl start-IsDecodable start_room

abbrev inputs : List ApplicationInput
inputs =
    ApplicationInput.transport_connected
    ∷ input_of start
    ∷ ApplicationInput.data_received 0 (0 ∷ [])
    ∷ []

application_refines_example :
    (run_application crates new_application inputs).network
    ≡ run crates (network_new new_crypto_data) (delegated crates inputs)
application_refines_example = application_refines crates new_application inputs

empty_password_example :
    let c = (run_application crates new_application inputs).network.crypto_data in
    (c.psk ≡ []) × (c.my_fingerprint ≡ []) × (c.peer_fingerprint ≡ []) × (c.is_responder ≡ false)
empty_password_example = empty_password crates crates-Laws inputs

one_issued : issued crates ready (input_of start ∷ []) ≡ 1
unfolding issued
one_issued = refl

abbrev later : ApplicationStateMachine
later = run_application crates ready (input_of start ∷ [])

later_lem : later ≡ advance true ready
unfolding run_application
later_lem = ap (λ done. done.1.machine) command_sends_example.0

info_room : length (application_wire crates (request_of Command.ask_info 42)) ≤ 1024
unfolding head word long flatten
info_room = omega arith

fresh_ids_example :
    (id : ℕ) × (id' : ℕ) × (sent_id crates (handle_input crates ready (input_of start) []).1.outputs
      ≡ some id)
    × (sent_id crates (handle_input crates later (input_of Command.ask_info) []).1.outputs
        ≡ some id')
    × (id' ≢ id)
fresh_ids_example =
    fresh_ids crates crates-Laws ready start Command.ask_info [] (omega arith) refl
      (rw later_lem refl) refl refl start-IsDecodable start_room (rw later_lem (omega arith))
      (rw later_lem info_room) (omega (arith, one_issued))

nothing_sent_example :
    Each IsOther (handle_input crates new_application (input_of start) []).1.outputs
nothing_sent_example = nothing_sent crates crates-Laws new_application (input_of start) [] refl

unauthenticated_start_example :
    handle_input crates new_application (ApplicationInput.data_received 0 started_bytes) [] ≡ (
      ok tt,
      record {
        machine = record new_application { app_state = ApplicationState.presenting };
        outputs = ApplicationOutput.event (ApplicationEvent.presentation_started 7) ∷ [];
      },
    )
unauthenticated_start_example =
    unauthenticated_start crates crates-Laws new_application 0 started_bytes [] started
      started_decoded refl
