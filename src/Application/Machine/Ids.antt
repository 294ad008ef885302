-- ===== src/Application/Machine/Ids.antt =====
-- The request ids that the application machine gives out.
use openscreen_rs.Base.{
  ℕ, suc, ◌+◌, ◌%◌, ◌^◌, ◌<◌, ◌≡◌, ◌≢◌, ◌∙◌, inl, inr, refl, ap, Bool, true, false, ◌&&◌, List, [],
  ◌∷◌, arith, ◌>>=◌, ◌>>◌, if◌then◌else◌, Bool-cases,
}
use openscreen_rs.Base.Keeps.{Keeps, Keeps-bind}
use openscreen_rs.Deps.{Deps}
use openscreen_rs.Network.{NetworkInput}
use openscreen_rs.Application.{ApplicationInput, ApplicationOutput, ApplicationState}
use openscreen_rs.Application.Messages.{ApplicationMessage}
use openscreen_rs.Application.Machine.{
  ApplicationStateMachine, Held, Handling, application_is_authenticated, authenticated_only,
  take_request_id, emit_output, send, enter,
}
use openscreen_rs.Application.Machine.Commands.{
  handle_start_presentation, handle_terminate_presentation, handle_check_url_availability,
  handle_open_presentation_connection, handle_request_agent_status, handle_request_agent_info,
}
use openscreen_rs.Application.Machine.Receives.{handle_in_network}
use openscreen_rs.Application.Machine.Input.{dispatch_input, handle_input, run_application}
use openscreen_rs.Application.Machine.Requests.{Command}
use openscreen_rs.Application.Machine.Gate.{refused, numbered}
use openscreen_rs.Application.Machine.Frame.{
  network-Keeps, data-Keeps, unnumbered-Keeps, send-Keeps, collect-Keeps, IsOther,
}

-- Whether an input is a command whose message carries a request id.
abbrev pub takes_id : ApplicationInput → Bool
takes_id (ApplicationInput.start_presentation url presentation_id) = true
takes_id (ApplicationInput.terminate_presentation presentation_id reason) = true
takes_id (ApplicationInput.check_url_availability urls watch_duration) = true
takes_id (ApplicationInput.open_presentation_connection presentation_id url) = true
takes_id (ApplicationInput.request_agent_status status_message) = true
takes_id ApplicationInput.request_agent_info = true
takes_id _ = false

abbrev pub advance_id : Bool → ℕ → ℕ
advance_id true id = (id + 1) % 2 ^ 64
advance_id false id = id

-- How many request ids are taken in a row of calls.
unfoldable pub issued : Deps → ApplicationStateMachine → List ApplicationInput → ℕ
issued d m [] = 0
issued d m (input ∷ inputs) =
    let rest = issued d (handle_input d m input []).1.machine inputs in
    if takes_id input && application_is_authenticated m then suc rest else rest

module _ (d : Deps) where
  abbrev IsId : ℕ → Held → Type 0
  IsId id s = s.machine.next_request_id ≡ id

  pushes : (id : ℕ) (output : ApplicationOutput) → Keeps (IsId id) (emit_output d output)
  unfolding emit_output
  pushes id output = record { at = λ s h. h }

  others :
      (id : ℕ) (output : ApplicationOutput)
      → IsOther output
      → Keeps (IsId id) (emit_output d output)
  others id output h = pushes id output

  enters : (id : ℕ) (app_state : ApplicationState) → Keeps (IsId id) (enter app_state)
  unfolding enter
  enters id app_state = record { at = λ s h. h }

  hands : (id : ℕ) (input : NetworkInput) → Keeps (IsId id) (handle_in_network d input)
  unfolding handle_in_network
  hands id input = record { at = λ s h. h }

  -- A command that takes an id, before and after authentication.
  taking-id :
      (m : ApplicationStateMachine) (k : ℕ → Handling (Unit {0}))
      → ((id : ℕ) → Keeps (IsId ((m.next_request_id + 1) % 2 ^ 64)) (k id))
      → ((do authenticated_only; request_id ← take_request_id; k request_id)
          (record { machine = m; outputs = [] })).1.machine.next_request_id
        ≡ advance_id (application_is_authenticated m) m.next_request_id
  taking-id m k keeps = elim (Bool-cases (application_is_authenticated m)) [
    | inl passed ↦ rw (numbered m k passed, passed) ((keeps m.next_request_id).at _ refl)
    | inr closed ↦
        rw (refused (take_request_id >>= k) (record { machine = m; outputs = [] }) closed, closed)
  ]

  sending-IsId : (id : ℕ) (msg : ApplicationMessage) → Keeps (IsId id) (send d msg)
  sending-IsId id msg = send-Keeps d (pushes id) msg

  step-id :
      (m : ApplicationStateMachine) (input : ApplicationInput) (outputs : List ApplicationOutput)
      → (handle_input d m input outputs).1.machine.next_request_id
        ≡ advance_id (takes_id input && application_is_authenticated m) m.next_request_id
  unfolding handle_input dispatch_input handle_start_presentation handle_terminate_presentation
      handle_check_url_availability handle_open_presentation_connection handle_request_agent_status
      handle_request_agent_info
  step-id m (ApplicationInput.check_url_availability urls watch_duration) outputs =
      taking-id m _
        (λ id. Keeps-bind _ _ (collect-Keeps d (pushes _) urls []) (λ url_vec. sending-IsId _ _))
  step-id m (ApplicationInput.send_presentation_message connection_id message) outputs =
      (unnumbered-Keeps d (pushes _) (Command.send_message connection_id message) refl).at _ refl
  step-id m (ApplicationInput.close_presentation_connection connection_id reason) outputs =
      (unnumbered-Keeps d (pushes _) (Command.close connection_id reason) refl).at _ refl
  step-id m ApplicationInput.transport_connected outputs =
      (network-Keeps d (others _) (enters _) (hands _) _).at _ refl
  step-id m (ApplicationInput.stream_opened id) outputs =
      (network-Keeps d (others _) (enters _) (hands _) _).at _ refl
  step-id m (ApplicationInput.stream_closed id) outputs =
      (network-Keeps d (others _) (enters _) (hands _) _).at _ refl
  step-id m (ApplicationInput.data_received stream bytes) outputs =
      (data-Keeps d (others _) (enters _) (hands _) stream bytes).at _ refl
  step-id m (ApplicationInput.crypto_completed result) outputs =
      (network-Keeps d (others _) (enters _) (hands _) _).at _ refl
  step-id m (ApplicationInput.tick timestamp) outputs =
      (network-Keeps d (others _) (enters _) (hands _) _).at _ refl
  step-id m _ outputs = taking-id m _ (λ id. sending-IsId _ _)

  advance_small : (b : Bool) (id : ℕ) → id < 2 ^ 64 → advance_id b id < 2 ^ 64
  advance_small true id h = omega arith
  advance_small false id h = h

  advance_sum :
      (b : Bool) (id rest : ℕ)
      → (advance_id b id + rest) % 2 ^ 64 ≡ (id + (if b then suc rest else rest)) % 2 ^ 64
  advance_sum true id rest = omega arith
  advance_sum false id rest = refl

  after_step :
      (m : ApplicationStateMachine) (input : ApplicationInput)
      → m.next_request_id < 2 ^ 64
      → (handle_input d m input []).1.machine.next_request_id < 2 ^ 64
  after_step m input h =
      rw (step-id m input []) (advance_small (takes_id input && application_is_authenticated m) _ h)

  run-id :
      (m : ApplicationStateMachine) (inputs : List ApplicationInput)
      → m.next_request_id < 2 ^ 64
      → (run_application d m inputs).next_request_id
        ≡ (m.next_request_id + issued d m inputs) % 2 ^ 64
  unfolding run_application issued
  run-id m [] h = omega (arith, h)
  run-id m (input ∷ inputs) h =
      let after = (handle_input d m input []).1.machine in
      run-id after inputs (after_step m input h)
      ∙ ap (λ id. (id + issued d after inputs) % 2 ^ 64) (step-id m input [])
      ∙ advance_sum (takes_id input && application_is_authenticated m) m.next_request_id _

  -- Where some ids are taken, and fewer than 2^64, the next id is another one.
  pub next_id-differs :
      (m : ApplicationStateMachine) (inputs : List ApplicationInput)
      → m.next_request_id < 2 ^ 64
      → 0 < issued d m inputs
      → issued d m inputs < 2 ^ 64
      → (run_application d m inputs).next_request_id ≢ m.next_request_id
  next_id-differs m inputs small some_issued few same =
      let e = run-id m inputs small in omega (arith, e, same, small, some_issued, few)
