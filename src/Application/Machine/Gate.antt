-- ===== src/Application/Machine/Gate.antt =====
-- What a command does before authentication.
use openscreen_rs.Base.{
  ℕ, ◌+◌, ◌%◌, ◌^◌, ◌∙◌, ◌+◌, ◌%◌, ◌^◌, ◌≡◌, refl, Bool, true, false, List, [], err, gets, ensure,
  ◌>>=◌, ◌>>◌,
}
use openscreen_rs.Deps.{Deps}
use openscreen_rs.Application.{ApplicationOutput, ApplicationError}
use openscreen_rs.Application.Machine.{
  take_request_id, ApplicationStateMachine, Held, Handling, application_is_authenticated,
  authenticated_only,
}
use openscreen_rs.Application.Machine.Commands.{
  handle_start_presentation, handle_terminate_presentation, handle_check_url_availability,
  handle_open_presentation_connection, handle_send_presentation_message,
  handle_close_presentation_connection, handle_request_agent_status, handle_request_agent_info,
}
use openscreen_rs.Application.Machine.Input.{dispatch_input, handle_input}
use openscreen_rs.Application.Machine.Requests.{Command, input_of}

module _ (k : Handling (Unit {0})) (s : Held) where
  pub refused :
      application_is_authenticated s.machine ≡ false
      → (authenticated_only >> k) s ≡ (err ApplicationError.not_authenticated, s)
  unfolding authenticated_only gets ensure ◌>>=◌
  refused h = rw h

  pub allowed : application_is_authenticated s.machine ≡ true → (authenticated_only >> k) s ≡ k s
  unfolding authenticated_only gets ensure ◌>>=◌
  allowed h = rw h

module _ (d : Deps) where
  -- Each of the eight commands, to a machine that is not authenticated, returns NotAuthenticated,
  -- changes nothing in the machine, the request id included, and puts out nothing.
  pub not_authenticated :
      (m : ApplicationStateMachine) (c : Command) (outputs : List ApplicationOutput)
      → application_is_authenticated m ≡ false
      → handle_input d m (input_of c) outputs
        ≡ (err ApplicationError.not_authenticated, record { machine = m; outputs = [] })
  unfolding handle_input dispatch_input handle_start_presentation handle_terminate_presentation
      handle_check_url_availability handle_open_presentation_connection
      handle_send_presentation_message handle_close_presentation_connection
      handle_request_agent_status handle_request_agent_info
  not_authenticated m (Command.start url presentation_id) outputs h = refused _ _ h
  not_authenticated m _ outputs h = refused _ _ h

-- The machine after a command, which took a request id or did not.
abbrev pub advance : Bool → ApplicationStateMachine → ApplicationStateMachine
advance true m = record m { next_request_id = (m.next_request_id + 1) % 2 ^ 64 }
advance false m = m

taken :
    (m : ApplicationStateMachine) (k : ℕ → Handling (Unit {0}))
    → (take_request_id >>= k) (record { machine = m; outputs = [] })
      ≡ k m.next_request_id (record { machine = advance true m; outputs = [] })
unfolding take_request_id ◌>>=◌
taken m k = refl

-- Past the gate, a request id is taken.
pub numbered :
    (m : ApplicationStateMachine) (k : ℕ → Handling (Unit {0}))
    → application_is_authenticated m ≡ true
    → (do authenticated_only; request_id ← take_request_id; k request_id)
        (record { machine = m; outputs = [] })
      ≡ k m.next_request_id (record { machine = advance true m; outputs = [] })
numbered m k h = allowed (take_request_id >>= k) _ h ∙ taken m k
