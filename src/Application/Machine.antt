-- ===== src/Application/Machine.antt =====
-- openscreen-application/src/lib.rs: ApplicationStateMachine. A handler has the machine and the outputs
-- by mutable reference: it is an action on both.
pub mod Commands
pub mod Receives
pub mod Input
pub mod Requests
pub mod Gate
pub mod Sending
pub mod Frame
pub mod Delegates
pub mod Ids
pub mod Fresh
pub mod Outputs
pub mod Presents
use openscreen_rs.Base.{
  ℕ, ◌+◌, ◌%◌, ◌^◌, Bool, not, Option, none, some, List, [], ◌∷◌, Outcome, ok, err, panic, Action,
  pure, raise, fault, gets, ensure, ◌>>=◌, ◌>>◌, if◌then◌else◌,
}
use openscreen_rs.Deps.{Deps}
use openscreen_rs.Common.{MessageError, max_cbor_size, max_urls, max_string_length}
use openscreen_rs.Network.{NetworkError, NetworkEvent, NetworkInput, NetworkOutput}
use openscreen_rs.Network.CryptoData.{new as new_crypto_data}
use openscreen_rs.Network.StateMachine.Spake2.{
  Spake2StateMachine, new as network_new, handle, is_authenticated as network_is_authenticated,
}
use openscreen_rs.Application.{
  ApplicationInput, ApplicationOutput, ApplicationEvent, ApplicationError, ApplicationState,
  max_application_queue,
}
use openscreen_rs.Application.Enumerations.{
  PresentationResult, PresentationTerminationReason, PresentationConnectionCloseReason,
}
use openscreen_rs.Application.Messages.{ApplicationMessage, Status}
use openscreen_rs.Application.Messages.Encode.Message.{encode_application_message}
use openscreen_rs.Application.Messages.Decode.Message.{decode_application_message}

pub record ApplicationStateMachine : Type 0 where
  pub network : Spake2StateMachine
  pub app_state : ApplicationState
  pub next_request_id : ℕ

-- ApplicationStateMachine::new, with Spake2StateMachine::default.
abbrev pub new_application : ApplicationStateMachine
new_application = record {
  network = network_new new_crypto_data;
  app_state = ApplicationState.idle;
  next_request_id = 1;
}

-- ApplicationStateMachine::is_authenticated
abbrev pub application_is_authenticated : ApplicationStateMachine → Bool
application_is_authenticated m = network_is_authenticated m.network

-- `self` and `outputs`.
pub record Held : Type 0 where
  pub machine : ApplicationStateMachine
  pub outputs : List ApplicationOutput

abbrev pub Handling : Type 0 → Type 0
Handling A = Action Held ApplicationError A

-- `if !self.is_authenticated() { return Err(ApplicationError::NotAuthenticated); }`
unfoldable pub authenticated_only : Handling (Unit {0})
authenticated_only = do
  ready ← gets (λ s. application_is_authenticated s.machine)
  ensure ready ApplicationError.not_authenticated

-- `let request_id = self.next_request_id;` and its wrapping increment.
unfoldable pub take_request_id : Handling ℕ
take_request_id s =
    let id = s.machine.next_request_id in
    (ok id, record s { machine = record s.machine { next_request_id = (id + 1) % 2 ^ 64 } })

unfoldable pub enter : ApplicationState → Handling (Unit {0})
enter app_state s = (ok tt, record s { machine = record s.machine { app_state = app_state } })

-- `msg.encode(&mut buf)?`, where every MessageError becomes EncodeFailed.
abbrev pub encoded_in : List ℕ → Outcome MessageError (Unit {0}) → Outcome ApplicationError (List ℕ)
encoded_in buf (ok _) = ok buf
encoded_in buf (err e) = err ApplicationError.encode_failed
encoded_in buf panic = panic

module _ (d : Deps) where
  -- `outputs.push(…).map_err(|_| ApplicationError::BufferFull)?`
  unfoldable pub emit_output : ApplicationOutput → Handling (Unit {0})
  emit_output output s =
      let pushed = d.heapless.push max_application_queue s.outputs output in
      (
        if pushed.0 then ok tt else err ApplicationError.buffer_full,
        record s { outputs = pushed.1 },
      )

  -- A new vector, the message encoded into it, and the output that sends it.
  unfoldable pub encode_request : ApplicationMessage → Handling (List ℕ)
  encode_request msg s =
      let written = encode_application_message d max_cbor_size msg [] in
      (encoded_in written.1 written.0, s)

  unfoldable pub send : ApplicationMessage → Handling (Unit {0})
  send msg = do buf ← encode_request msg; emit_output (ApplicationOutput.send_data 0 buf)
