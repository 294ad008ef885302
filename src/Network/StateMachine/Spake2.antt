-- ===== src/Network/StateMachine/Spake2.antt =====
-- openscreen-network/src/state_machine/mod.rs: the coordinator, which holds a state and the buffers.
pub mod Transitions
pub mod Final
pub mod Keeps
pub mod Frame
pub mod Ends
pub mod Inputs
pub mod Evidence
pub mod Session
pub mod Verified
pub mod Agreement
pub mod Steps
pub mod Receives
pub mod Keys
pub mod Handshake
pub mod Token
pub mod Confirmation
use openscreen_rs.Base.{Bool, true, false, List, Outcome, ok, err, panic, pure, raise}
use openscreen_rs.Deps.{Deps}
use openscreen_rs.Network.{NetworkError, NetworkInput, NetworkOutput}
use openscreen_rs.Network.CryptoData.{CryptoData}
use openscreen_rs.Network.StateMachine.Context.{State, Handler}
use openscreen_rs.Network.StateMachine.Handlers.{
  Idle.handle as idle_handle, AwaitingCapabilities.handle as awaiting_capabilities_handle,
  InitiatingHandshake.handle as initiating_handshake_handle,
  Negotiating.handle as negotiating_handle,
  GeneratingHandshake.handle as generating_handshake_handle,
  AwaitingHandshake.handle as awaiting_handshake_handle, Computing.handle as computing_handle,
  AwaitingConfirmation.handle as awaiting_confirmation_handle,
  AwaitingStatus.handle as awaiting_status_handle,
}

pub record Spake2StateMachine : Type 0 where
  pub state : State
  pub crypto_data : CryptoData

-- Spake2StateMachine::new
abbrev pub new : CryptoData → Spake2StateMachine
new crypto_data = record { state = State.idle; crypto_data = crypto_data }

-- The match on the old state.
unfoldable pub dispatch : Deps → State → NetworkInput → Handler State
dispatch d State.idle input = idle_handle d input
dispatch d State.awaiting_capabilities input = awaiting_capabilities_handle d input
dispatch d State.initiating_handshake input = initiating_handshake_handle d input
dispatch d State.negotiating input = negotiating_handle d input
dispatch d State.generating_handshake input = generating_handshake_handle d input
dispatch d State.awaiting_handshake input = awaiting_handshake_handle d input
dispatch d State.computing input = computing_handle d input
dispatch d State.awaiting_confirmation input = awaiting_confirmation_handle d input
dispatch d State.awaiting_status input = awaiting_status_handle d input
dispatch d State.authenticated input = pure State.authenticated
dispatch d (State.failed error) input = pure (State.failed error)
dispatch d State.poisoned input = raise NetworkError.invalid_state

-- The state is `Poisoned` while a handler runs, and stays so if it returns an error or panics.
abbrev pub next_state : Outcome NetworkError State → State
next_state (ok state) = state
next_state (err e) = State.poisoned
next_state panic = State.poisoned

abbrev pub discard : Outcome NetworkError State → Outcome NetworkError (Unit {0})
discard (ok state) = ok tt
discard (err e) = err e
discard panic = panic

-- What a call of `handle` leaves behind.
pub record Handled : Type 0 where
  pub result : Outcome NetworkError (Unit {0})
  pub machine : Spake2StateMachine
  pub outputs : List NetworkOutput

unfoldable pub handle : Deps → Spake2StateMachine → NetworkInput → List NetworkOutput → Handled
handle d m input outputs =
    let done = dispatch d m.state input (record { crypto = m.crypto_data; outputs = outputs }) in
    record {
      result = discard done.0;
      machine = record { state = next_state done.0; crypto_data = done.1.crypto };
      outputs = done.1.outputs;
    }

abbrev pub is_authenticated : Spake2StateMachine → Bool
is_authenticated m = elim m.state [ State.authenticated ↦ true | _ ↦ false ]

abbrev pub is_failed : Spake2StateMachine → Bool
is_failed m = elim m.state [ State.failed error ↦ true | _ ↦ false ]
