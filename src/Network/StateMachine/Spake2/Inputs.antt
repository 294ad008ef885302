-- ===== src/Network/StateMachine/Spake2/Inputs.antt =====
-- The clock.
use openscreen_rs.Base.{ℕ, ◌≡◌, refl, List, pure, raise}
use openscreen_rs.Deps.{Deps}
use openscreen_rs.Network.{NetworkInput, NetworkOutput}
use openscreen_rs.Network.CryptoData.{CryptoData}
use openscreen_rs.Network.StateMachine.Context.{State}
use openscreen_rs.Network.StateMachine.Handlers.{
  Idle.handle as idle_handle, AwaitingCapabilities.handle as awaiting_capabilities_handle,
  InitiatingHandshake.handle as initiating_handshake_handle,
  Negotiating.handle as negotiating_handle,
  GeneratingHandshake.handle as generating_handshake_handle,
  AwaitingHandshake.handle as awaiting_handshake_handle, Computing.handle as computing_handle,
  AwaitingConfirmation.handle as awaiting_confirmation_handle,
  AwaitingStatus.handle as awaiting_status_handle,
}
use openscreen_rs.Network.StateMachine.Spake2.{Spake2StateMachine, dispatch, handle}
use openscreen_rs.Network.StateMachine.Spake2.Final.{final_result}

module _ (d : Deps) where
  ticks :
      (s : State) (c : CryptoData) (now : ℕ) (outputs : List NetworkOutput)
      → handle d (record { state = s; crypto_data = c }) (NetworkInput.tick now) outputs ≡ record {
        result = final_result s;
        machine = record { state = s; crypto_data = c };
        outputs = outputs;
      }
  unfolding handle dispatch idle_handle awaiting_capabilities_handle initiating_handshake_handle
      negotiating_handle generating_handshake_handle awaiting_handshake_handle computing_handle
      awaiting_confirmation_handle awaiting_status_handle pure raise
  ticks State.idle c now outputs = refl
  ticks (State.failed e) c now outputs = refl
  ticks _ c now outputs = refl

  -- The clock changes nothing: a machine that gets a tick is as before, sends nothing, and answers ok
  -- unless it is poisoned.
  pub handle-tick :
      (m : Spake2StateMachine) (now : ℕ) (outputs : List NetworkOutput)
      → handle d m (NetworkInput.tick now) outputs
        ≡ record { result = final_result m.state; machine = m; outputs = outputs }
  handle-tick m now outputs = ticks m.state m.crypto_data now outputs
