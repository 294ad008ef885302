-- ===== src/Network/StateMachine/Spake2/Transitions.antt =====
-- The diagram of the states, and that every call of `handle` follows it.
use openscreen_rs.Base.{
  ◌≡◌, ◌≢◌, ◌⊎◌, inl, inr, refl, Bool, true, false, List, Outcome, ok, err, panic,
}
use openscreen_rs.Base.Returns.{Returns, OnOk, returns_rules}
use openscreen_rs.Deps.{Deps}
use openscreen_rs.Network.{NetworkError, NetworkInput, NetworkOutput}
use openscreen_rs.Network.StateMachine.Context.{State}
use openscreen_rs.Network.StateMachine.Handlers.{
  Idle.handle as idle_handle, AwaitingCapabilities.handle as awaiting_capabilities_handle,
  AwaitingCapabilities.start_role, InitiatingHandshake.handle as initiating_handshake_handle,
  Negotiating.handle as negotiating_handle, Negotiating.respond, Negotiating.initiate,
  GeneratingHandshake.handle as generating_handshake_handle,
  AwaitingHandshake.handle as awaiting_handshake_handle, AwaitingHandshake.continue_role,
  Computing.handle as computing_handle, Computing.announce_success, Computing.verify_buffered,
  Computing.finish as computing_finish, AwaitingConfirmation.handle as awaiting_confirmation_handle,
  AwaitingStatus.handle as awaiting_status_handle, AwaitingStatus.finish as awaiting_status_finish,
}
use openscreen_rs.Network.StateMachine.Spake2.{
  Spake2StateMachine, dispatch, handle, next_state, discard,
}

abbrev pub is_poisoned : State → Bool
is_poisoned State.poisoned = true
is_poisoned _ = false

infix 40 ◌⟶◌
pub data ◌⟶◌ : State → State → Type 0 where
  stay : {s : State} → is_poisoned s ≡ false → s ⟶ s
  connect : State.idle ⟶ State.awaiting_capabilities
  wait_for_offer : State.awaiting_capabilities ⟶ State.awaiting_handshake
  start_offer : State.awaiting_capabilities ⟶ State.initiating_handshake
  send_offer : State.initiating_handshake ⟶ State.awaiting_handshake
  start_answer : State.awaiting_handshake ⟶ State.generating_handshake
  derive_keys : State.awaiting_handshake ⟶ State.computing
  send_answer : State.generating_handshake ⟶ State.computing
  negotiated_offer : State.negotiating ⟶ State.awaiting_handshake
  negotiated_answer : State.negotiating ⟶ State.computing
  confirm : State.computing ⟶ State.awaiting_confirmation
  verify : State.awaiting_confirmation ⟶ State.computing
  announce : State.computing ⟶ State.awaiting_status
  admit : State.awaiting_status ⟶ State.authenticated
  reject : State.awaiting_status ⟶ State.failed NetworkError.authentication_failed

ruleset edges = (
  stay, connect, wait_for_offer, start_offer, send_offer, start_answer, derive_keys, send_answer,
  negotiated_offer, negotiated_answer, confirm, verify, announce, admit, reject, refl,
)

module _ (d : Deps) where
  start_role-⟶ : (b : Bool) → Returns (λ t. State.awaiting_capabilities ⟶ t) (start_role d b)
  unfolding start_role
  start_role-⟶ true = search (returns_rules, edges)
  start_role-⟶ false = search (returns_rules, edges)

  status-⟶ : (b : Bool) → Returns (λ t. State.awaiting_status ⟶ t) (awaiting_status_finish d b)
  unfolding awaiting_status_finish
  status-⟶ true = search (returns_rules, edges)
  status-⟶ false = search (returns_rules, edges)

  idle-⟶ : (i : NetworkInput) → Returns (λ t. State.idle ⟶ t) (idle_handle d i)
  unfolding idle_handle
  idle-⟶ NetworkInput.transport_connected = search (returns_rules, edges)
  idle-⟶ _ = search (returns_rules, edges)

  awaiting_capabilities-⟶ :
      (i : NetworkInput)
      → Returns (λ t. State.awaiting_capabilities ⟶ t) (awaiting_capabilities_handle d i)
  unfolding awaiting_capabilities_handle
  awaiting_capabilities-⟶ (NetworkInput.data_received stream bytes) =
      search (returns_rules, edges, start_role-⟶)
  awaiting_capabilities-⟶ _ = search (returns_rules, edges)

  initiating_handshake-⟶ :
      (i : NetworkInput)
      → Returns (λ t. State.initiating_handshake ⟶ t) (initiating_handshake_handle d i)
  unfolding initiating_handshake_handle
  initiating_handshake-⟶ (NetworkInput.crypto_completed result) = search (returns_rules, edges)
  initiating_handshake-⟶ _ = search (returns_rules, edges)

  negotiating-⟶ : (i : NetworkInput) → Returns (λ t. State.negotiating ⟶ t) (negotiating_handle d i)
  unfolding negotiating_handle respond initiate
  negotiating-⟶ (NetworkInput.crypto_completed result) = search (returns_rules, edges) depth 13
  negotiating-⟶ (NetworkInput.data_received stream bytes) = search (returns_rules, edges) depth 13
  negotiating-⟶ _ = search (returns_rules, edges)

  generating_handshake-⟶ :
      (i : NetworkInput)
      → Returns (λ t. State.generating_handshake ⟶ t) (generating_handshake_handle d i)
  unfolding generating_handshake_handle
  generating_handshake-⟶ (NetworkInput.crypto_completed result) = search (returns_rules, edges)
  generating_handshake-⟶ _ = search (returns_rules, edges)

  awaiting_handshake-⟶ :
      (i : NetworkInput)
      → Returns (λ t. State.awaiting_handshake ⟶ t) (awaiting_handshake_handle d i)
  unfolding awaiting_handshake_handle continue_role
  awaiting_handshake-⟶ (NetworkInput.data_received stream bytes) =
      search (returns_rules, edges) depth 13
  awaiting_handshake-⟶ _ = search (returns_rules, edges)

  verify_buffered-⟶ : Returns (λ t. State.computing ⟶ t) (verify_buffered d)
  unfolding verify_buffered
  verify_buffered-⟶ = search (returns_rules, edges) depth 12

  computing-⟶ : (i : NetworkInput) → Returns (λ t. State.computing ⟶ t) (computing_handle d i)
  unfolding computing_handle announce_success computing_finish
  computing-⟶ (NetworkInput.crypto_completed result) =
      search (returns_rules, verify_buffered-⟶, edges) depth 12
  computing-⟶ (NetworkInput.data_received stream bytes) = search (returns_rules, edges) depth 12
  computing-⟶ _ = search (returns_rules, edges)

  awaiting_confirmation-⟶ :
      (i : NetworkInput)
      → Returns (λ t. State.awaiting_confirmation ⟶ t) (awaiting_confirmation_handle d i)
  unfolding awaiting_confirmation_handle
  awaiting_confirmation-⟶ (NetworkInput.data_received stream bytes) =
      search (returns_rules, edges) depth 13
  awaiting_confirmation-⟶ _ = search (returns_rules, edges)

  awaiting_status-⟶ :
      (i : NetworkInput) → Returns (λ t. State.awaiting_status ⟶ t) (awaiting_status_handle d i)
  unfolding awaiting_status_handle
  awaiting_status-⟶ (NetworkInput.data_received stream bytes) =
      search (returns_rules, edges, status-⟶)
  awaiting_status-⟶ _ = search (returns_rules, edges)

  pub dispatch-⟶ : (s : State) (i : NetworkInput) → Returns (λ t. s ⟶ t) (dispatch d s i)
  unfolding dispatch
  dispatch-⟶ State.idle i = idle-⟶ i
  dispatch-⟶ State.awaiting_capabilities i = awaiting_capabilities-⟶ i
  dispatch-⟶ State.initiating_handshake i = initiating_handshake-⟶ i
  dispatch-⟶ State.negotiating i = negotiating-⟶ i
  dispatch-⟶ State.generating_handshake i = generating_handshake-⟶ i
  dispatch-⟶ State.awaiting_handshake i = awaiting_handshake-⟶ i
  dispatch-⟶ State.computing i = computing-⟶ i
  dispatch-⟶ State.awaiting_confirmation i = awaiting_confirmation-⟶ i
  dispatch-⟶ State.awaiting_status i = awaiting_status-⟶ i
  dispatch-⟶ State.authenticated i = search (returns_rules, edges)
  dispatch-⟶ (State.failed e) i = search (returns_rules, edges)
  dispatch-⟶ State.poisoned i = search returns_rules

-- A call that returns has followed an edge of the diagram, and any other call leaves the machine
-- poisoned.
pub handle-⟶ :
    (d : Deps) (m : Spake2StateMachine) (i : NetworkInput) (outputs : List NetworkOutput)
    → let after = handle d m i outputs in
      (after.result ≡ ok tt) × (m.state ⟶ after.machine.state)
      ⊎ (after.result ≢ ok tt) × (after.machine.state ≡ State.poisoned)
unfolding handle
handle-⟶ d m i outputs = settle (dispatch d m.state i _).0 ((dispatch-⟶ d m.state i).at _)
  where
    settle :
        (r : Outcome NetworkError State)
        → OnOk (λ t. m.state ⟶ t) r
        → (discard r ≡ ok tt) × (m.state ⟶ next_state r)
          ⊎ (discard r ≢ ok tt) × (next_state r ≡ State.poisoned)
    settle (ok t) h = inl (refl, h)
    settle (err e) h = inr (λ e. cc, refl)
    settle panic h = inr (λ e. cc, refl)
