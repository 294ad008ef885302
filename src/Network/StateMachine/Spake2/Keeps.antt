-- ===== src/Network/StateMachine/Spake2/Keeps.antt =====
-- Every handler keeps a property that survives the writes of the shared steps.
use openscreen_rs.Base.{ℕ, Bool, true, false, Option, List}
use openscreen_rs.Base.Keeps.{Keeps, keeps_rules}
use openscreen_rs.Deps.{Deps, Laws}
use openscreen_rs.Network.{NetworkInput}
use openscreen_rs.Network.Messages.{NetworkMessage}
use openscreen_rs.Network.StateMachine.Context.{State, Context, log_prefix}
use openscreen_rs.Network.StateMachine.Context.Writes.{
  Survives, clear-Keeps, extend-Keeps, push_output-Keeps, store-Keeps, request_start-Keeps,
  request_finish-Keeps, build_transcript-Keeps, publish_handshake-Keeps,
  build_confirmation_context-Keeps, request_verification-Keeps,
}
use openscreen_rs.Network.StateMachine.Handlers.{
  Idle.handle as idle_handle, AwaitingCapabilities.handle as awaiting_capabilities_handle,
  AwaitingCapabilities.start_role, InitiatingHandshake.handle as initiating_handshake_handle,
  Negotiating.handle as negotiating_handle, Negotiating.respond, Negotiating.initiate,
  GeneratingHandshake.handle as generating_handshake_handle,
  AwaitingHandshake.handle as awaiting_handshake_handle, AwaitingHandshake.continue_role,
  AwaitingHandshake.as_handshake, AwaitingHandshake.check_token, AwaitingHandshake.match_token,
  Computing.handle as computing_handle, Computing.announce_success, Computing.verify_buffered,
  Computing.finish as computing_finish, Computing.store_keys,
  AwaitingConfirmation.handle as awaiting_confirmation_handle, AwaitingConfirmation.as_confirmation,
  AwaitingStatus.handle as awaiting_status_handle, AwaitingStatus.finish as awaiting_status_finish,
}
use openscreen_rs.Network.StateMachine.Spake2.{dispatch}

ruleset writes = (
  keeps_rules, clear-Keeps, extend-Keeps, push_output-Keeps, store-Keeps, request_start-Keeps,
  request_finish-Keeps, build_transcript-Keeps, publish_handshake-Keeps,
  build_confirmation_context-Keeps, request_verification-Keeps,
)

module _ (d : Deps) (laws : Laws d) (I : Context → Type 0) (survives : Survives I) where
  log_prefix-Keeps : (bytes : List ℕ) → Keeps I (log_prefix d bytes)
  unfolding log_prefix
  log_prefix-Keeps bytes = search keeps_rules

  idle-Keeps : (i : NetworkInput) → Keeps I (idle_handle d i)
  unfolding idle_handle
  idle-Keeps NetworkInput.transport_connected = search writes
  idle-Keeps _ = search keeps_rules

  start_role-Keeps : (b : Bool) → Keeps I (start_role d b)
  unfolding start_role
  start_role-Keeps true = search writes
  start_role-Keeps false = search writes

  awaiting_capabilities-Keeps : (i : NetworkInput) → Keeps I (awaiting_capabilities_handle d i)
  unfolding awaiting_capabilities_handle
  awaiting_capabilities-Keeps (NetworkInput.data_received stream bytes) =
      search (keeps_rules, start_role-Keeps) depth 8
  awaiting_capabilities-Keeps _ = search keeps_rules

  initiating_handshake-Keeps : (i : NetworkInput) → Keeps I (initiating_handshake_handle d i)
  unfolding initiating_handshake_handle
  initiating_handshake-Keeps (NetworkInput.crypto_completed result) = search writes
  initiating_handshake-Keeps _ = search keeps_rules

  negotiating-Keeps : (i : NetworkInput) → Keeps I (negotiating_handle d i)
  unfolding negotiating_handle respond initiate
  negotiating-Keeps (NetworkInput.crypto_completed result) = search writes depth 10
  negotiating-Keeps (NetworkInput.data_received stream bytes) = search writes depth 10
  negotiating-Keeps _ = search keeps_rules

  generating_handshake-Keeps : (i : NetworkInput) → Keeps I (generating_handshake_handle d i)
  unfolding generating_handshake_handle
  generating_handshake-Keeps (NetworkInput.crypto_completed result) = search writes depth 8
  generating_handshake-Keeps _ = search keeps_rules

  as_handshake-Keeps : (msg : NetworkMessage) → Keeps I (as_handshake msg)
  as_handshake-Keeps (NetworkMessage.auth_spake2_handshake msg) = search keeps_rules
  as_handshake-Keeps _ = search keeps_rules

  match_token-Keeps :
      (expected received : Option (List ℕ)) → Keeps I (match_token d expected received)
  unfolding match_token
  match_token-Keeps Option.none received = search keeps_rules
  match_token-Keeps (Option.some expected) Option.none = search keeps_rules
  match_token-Keeps (Option.some expected) (Option.some received) = search keeps_rules

  check_token-Keeps : (received : Option (List ℕ)) → Keeps I (check_token d received)
  unfolding check_token
  check_token-Keeps received = search (keeps_rules, match_token-Keeps) depth 8

  awaiting_handshake-Keeps : (i : NetworkInput) → Keeps I (awaiting_handshake_handle d i)
  unfolding awaiting_handshake_handle continue_role
  awaiting_handshake-Keeps (NetworkInput.data_received stream bytes) =
      search (writes, as_handshake-Keeps, check_token-Keeps) depth 13
  awaiting_handshake-Keeps _ = search keeps_rules

  as_confirmation-Keeps : (msg : NetworkMessage) → Keeps I (as_confirmation msg)
  as_confirmation-Keeps (NetworkMessage.auth_spake2_confirmation msg) = search keeps_rules
  as_confirmation-Keeps _ = search keeps_rules

  verify_buffered-Keeps : Keeps I (verify_buffered d)
  unfolding verify_buffered
  verify_buffered-Keeps = search (writes, as_confirmation-Keeps) depth 12

  computing-Keeps : (i : NetworkInput) → Keeps I (computing_handle d i)
  unfolding computing_handle computing_finish announce_success store_keys
  computing-Keeps (NetworkInput.crypto_completed result) =
      search (writes, verify_buffered-Keeps) depth 14
  computing-Keeps (NetworkInput.data_received stream bytes) = search writes
  computing-Keeps _ = search keeps_rules

  awaiting_confirmation-Keeps : (i : NetworkInput) → Keeps I (awaiting_confirmation_handle d i)
  unfolding awaiting_confirmation_handle
  awaiting_confirmation-Keeps (NetworkInput.data_received stream bytes) =
      search (writes, as_confirmation-Keeps, log_prefix-Keeps) depth 14
  awaiting_confirmation-Keeps _ = search keeps_rules

  status-Keeps : (b : Bool) → Keeps I (awaiting_status_finish d b)
  unfolding awaiting_status_finish
  status-Keeps true = search writes
  status-Keeps false = search keeps_rules

  awaiting_status-Keeps : (i : NetworkInput) → Keeps I (awaiting_status_handle d i)
  unfolding awaiting_status_handle
  awaiting_status-Keeps (NetworkInput.data_received stream bytes) =
      search (keeps_rules, status-Keeps)
  awaiting_status-Keeps _ = search keeps_rules

  pub dispatch-Keeps : (s : State) (i : NetworkInput) → Keeps I (dispatch d s i)
  unfolding dispatch
  dispatch-Keeps State.idle i = idle-Keeps i
  dispatch-Keeps State.awaiting_capabilities i = awaiting_capabilities-Keeps i
  dispatch-Keeps State.initiating_handshake i = initiating_handshake-Keeps i
  dispatch-Keeps State.negotiating i = negotiating-Keeps i
  dispatch-Keeps State.generating_handshake i = generating_handshake-Keeps i
  dispatch-Keeps State.awaiting_handshake i = awaiting_handshake-Keeps i
  dispatch-Keeps State.computing i = computing-Keeps i
  dispatch-Keeps State.awaiting_confirmation i = awaiting_confirmation-Keeps i
  dispatch-Keeps State.awaiting_status i = awaiting_status-Keeps i
  dispatch-Keeps _ i = search keeps_rules
