-- ===== src/Network/StateMachine/Handlers.antt =====
-- openscreen-network/src/state_machine: one module for each state that has a handler.
pub mod Idle
pub mod AwaitingCapabilities
pub mod InitiatingHandshake
pub mod Negotiating
pub mod GeneratingHandshake
pub mod AwaitingHandshake
pub mod Computing
pub mod AwaitingConfirmation
pub mod AwaitingStatus
