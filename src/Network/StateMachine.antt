-- ===== src/Network/StateMachine.antt =====
-- openscreen-network/src/state_machine: the SPAKE2 authentication state machine. Each state's handler
-- is a module below; `Spake2` is the coordinator.
pub mod Context
pub mod Handlers
pub mod Spake2
