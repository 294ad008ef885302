-- ===== src/Network.antt =====
-- openscreen-network/src/lib.rs: the inputs, outputs, events and errors of the network layer. Its
-- messages, its buffers and its state machine are below.
pub mod Messages
pub mod CryptoData
pub mod StateMachine
use openscreen_rs.Base.{ℕ, List}
use openscreen_rs.Crypto.{CryptoRequest, CryptoResult}
use openscreen_rs.Network.Messages.{NetworkMessage}

abbrev pub max_output_queue : ℕ
max_output_queue = 16

pub data NetworkError : Type 0 where
  invalid_state encode_failed decode_failed crypto_failed : NetworkError
  authentication_failed buffer_full : NetworkError

pub data NetworkInput : Type 0 where
  transport_connected : NetworkInput
  stream_opened : (stream : ℕ) → NetworkInput
  stream_closed : (stream : ℕ) → NetworkInput
  data_received : (stream : ℕ) (bytes : List ℕ) → NetworkInput
  crypto_completed : CryptoResult → NetworkInput
  tick : (now : ℕ) → NetworkInput

pub data NetworkEvent : Type 0 where
  authenticated : NetworkEvent
  authentication_failed : NetworkError → NetworkEvent

pub data NetworkOutput : Type 0 where
  open_uni_stream : NetworkOutput
  send_message : NetworkMessage → NetworkOutput
  send_data : (bytes : List ℕ) → NetworkOutput
  close_stream : (stream : ℕ) → NetworkOutput
  close_connection : NetworkOutput
  request_crypto : CryptoRequest → NetworkOutput
  needs_poll : NetworkOutput
  event : NetworkEvent → NetworkOutput
