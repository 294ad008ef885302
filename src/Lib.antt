-- ===== src/Lib.antt =====
-- openscreen-rs: the authentication and the application layer of the Open Screen Protocol.
--
-- Two agents that find each other by mDNS and have a QUIC connection authenticate each other by a
-- password. Each runs the state machine of openscreen-network, which does no I/O: an adapter feeds it
-- inputs (the connection is there, bytes came, a crypto request is done) and carries out the outputs
-- that it appends to a queue (send a message, run a crypto request, report an event). On top of
-- it the state machine of openscreen-application passes inputs on to it, and once it is authenticated
-- turns the commands of the user into messages and messages into events. The files model both layers
-- and the provider that carries out the crypto requests:
--
--   Base       what the files share: Boolean tests, lists and UTF-8 over the native numbers, the
--              effects of the code (Effects), and rules for what actions keep (Keeps), return
--              (Returns) and never do (Safe).
--   Deps       the code under the repository's own, as parameters with their documented behaviour:
--              heapless vectors and strings, minicbor's encoder and decoder, the copy of quinn's
--              varint codec, subtle's comparison, log's filter. The crates spake2, sha2, hmac and
--              hkdf are parameters of Crypto/RustCrypto (CryptoCrates).
--   Common     openscreen-common/src: error.rs, types.rs, and type_key.rs (Common/TypeKey).
--   Crypto     openscreen-crypto/src/lib.rs: the requests and results, and
--              in Crypto/Provider the interface of a provider and the mock.
--   Network    openscreen-network/src/lib.rs: inputs, outputs, events, errors.
--   Network/Messages      messages.rs: the messages; Codec/Encode and Codec/Decode hold encode and
--              decode of each, Codec/Wire the bytes that a message stands for, Codec/Safe the
--              panics of decode.
--   Network/CryptoData    crypto_data.rs: the buffers, with their capacities, and the setters.
--   Network/StateMachine  state_machine/*.rs: Context holds the state type, what a handler reads and
--              writes and the steps that handlers share; Handlers/<State>.handle is the handler of
--              that state; Spake2 is the coordinator of mod.rs, Spake2.handle its handle. The
--              modules below Spake2 are about its calls: the state diagram (Transitions), what no call
--              changes (Frame), final states (Final), inputs (Inputs), the token (Token), the two sides
--              of the handshake (Agreement), the confirmation (Confirmation), what comes before and
--              after these (Ends), and what Authenticated rests on (Evidence,
--              and with a provider that answers the requests, Session and Verified).
--   Crypto/RustCrypto  openscreen-crypto-rustcrypto/src/lib.rs: the provider's execute. Answers is
--              what it answers, Confirms the exchange of two providers, Verifies what a verification
--              says, Spent and Once the stored state, Honesty which answers are empty.
--   Application  openscreen-application/src: lib.rs and state.rs, the types of the application layer.
--   Application/Messages  messages.rs: the messages, with their Kinds, Enumerations and Codes; Encode
--              and Decode hold the functions of each group of messages, Wire the bytes that a message
--              stands for, Sizes what a decoder takes, Reads and RoundTrip that it reads them back,
--              Safe that it does not panic.
--   Application/Machine  lib.rs: Commands holds the handlers of the user's commands, Receives those of
--              what comes in, Input handle_input. The other modules are about its calls: what
--              authentication gates (Gate, Outputs, Presents), what is sent (Requests, Sending), the
--              request ids (Ids, Fresh), and the machine inside it (Frame, Delegates).
--   Discovery  openscreen-discovery/src: auth_token.rs, fingerprint.rs and service_info.rs, what is
--              advertised and becomes the configuration of the authentication (Advertised).
--   Discovery/Mdns  openscreen-discovery-mdns/src/utils.rs: instance names, the TXT properties and
--              what a resolved service says (Properties). The crate mdns-sd is a parameter (MdnsSd).
--   Examples   the parameters by concrete functions (Crates), and runs of the code on them.
--
-- A handler has crypto_data and outputs by mutable reference. Here it is an action on both: a
-- function from a Context to an outcome (a value, an error, or a panic) and the Context after it, so
-- that what was written before an error or a panic stays written, as it does in the code. A log line
-- that may slice out of bounds is modelled (log_prefix), other log lines are not. Numbers are natural
-- numbers: the code does arithmetic on lengths, all of them bounded by the capacities, and on request
-- ids, whose increment wraps modulo 2^64 in the model too. No
-- definition has fuel: the loops of the decoders run over the length that a message states, on
-- structural recursion.
--
-- A message of the authentication that is sent is a value of NetworkMessage in the queue; the adapter
-- encodes it with encode_network_message. A message of the application is encoded by its machine. The
-- borrow of a buffer in an output is a copy of its contents. The handlers of the application are
-- actions on the machine and its outputs (Held).
--
-- Not modelled: the QUIC adapter, the mDNS browser and publisher (asynchronous I/O),
-- the certificates and their storage, the demonstration programs, and what discovery keeps of the
-- services it found. Entropy is an argument of the provider's calls.
pub mod Base
pub mod Deps
pub mod Discovery
pub mod Common
pub mod Crypto
pub mod Network
pub mod Application
pub mod Examples
