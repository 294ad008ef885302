-- ===== src/Network/StateMachine/Spake2/Session.antt =====
-- A machine together with the provider that answers its crypto requests, as the adapters run them.
use openscreen_rs.Base.{
  ◌≡◌, Bool, true, false, ◌||◌, ◌&&◌, ℕ, List, [], ◌∷◌, ◌++◌, is_empty, Outcome, ok, err, panic,
}
use openscreen_rs.Deps.{Deps}
use openscreen_rs.Crypto.{CryptoError, CryptoOpKind, CryptoRequest, CryptoResult, Spake2Operation}
use openscreen_rs.Crypto.Provider.{CryptoProvider}
use openscreen_rs.Network.{NetworkInput, NetworkOutput}
use openscreen_rs.Network.CryptoData.{CryptoData}
use openscreen_rs.Network.StateMachine.Context.Writes.{is_spake2}
use openscreen_rs.Network.StateMachine.Spake2.{Spake2StateMachine, handle, new}
use openscreen_rs.Network.StateMachine.Spake2.Evidence.{is_ok_status}

-- What reaches the machine from outside: everything but the result of a crypto request.
pub data Incoming : Type 0 where
  transport_connected : Incoming
  stream_opened : (stream : ℕ) → Incoming
  stream_closed : (stream : ℕ) → Incoming
  data_received : (stream : ℕ) (bytes : List ℕ) → Incoming
  tick : (now : ℕ) → Incoming

abbrev pub network_input : Incoming → NetworkInput
network_input Incoming.transport_connected = NetworkInput.transport_connected
network_input (Incoming.stream_opened stream) = NetworkInput.stream_opened stream
network_input (Incoming.stream_closed stream) = NetworkInput.stream_closed stream
network_input (Incoming.data_received stream bytes) = NetworkInput.data_received stream bytes
network_input (Incoming.tick now) = NetworkInput.tick now

abbrev pub requests_in : List NetworkOutput → List CryptoRequest
requests_in [] = []
requests_in (NetworkOutput.request_crypto request ∷ outputs) = request ∷ requests_in outputs
requests_in (output ∷ outputs) = requests_in outputs

-- The machine, the provider, the requests that wait for their turn, and what happened so far: the
-- requests that were answered, and whether the peer said Ok when the machine was in AwaitingStatus.
pub record Session (S : Type 0) : Type 0 where
  pub machine : Spake2StateMachine
  pub provider : S
  pub pending : List CryptoRequest
  pub answered : List (CryptoRequest × CryptoResult)
  pub peer_said_ok : Bool

-- An input from outside, or the oldest request to the provider.
pub data Turn : Type 0 where
  incoming : Incoming → Turn
  answer : Turn

abbrev pub is_verification : CryptoRequest → Bool
is_verification request = elim request.kind [
  | CryptoOpKind.spake2 (Spake2Operation.verify_confirmation context mac) ↦ true
  | _ ↦ false
]

-- Whether a VerifyConfirmation was answered with success.
abbrev pub has_verified : List (CryptoRequest × CryptoResult) → Bool
has_verified [] = false
has_verified ((request, result) ∷ answered) =
    (is_verification request && is_empty result.payload) || has_verified answered

-- Of the SPAKE2 requests only a VerifyConfirmation is answered with an empty result.
pub record Honest {S : Type 0} (p : CryptoProvider S) : Type 0 where
  pub empty_answer :
      (request : CryptoRequest) (s : S) (result : CryptoResult)
      → is_spake2 request ≡ true
      → (p.execute request s).0 ≡ ok result
      → is_empty result.payload ≡ true
      → is_verification request ≡ true

module _ (d : Deps) {S : Type 0} (p : CryptoProvider S) where
  unfoldable pub feed : NetworkInput → Session S → Session S
  feed input s =
      let done = handle d s.machine input [] in
      record s {
        machine = done.machine;
        pending = s.pending ++ requests_in done.outputs;
        peer_said_ok = s.peer_said_ok || is_ok_status d s.machine.state input;
      }

  -- The result of a request that succeeds is fed to the machine.
  unfoldable pub completed :
      CryptoRequest
      → List CryptoRequest
      → Session S
      → Outcome CryptoError CryptoResult × S
      → Session S
  completed request more s (ok result, provider) =
      feed (NetworkInput.crypto_completed result) (record s {
        provider = provider;
        pending = more;
        answered = (request, result) ∷ s.answered;
      })
  completed request more s (err e, provider) = record s { provider = provider; pending = more }
  completed request more s (panic, provider) = record s { provider = provider; pending = more }

  unfoldable pub answer_oldest : List CryptoRequest → Session S → Session S
  answer_oldest [] s = s
  answer_oldest (request ∷ more) s = completed request more s (p.execute request s.provider)

  unfoldable pub take_turn : Turn → Session S → Session S
  take_turn (Turn.incoming i) s = feed (network_input i) s
  take_turn Turn.answer s = answer_oldest s.pending s

  unfoldable pub take_turns : List Turn → Session S → Session S
  take_turns [] s = s
  take_turns (turn ∷ turns) s = take_turns turns (take_turn turn s)

  abbrev pub new_session : CryptoData → S → Session S
  new_session c provider = record {
    machine = new c;
    provider = provider;
    pending = [];
    answered = [];
    peer_said_ok = false;
  }
