-- ===== src/Network/StateMachine/Spake2/Ends.antt =====
-- The calls before the handshake messages, and those after the confirmation.
use openscreen_rs.Base.{
  ℕ, ◌^◌, ◌≤◌, ◌<◌, ◌≡◌, refl, Bool, true, false, none, List, [], ◌∷◌, ◌++◌, length, arith, ok,
  pure, gets, lift, ◌>>=◌,
}
use openscreen_rs.Deps.{Deps, Laws}
use openscreen_rs.Crypto.{CryptoOpKind, Spake2Operation}
use openscreen_rs.Network.{NetworkInput, NetworkOutput, NetworkEvent}
use openscreen_rs.Network.Messages.{AuthCapabilities, AuthStatusCode, NetworkMessage, max_methods}
use openscreen_rs.Network.Messages.Codec.Wire.{wire}
use openscreen_rs.Network.Messages.Codec.RoundTrip.{decode_capabilities-wire, decode_status-wire}
use openscreen_rs.Network.CryptoData.{CryptoData}
use openscreen_rs.Network.CryptoData.Buffers.{Buffer, put}
use openscreen_rs.Network.StateMachine.Context.{State, request_start, request}
use openscreen_rs.Network.StateMachine.Context.Fits.{push_fits, store_fits}
use openscreen_rs.Network.StateMachine.Handlers.{
  Idle.handle as idle_handle, Idle.default_capabilities,
  AwaitingCapabilities.handle as awaiting_capabilities_handle, AwaitingCapabilities.start_role,
  Computing.handle as computing_handle, Computing.announce_success,
  AwaitingStatus.handle as awaiting_status_handle, AwaitingStatus.finish as awaiting_status_finish,
}
use openscreen_rs.Network.StateMachine.Spake2.{Spake2StateMachine, dispatch, handle}
use openscreen_rs.Network.StateMachine.Spake2.Final.{run}
use openscreen_rs.Network.StateMachine.Spake2.Keys.{sent, two_calls}

abbrev pub ok_status : NetworkMessage
ok_status = NetworkMessage.auth_status (record { status = AuthStatusCode.ok })

-- The state of each role after the capabilities, and what it asks for.
abbrev pub role_state : Bool → State
role_state true = State.awaiting_handshake
role_state false = State.initiating_handshake

abbrev pub role_requests : Bool → CryptoData → List NetworkOutput
role_requests true c = []
role_requests false c =
    NetworkOutput.request_crypto
      (record { op_id = 1; kind = CryptoOpKind.spake2 (Spake2Operation.start none c.psk false) })
    ∷ []

module _ (d : Deps) (laws : Laws d) where
  connects :
      (c : CryptoData)
      → handle d
          (record { state = State.idle; crypto_data = c })
          NetworkInput.transport_connected
          []
        ≡ record {
          result = ok tt;
          machine = record { state = State.awaiting_capabilities; crypto_data = c };
          outputs =
              NetworkOutput.send_message (NetworkMessage.auth_capabilities default_capabilities)
              ∷ [];
        }
  unfolding handle dispatch idle_handle pure ◌>>=◌
  connects c =
      rw
        (push_fits d laws
          (NetworkOutput.send_message (NetworkMessage.auth_capabilities default_capabilities))
          (record { crypto = c; outputs = [] }) (omega arith))
        refl

  starts :
      (c : CryptoData) (b : Bool)
      → start_role d b (record { crypto = c; outputs = [] })
        ≡ (ok (role_state b), record { crypto = c; outputs = role_requests b c })
  unfolding start_role request_start request gets pure ◌>>=◌
  starts c true = refl
  starts c false = rw (push_fits d laws _ (record { crypto = c; outputs = [] }) (omega arith)) refl

  learns :
      (c : CryptoData) (stream : ℕ) (msg : AuthCapabilities) (rest : List ℕ)
      → length msg.psk_input_methods ≤ max_methods
      → msg.psk_min_bits_of_entropy < 2 ^ 32
      → handle d
          (record { state = State.awaiting_capabilities; crypto_data = c })
          (NetworkInput.data_received stream
            (wire d (NetworkMessage.auth_capabilities msg) ++ rest))
          []
        ≡ record {
          result = ok tt;
          machine = record { state = role_state c.is_responder; crypto_data = c };
          outputs = role_requests c.is_responder c;
        }
  unfolding handle dispatch awaiting_capabilities_handle lift gets ◌>>=◌
  learns c stream msg rest room small =
      rw (decode_capabilities-wire d laws msg rest room small, starts c c.is_responder) refl

  -- A machine in Idle that is connected and then gets the capabilities of a peer, with at most eight
  -- methods and an entropy below 2^32, whatever bytes follow, has sent its own. A responder then waits
  -- for the handshake message; an initiator has asked for its public value. No buffer has changed.
  pub exchanges_capabilities :
      (c : CryptoData) (stream : ℕ) (msg : AuthCapabilities) (rest : List ℕ)
      → length msg.psk_input_methods ≤ max_methods
      → msg.psk_min_bits_of_entropy < 2 ^ 32
      → let m : Spake2StateMachine = record { state = State.idle; crypto_data = c } in
        let received =
          NetworkInput.data_received stream
            (wire d (NetworkMessage.auth_capabilities msg) ++ rest) in
        (run d m (NetworkInput.transport_connected ∷ received ∷ [])
          ≡ record { state = role_state c.is_responder; crypto_data = c })
        × (sent d m (NetworkInput.transport_connected ∷ received ∷ [])
            ≡ NetworkOutput.send_message (NetworkMessage.auth_capabilities default_capabilities)
              ∷ role_requests c.is_responder c)
  exchanges_capabilities c stream msg rest room small =
      two_calls d _ _ _ (connects c) (learns c stream msg rest room small)

  admits :
      (c : CryptoData) (stream : ℕ) (rest : List ℕ)
      → handle d
          (record { state = State.awaiting_status; crypto_data = c })
          (NetworkInput.data_received stream (wire d ok_status ++ rest))
          []
        ≡ record {
          result = ok tt;
          machine = record { state = State.authenticated; crypto_data = c };
          outputs = NetworkOutput.event NetworkEvent.authenticated ∷ [];
        }
  unfolding handle dispatch awaiting_status_handle awaiting_status_finish lift pure ◌>>=◌
  admits c stream rest =
      rw
        (
          decode_status-wire d laws (record { status = AuthStatusCode.ok }) rest,
          push_fits d laws (NetworkOutput.event NetworkEvent.authenticated)
              (record { crypto = c; outputs = [] }) (omega arith),
        )
        refl

  announces :
      (c : CryptoData) (op_id : ℕ)
      → handle d
          (record { state = State.computing; crypto_data = c })
          (NetworkInput.crypto_completed (record { op_id = op_id; payload = [] }))
          []
        ≡ record {
          result = ok tt;
          machine = record { state = State.awaiting_status; crypto_data = c };
          outputs = NetworkOutput.send_message ok_status ∷ [];
        }
  unfolding handle dispatch computing_handle announce_success pure ◌>>=◌
  announces c op_id =
      rw
        (push_fits d laws (NetworkOutput.send_message ok_status)
          (record { crypto = c; outputs = [] }) (omega arith))
        refl

  -- In Computing, a verified confirmation and then a message with the status Ok, whatever bytes follow
  -- it, lead to Authenticated: the machine has sent its own status and reported the event, and no
  -- buffer has changed.
  pub authenticates :
      (c : CryptoData) (op_id stream : ℕ) (rest : List ℕ)
      → let m : Spake2StateMachine = record { state = State.computing; crypto_data = c } in
        let verified = NetworkInput.crypto_completed (record { op_id = op_id; payload = [] }) in
        let status = NetworkInput.data_received stream (wire d ok_status ++ rest) in
        (run d m (verified ∷ status ∷ []) ≡ record { state = State.authenticated; crypto_data = c })
        × (sent d m (verified ∷ status ∷ [])
            ≡ NetworkOutput.send_message ok_status
              ∷ NetworkOutput.event NetworkEvent.authenticated
              ∷ [])
  authenticates c op_id stream rest = two_calls d _ _ _ (announces c op_id) (admits c stream rest)

  keeps_early :
      (c : CryptoData) (stream : ℕ) (bytes : List ℕ)
      → length bytes ≤ 256
      → handle d
          (record { state = State.computing; crypto_data = c })
          (NetworkInput.data_received stream bytes)
          []
        ≡ record {
          result = ok tt;
          machine = record {
            state = State.computing;
            crypto_data = put Buffer.pending_confirmation_bytes bytes c;
          };
          outputs = [];
        }
  unfolding handle dispatch computing_handle pure ◌>>=◌
  keeps_early c stream bytes fits =
      rw
        (store_fits d laws Buffer.pending_confirmation_bytes bytes
          (record { crypto = c; outputs = [] }) fits)
        refl

  -- A message of at most 256 bytes that comes in Computing while a confirmation is being verified,
  -- such as a status Ok, is not acted upon: after the verification the machine has sent its own status
  -- and is in AwaitingStatus, with the message in the buffer for pending confirmations.
  pub early_message_waits :
      (c : CryptoData) (op_id stream : ℕ) (bytes : List ℕ)
      → length bytes ≤ 256
      → let m : Spake2StateMachine = record { state = State.computing; crypto_data = c } in
        let early = NetworkInput.data_received stream bytes in
        let verified = NetworkInput.crypto_completed (record { op_id = op_id; payload = [] }) in
        (run d m (early ∷ verified ∷ []) ≡ record {
          state = State.awaiting_status;
          crypto_data = put Buffer.pending_confirmation_bytes bytes c;
        })
        × (sent d m (early ∷ verified ∷ []) ≡ NetworkOutput.send_message ok_status ∷ [])
  early_message_waits c op_id stream bytes fits =
      two_calls d _ _ _ (keeps_early c stream bytes fits)
        (announces (put Buffer.pending_confirmation_bytes bytes c) op_id)
