-- ===== src/Network/StateMachine/Spake2/Steps.antt =====
-- One call of `handle` on each side of the exchange of handshake messages.
use openscreen_rs.Base.{
  ℕ, ◌≤◌, ◌<◌, ◌≡◌, refl, ap, ◌∙◌, true, none, List, [], ◌∷◌, ◌++◌, length, is_utf8, arith, ok,
  ◌>>=◌, gets, pure,
}
use openscreen_rs.Deps.{Deps, Laws}
use openscreen_rs.Crypto.{CryptoOpKind, Spake2Operation}
use openscreen_rs.Network.{NetworkInput, NetworkOutput, max_output_queue}
use openscreen_rs.Network.Messages.{Spake2PskStatus}
use openscreen_rs.Network.Messages.Codec.Wire.{wire}
use openscreen_rs.Network.CryptoData.{CryptoData}
use openscreen_rs.Network.CryptoData.Buffers.{Buffer, put}
use openscreen_rs.Network.StateMachine.Context.{State, Context, request, request_finish}
use openscreen_rs.Network.StateMachine.Context.Fits.{push_fits, transcript_fits}
use openscreen_rs.Network.StateMachine.Handlers.{
  InitiatingHandshake.handle as initiating_handshake_handle,
  GeneratingHandshake.handle as generating_handshake_handle,
}
use openscreen_rs.Network.StateMachine.Spake2.{Spake2StateMachine, Handled, dispatch, handle}
use openscreen_rs.Network.StateMachine.Spake2.Handshake.{handshake, published, publish_fits}

-- The request for the keys, from the buffers.
abbrev pub finish_request : ℕ → CryptoData → NetworkOutput
finish_request op_id c = NetworkOutput.request_crypto (record {
  op_id = op_id;
  kind = CryptoOpKind.spake2 (
      Spake2Operation.finish_with_confirmation c.spake2_public c.peer_public_temp c.transcript
        c.my_fingerprint c.peer_fingerprint c.is_responder);
})

-- The request for a public value.
abbrev pub start_request : CryptoData → NetworkOutput
start_request c = NetworkOutput.request_crypto (record {
  op_id = 1;
  kind = CryptoOpKind.spake2 (Spake2Operation.start none c.psk c.is_responder);
})

-- The buffers of a side that has received a handshake message.
abbrev pub answered : List ℕ → List ℕ → CryptoData → CryptoData
answered bytes public_value c =
    put Buffer.peer_public_temp public_value (put Buffer.peer_handshake_msg bytes c)

module _ (d : Deps) (laws : Laws d) where
  pub finish_fits :
      (op_id : ℕ) (s : Context)
      → length s.outputs < max_output_queue
      → request_finish d op_id s
        ≡ (ok tt, record s { outputs = s.outputs ++ finish_request op_id s.crypto ∷ [] })
  unfolding request_finish request gets ◌>>=◌
  finish_fits op_id s room = rw (push_fits d laws (finish_request op_id s.crypto) s room) refl

  -- The initiator sends its handshake message.
  pub offers :
      (c : CryptoData) (op_id : ℕ) (value : List ℕ)
      → is_utf8 c.auth_token ≡ true
      → length c.auth_token ≤ 64
      → length value ≤ 64
      → length (wire d (handshake Spake2PskStatus.psk_shown c.auth_token value)) ≤ 256
      → handle d
          (record { state = State.initiating_handshake; crypto_data = c })
          (NetworkInput.crypto_completed (record { op_id = op_id; payload = value }))
          []
        ≡ record {
          result = ok tt;
          machine = record {
            state = State.awaiting_handshake;
            crypto_data = published d Spake2PskStatus.psk_shown value c;
          };
          outputs =
              NetworkOutput.send_message (handshake Spake2PskStatus.psk_shown c.auth_token value)
              ∷ [];
        }
  unfolding handle dispatch initiating_handshake_handle pure ◌>>=◌
  offers c op_id value valid fits value_fits wire_fits =
      rw
        (publish_fits d laws Spake2PskStatus.psk_shown value (record { crypto = c; outputs = [] })
          valid fits (omega (arith, value_fits)) wire_fits (omega arith))
        refl

  -- The responder sends its own, and asks for the keys.
  pub answers :
      (c : CryptoData) (op_id : ℕ) (value : List ℕ)
      → is_utf8 c.auth_token ≡ true
      → length c.auth_token ≤ 64
      → length value ≤ 64
      → length (wire d (handshake Spake2PskStatus.psk_input c.auth_token value)) ≤ 256
      → length c.peer_handshake_msg ≤ 256
      → let after =
          put Buffer.transcript
            (c.peer_handshake_msg
              ++ wire d (handshake Spake2PskStatus.psk_input c.auth_token value))
            (published d Spake2PskStatus.psk_input value c) in
        handle d
          (record { state = State.generating_handshake; crypto_data = c })
          (NetworkInput.crypto_completed (record { op_id = op_id; payload = value }))
          []
        ≡ record {
          result = ok tt;
          machine = record { state = State.computing; crypto_data = after };
          outputs =
              NetworkOutput.send_message (handshake Spake2PskStatus.psk_input c.auth_token value)
              ∷ finish_request 2 after
              ∷ [];
        }
  unfolding handle dispatch generating_handshake_handle pure ◌>>=◌
  answers c op_id value valid fits value_fits wire_fits peer_fits =
      let p = published d Spake2PskStatus.psk_input value c in
      let sent =
        NetworkOutput.send_message (handshake Spake2PskStatus.psk_input c.auth_token value) ∷ [] in
      rw
        (
          publish_fits d laws Spake2PskStatus.psk_input value (record { crypto = c; outputs = [] })
              valid fits (omega (arith, value_fits)) wire_fits (omega arith),
          transcript_fits d laws (λ c. c.peer_handshake_msg) (λ c. c.our_handshake_msg)
              (record { crypto = p; outputs = sent }) (omega (arith, wire_fits, peer_fits)),
          finish_fits 2
              (record {
                crypto =
                    put Buffer.transcript
                      (c.peer_handshake_msg
                        ++ wire d (handshake Spake2PskStatus.psk_input c.auth_token value))
                      p;
                outputs = sent;
              })
              (omega arith),
        )
        refl

  pub second_call :
      (m : Spake2StateMachine) (i j : NetworkInput) {first second : Handled}
      → handle d m i [] ≡ first
      → handle d first.machine j [] ≡ second
      → handle d (handle d m i []).machine j [] ≡ second
  second_call m i j p q = ap (λ (h : Handled). handle d h.machine j []) p ∙ q
