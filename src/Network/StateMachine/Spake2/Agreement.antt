-- ===== src/Network/StateMachine/Spake2/Agreement.antt =====
-- An initiator and a responder that exchange their handshake messages ask for keys from one transcript.
use openscreen_rs.Base.{
  ℕ, ◌≤◌, ◌≡◌, ap, ◌∙◌, Bool, true, false, List, [], ◌∷◌, ◌++◌, length, is_utf8, arith, ok,
  append-nil,
}
use openscreen_rs.Deps.{Deps, Laws}
use openscreen_rs.Crypto.{CryptoOpKind, Spake2Operation}
use openscreen_rs.Network.{NetworkInput, NetworkOutput}
use openscreen_rs.Network.Messages.{Spake2PskStatus, NetworkMessage}
use openscreen_rs.Network.Messages.Codec.Decode.{decode}
use openscreen_rs.Network.Messages.Codec.Wire.{wire}
use openscreen_rs.Network.Messages.Codec.Bodies.{IsToken}
use openscreen_rs.Network.Messages.Codec.RoundTrip.{decode-wire}
use openscreen_rs.Network.CryptoData.{CryptoData}
use openscreen_rs.Network.StateMachine.Context.{State}
use openscreen_rs.Network.StateMachine.Spake2.{Spake2StateMachine, Handled, handle}
use openscreen_rs.Network.StateMachine.Spake2.Handshake.{token_field, handshake, published}
use openscreen_rs.Network.StateMachine.Spake2.Steps.{offers, answers, second_call, answered}
use openscreen_rs.Network.StateMachine.Spake2.Receives.{responder_receives, initiator_receives}

-- The request for the keys, from one's own public value, the peer's, the transcript, the two
-- fingerprints and the role.
abbrev pub keys_request : ℕ → List ℕ → List ℕ → List ℕ → List ℕ → List ℕ → Bool → NetworkOutput
keys_request op_id own peer transcript my_fingerprint peer_fingerprint is_responder =
    NetworkOutput.request_crypto (record {
      op_id = op_id;
      kind = CryptoOpKind.spake2 (
          Spake2Operation.finish_with_confirmation own peer transcript my_fingerprint
            peer_fingerprint is_responder);
    })

token_field-IsToken : (t : List ℕ) → is_utf8 t ≡ true → length t ≤ 64 → IsToken (token_field t)
token_field-IsToken [] valid fits = tt
token_field-IsToken (x ∷ xs) valid fits = (valid, omega (arith, fits))

module _ (d : Deps) (laws : Laws d) where
  own_wire :
      (status : Spake2PskStatus) (t value : List ℕ)
      → is_utf8 t ≡ true
      → length t ≤ 64
      → length value ≤ 64
      → decode d (wire d (handshake status t value)) ≡ ok (handshake status t value)
  own_wire status t value valid fits value_fits = rw append-nil at (
      decode-wire d laws (handshake status t value) []
        (token_field-IsToken t valid fits, value_fits))

  -- An initiator and a responder with the same token, each handed its public value by the crypto
  -- provider and the other's handshake message by the transport, end in Computing. Each has sent its
  -- own handshake message, both hold one transcript, the initiator's message and then the
  -- responder's, and each asks for the keys under that transcript with the public values and
  -- fingerprints in its own order. The token is valid UTF-8 of at most 64 bytes, the public values
  -- have at most 64 bytes, the messages at most 256, and the responder has no public value yet.
  pub one_transcript :
      (ci cr : CryptoData) (op_i op_r stream_i stream_r : ℕ) (pi pr : List ℕ)
      → ci.is_responder ≡ false
      → cr.is_responder ≡ true
      → cr.spake2_public ≡ []
      → ci.auth_token ≡ cr.auth_token
      → is_utf8 cr.auth_token ≡ true
      → length cr.auth_token ≤ 64
      → length pi ≤ 64
      → length pr ≤ 64
      → length (wire d (handshake Spake2PskStatus.psk_shown cr.auth_token pi)) ≤ 256
      → length (wire d (handshake Spake2PskStatus.psk_input cr.auth_token pr)) ≤ 256
      → let offer = handshake Spake2PskStatus.psk_shown cr.auth_token pi in
        let answer = handshake Spake2PskStatus.psk_input cr.auth_token pr in
        let transcript = wire d offer ++ wire d answer in
        let initiator : Spake2StateMachine = record {
          state = State.initiating_handshake;
          crypto_data = ci;
        } in
        let responder : Spake2StateMachine = record {
          state = State.awaiting_handshake;
          crypto_data = cr;
        } in
        let i1 =
          handle d initiator
            (NetworkInput.crypto_completed (record { op_id = op_i; payload = pi }))
            [] in
        let r1 = handle d responder (NetworkInput.data_received stream_r (wire d offer)) [] in
        let r2 =
          handle d r1.machine
            (NetworkInput.crypto_completed (record { op_id = op_r; payload = pr }))
            [] in
        let i2 = handle d i1.machine (NetworkInput.data_received stream_i (wire d answer)) [] in
        (i1.outputs ≡ NetworkOutput.send_message offer ∷ [])
        × (r2.outputs
            ≡ NetworkOutput.send_message answer
              ∷ keys_request 2 pr pi transcript cr.my_fingerprint cr.peer_fingerprint true
              ∷ [])
        × (i2.outputs
            ≡ keys_request 3 pi pr transcript ci.my_fingerprint ci.peer_fingerprint false ∷ [])
        × (i2.machine.state ≡ State.computing)
        × (r2.machine.state ≡ State.computing)
        × (i2.machine.crypto_data.transcript ≡ transcript)
        × (r2.machine.crypto_data.transcript ≡ transcript)
  one_transcript ci cr op_i op_r stream_i stream_r pi pr role_i role_r fresh same valid fits fits_i
        fits_r wire_i wire_r =
      let offer = handshake Spake2PskStatus.psk_shown cr.auth_token pi in
      let answer = handshake Spake2PskStatus.psk_input cr.auth_token pr in
      let i1 = offers d laws ci op_i pi (rw same valid) (rw same fits) fits_i (rw same wire_i) in
      let r1 =
        responder_receives d laws cr stream_r (wire d offer) pi Spake2PskStatus.psk_shown role_r
          fresh valid (own_wire Spake2PskStatus.psk_shown cr.auth_token pi valid fits fits_i) wire_i
          fits_i in
      let r2 =
        second_call d laws _ _ _ r1 (
          answers d laws (answered (wire d offer) pi cr) op_r pr valid fits fits_r wire_r wire_i) in
      let i2 = second_call d laws _ _ _ i1 (
        initiator_receives d laws (published d Spake2PskStatus.psk_shown pi ci) stream_i
          (wire d answer) pr Spake2PskStatus.psk_input role_i (rw same wire_i) (rw same valid)
          (rw same (own_wire Spake2PskStatus.psk_input cr.auth_token pr valid fits fits_r)) wire_r
          fits_r) in
      let offered : List ℕ → NetworkMessage = λ t. handshake Spake2PskStatus.psk_shown t pi in
      (
        ap (λ (h : Handled). h.outputs) i1
            ∙ ap (λ (t : List ℕ). NetworkOutput.send_message (offered t) ∷ []) same,
        ap (λ (h : Handled). h.outputs) r2
            ∙ ap
                (λ (b : Bool).
                  NetworkOutput.send_message answer
                  ∷ keys_request 2 pr pi (wire d offer ++ wire d answer) cr.my_fingerprint
                      cr.peer_fingerprint b
                  ∷ [])
                role_r,
        ap (λ (h : Handled). h.outputs) i2
            ∙ ap
                (λ (t : List ℕ).
                  keys_request 3 pi pr (wire d (offered t) ++ wire d answer) ci.my_fingerprint
                    ci.peer_fingerprint ci.is_responder
                  ∷ [])
                same
            ∙ ap
                (λ (b : Bool).
                  keys_request 3 pi pr (wire d offer ++ wire d answer) ci.my_fingerprint
                    ci.peer_fingerprint b
                  ∷ [])
                role_i,
        ap (λ (h : Handled). h.machine.state) i2,
        ap (λ (h : Handled). h.machine.state) r2,
        ap (λ (h : Handled). h.machine.crypto_data.transcript) i2
            ∙ ap (λ (t : List ℕ). wire d (offered t) ++ wire d answer) same,
        ap (λ (h : Handled). h.machine.crypto_data.transcript) r2,
      )
