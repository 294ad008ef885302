-- ===== src/Network/StateMachine/Spake2/Handshake.antt =====
-- The exchange of the handshake messages between an initiator and a responder.
use openscreen_rs.Base.{
  ℕ, ◌≤◌, ◌<◌, ◌≡◌, refl, ap, true, Option, none, some, List, [], ◌∷◌, ◌++◌, length, is_empty,
  is_utf8, from_utf8, arith, ok, ◌>>=◌, gets, pure, if◌then◌else◌,
}
use openscreen_rs.Deps.{Deps, Laws}
use openscreen_rs.Network.{NetworkOutput, max_output_queue}
use openscreen_rs.Network.Messages.{Spake2PskStatus, NetworkMessage}
use openscreen_rs.Network.Messages.Codec.Wire.{wire, encode-Writes}
use openscreen_rs.Network.CryptoData.{CryptoData}
use openscreen_rs.Network.CryptoData.Buffers.{Buffer, put, clear}
use openscreen_rs.Network.StateMachine.Context.{
  Context, on_crypto, copy_token, push_token, push_token_str, encode_own, publish_handshake,
}
use openscreen_rs.Network.StateMachine.Context.Fits.{store_fits, push_fits}

abbrev pub token_field : List ℕ → Option (List ℕ)
token_field token = if is_empty token then none else some token

-- The handshake message of a side with this token and this public value.
abbrev pub handshake : Spake2PskStatus → List ℕ → List ℕ → NetworkMessage
handshake status token public_value = NetworkMessage.auth_spake2_handshake (record {
  initiation_token = record { token = token_field token };
  psk_status = status;
  public_value = public_value;
})

-- The buffers of a side that has sent it.
abbrev pub published : Deps → Spake2PskStatus → List ℕ → CryptoData → CryptoData
published d status public_value c =
    put Buffer.our_handshake_msg (wire d (handshake status c.auth_token public_value))
      (put Buffer.auth_token_temp c.auth_token (put Buffer.spake2_public public_value c))

module _ (d : Deps) (laws : Laws d) where
  copied :
      (t : List ℕ) (s : Context)
      → s.crypto.auth_token_temp ≡ []
      → is_utf8 t ≡ true
      → length t ≤ 64
      → (if is_empty t then pure tt else push_token_str d (from_utf8 t)) s
        ≡ (ok tt, record s { crypto = put Buffer.auth_token_temp t s.crypto })
  unfolding push_token_str push_token on_crypto pure from_utf8
  copied [] s empty valid fits =
      ap (λ (x : List ℕ). (ok tt, record s { crypto = put Buffer.auth_token_temp x s.crypto }))
        empty
  copied (x ∷ xs) s empty valid fits =
      let e = laws.heapless.push_str_fits 64 [] (x ∷ xs) (omega (arith, fits)) in
      rw (valid, empty, e) refl

  copy_fits :
      (s : Context)
      → s.crypto.auth_token_temp ≡ []
      → is_utf8 s.crypto.auth_token ≡ true
      → length s.crypto.auth_token ≤ 64
      → copy_token d s
        ≡ (ok tt, record s { crypto = put Buffer.auth_token_temp s.crypto.auth_token s.crypto })
  unfolding copy_token gets ◌>>=◌
  copy_fits s empty valid fits = copied s.crypto.auth_token s empty valid fits

  pub publish_fits :
      (status : Spake2PskStatus) (public_value : List ℕ) (s : Context)
      → is_utf8 s.crypto.auth_token ≡ true
      → length s.crypto.auth_token ≤ 64
      → length public_value ≤ 640
      → length (wire d (handshake status s.crypto.auth_token public_value)) ≤ 256
      → length s.outputs < max_output_queue
      → publish_handshake d status public_value s ≡ (
        ok tt,
        record {
          crypto = published d status public_value s.crypto;
          outputs =
              s.outputs
              ++ NetworkOutput.send_message (handshake status s.crypto.auth_token public_value)
                ∷ [];
        },
      )
  unfolding publish_handshake on_crypto clear encode_own gets ◌>>=◌
  publish_fits status pv s valid fits value_fits wire_fits room =
      let c1 = put Buffer.spake2_public pv s.crypto in
      let c2 = put Buffer.auth_token_temp [] c1 in
      let c3 =
        put Buffer.our_handshake_msg [] (put Buffer.auth_token_temp s.crypto.auth_token c1) in
      rw
        (
          store_fits d laws Buffer.spake2_public pv s value_fits,
          copy_fits (record s { crypto = c2 }) refl valid fits,
          (encode-Writes d laws 256 (handshake status s.crypto.auth_token pv)).fits []
              (omega (arith, wire_fits)),
          push_fits d laws (NetworkOutput.send_message (handshake status s.crypto.auth_token pv))
              (record s { crypto = published d status pv s.crypto }) room,
        )
        refl
