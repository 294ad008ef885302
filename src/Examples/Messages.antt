-- ===== src/Examples/Messages.antt =====
-- Messages, encoded and decoded.
use openscreen_rs.Base.{
  ◌≤◌, ◌<◌, ◌≡◌, ◌⊎◌, refl, some, [], ◌∷◌, ◌++◌, ◌+◌, length, arith, ok, flatten, is_utf8,
}
use openscreen_rs.Base.Keeps.{Keeps}
use openscreen_rs.Common.TypeKey.{decode_type_key}
use openscreen_rs.Network.Messages.{
  AuthCapabilities, Spake2PskStatus, PskInputEase, PskInputMethod, NetworkMessage,
}
use openscreen_rs.Network.Messages.Codec.Encode.{encode}
use openscreen_rs.Network.Messages.Codec.Decode.{decode}
use openscreen_rs.Network.Messages.Codec.Safe.{is_panic, is_need, decode_panics}
use openscreen_rs.Network.Messages.Codec.Wire.{wire, encode_exact}
use openscreen_rs.Network.Messages.Codec.Writes.{IsErr}
use openscreen_rs.Network.Messages.Codec.Bounded.{Stays, encode-Stays}
use openscreen_rs.Network.Messages.Codec.Reads.{decode_type_key-encode}
use openscreen_rs.Network.Messages.Codec.RoundTrip.{IsEncodable, decode-wire, decode-encode}
use openscreen_rs.Examples.Crates.{crates, crates-Laws, head}

abbrev offer : NetworkMessage
offer = NetworkMessage.auth_spake2_handshake (record {
  initiation_token = record { token = some (97 ∷ 116 ∷ []) };
  psk_status = Spake2PskStatus.psk_shown;
  public_value = 5 ∷ 5 ∷ [];
})

abbrev capabilities : AuthCapabilities
capabilities = record {
  psk_input_ease = PskInputEase.simple;
  psk_input_methods = PskInputMethod.numeric ∷ [];
  psk_min_bits_of_entropy = 64;
}

offer-IsEncodable : IsEncodable offer
unfolding is_utf8
offer-IsEncodable = ((refl, omega arith), omega arith)

-- `87ED` is the type key 1005, and the map follows.
offer_bytes :
    wire crates offer
    ≡ 0x43 ∷ 0xED ∷ 0xA3 ∷ 0x00 ∷ 0xA1 ∷ 0x00 ∷ 0x62 ∷ 97 ∷ 116 ∷ 0x01 ∷ 0x01 ∷ 0x02 ∷ 0x42 ∷ 5 ∷ 5
      ∷ []
unfolding head flatten
offer_bytes = refl

room : length (wire crates offer) ≤ 256
unfolding head flatten
room = omega arith

decode-encode_example :
    ((encode crates 256 offer []).0 ≡ ok tt)
    × (decode crates (encode crates 256 offer []).1 ≡ ok offer)
decode-encode_example = decode-encode crates crates-Laws 256 offer offer-IsEncodable room

decode-wire_example : decode crates (wire crates offer ++ 1 ∷ []) ≡ ok offer
decode-wire_example = decode-wire crates crates-Laws offer (1 ∷ []) offer-IsEncodable

encode_exact_example :
    (0 + length (wire crates offer) ≤ 10) × (encode crates 10 offer [] ≡ (ok tt, wire crates offer))
    ⊎ (10 < 0 + length (wire crates offer)) × IsErr (encode crates 10 offer []).0
encode_exact_example = encode_exact crates crates-Laws 10 offer [] (omega arith)

encode-Stays_example : Keeps (Stays 10 []) (encode crates 10 offer)
encode-Stays_example = encode-Stays crates crates-Laws 10 [] offer

decode_type_key-encode_example :
    decode_type_key crates (crates.varint.encode 1005 ++ 7 ∷ [])
    ≡ ok (1005, length (crates.varint.encode 1005))
decode_type_key-encode_example =
    decode_type_key-encode crates crates-Laws 1005 (7 ∷ []) (omega arith)

-- The type key 1002, which panics.
decode_panics_example :
    is_panic (decode crates (0x43 ∷ 0xEA ∷ []))
    ≡ is_need (decode_type_key crates (0x43 ∷ 0xEA ∷ []))
decode_panics_example = decode_panics crates (0x43 ∷ 0xEA ∷ [])
