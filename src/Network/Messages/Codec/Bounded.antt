-- ===== src/Network/Messages/Codec/Bounded.antt =====
-- An encoder never writes beyond the capacity of its buffer, whether it succeeds or not.
use openscreen_rs.Base.{
  fits_or_not, ℕ, ◌+◌, ◌≤◌, ◌≡◌, ◌⊎◌, inl, inr, none, some, Option, List, [], ◌∷◌, ◌++◌, arith,
  length, length-append, take, drop,
}
use openscreen_rs.Base.Keeps.{Keeps, keeps_rules, Keeps-pure, Keeps-bind}
use openscreen_rs.Deps.{Deps, Laws}
use openscreen_rs.Common.TypeKey.{encode_type_key}
use openscreen_rs.Network.Messages.{NetworkMessage, PskInputMethod}
use openscreen_rs.Network.Messages.Codec.{write_all, write_pieces, emit}
use openscreen_rs.Network.Messages.Codec.Encode.{
  encode, encode_methods, encode_methods_field, encode_capabilities, encode_token, encode_handshake,
  encode_confirmation, encode_status,
}

-- A buffer of capacity `n` that was `start`: it is within the capacity, or was not written.
abbrev pub Stays : ℕ → List ℕ → List ℕ → Type 0
Stays n start buf = (length buf ≤ n) ⊎ (buf ≡ start)

module _ (d : Deps) (laws : Laws d) (n : ℕ) (start : List ℕ) where
  pub extend-Stays :
      (buf bytes : List ℕ)
      → Stays n start buf
      → Stays n start (d.heapless.extend_from_slice n buf bytes).1
  extend-Stays buf bytes h = elim (fits_or_not (length buf + length bytes) n) [
    | inl fits ↦
        rw (laws.heapless.extend_fits n buf bytes fits)
          (inl (omega (arith, length-append buf bytes)))
    | inr full ↦ rw (laws.heapless.extend_full n buf bytes full) h
  ]

  write_all-Stays : (bytes : List ℕ) → Keeps (Stays n start) (write_all d n bytes)
  unfolding write_all
  write_all-Stays bytes = record { at = λ buf h. extend-Stays buf bytes h }

  write_pieces-Stays : (pieces : List (List ℕ)) → Keeps (Stays n start) (write_pieces d n pieces)
  unfolding write_pieces
  write_pieces-Stays [] = Keeps-pure tt
  write_pieces-Stays (piece ∷ pieces) =
      Keeps-bind _ _ (write_all-Stays piece) (λ _. write_pieces-Stays pieces)

  emit-Stays : (pieces : List (List ℕ)) → Keeps (Stays n start) (emit d n pieces)
  unfolding emit
  emit-Stays pieces = record { at = (write_pieces-Stays pieces).at }

  type_key-Stays : (key : ℕ) → Keeps (Stays n start) (encode_type_key d n key)
  unfolding encode_type_key
  type_key-Stays key = record {
    at = λ buf h. ground (
      arith,
      extend-Stays buf
          (take (d.varint.size key)
            (d.varint.encode key ++ drop (length (d.varint.encode key)) (0 ∷ 0 ∷ 0 ∷ 0 ∷ [])))
          h,
    );
  }

  methods-Stays :
      (methods : List PskInputMethod) → Keeps (Stays n start) (encode_methods d n methods)
  unfolding encode_methods
  methods-Stays [] = Keeps-pure tt
  methods-Stays (method ∷ methods) = Keeps-bind _ _ (emit-Stays _) (λ _. methods-Stays methods)

  methods_field-Stays :
      (methods : List PskInputMethod) → Keeps (Stays n start) (encode_methods_field d n methods)
  unfolding encode_methods_field
  methods_field-Stays [] = Keeps-pure tt
  methods_field-Stays (method ∷ methods) = search (keeps_rules, emit-Stays, methods-Stays)

  token-Stays : (token : Option (List ℕ)) → Keeps (Stays n start) (encode_token d n token)
  unfolding encode_token
  token-Stays (some token) = search (keeps_rules, emit-Stays)
  token-Stays none = emit-Stays _

  -- On success, on failure and on a panic, `encode` leaves the buffer as it was at the start, or
  -- within its capacity, from any buffer that is so.
  pub encode-Stays : (msg : NetworkMessage) → Keeps (Stays n start) (encode d n msg)
  unfolding encode encode_capabilities encode_handshake encode_confirmation encode_status
  encode-Stays (NetworkMessage.auth_capabilities msg) =
      search (keeps_rules, emit-Stays, type_key-Stays, methods_field-Stays) depth 12
  encode-Stays (NetworkMessage.auth_spake2_handshake msg) =
      search (keeps_rules, emit-Stays, type_key-Stays, token-Stays) depth 12
  encode-Stays _ = search (keeps_rules, emit-Stays, type_key-Stays) depth 12
