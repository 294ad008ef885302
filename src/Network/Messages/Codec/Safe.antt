-- ===== src/Network/Messages/Codec/Safe.antt =====
-- openscreen-network/src/messages.rs: which parts of `decode` can panic. The lemmas that the safety of
-- the application's decoders rests on too come first.
use openscreen_rs.Base.{
  Bool-cases, ==→≡, inl, inr, sym, ◌∙◌, ℕ, zero, suc, ◌^◌, ◌||◌, ◌≤◌, ◌-◌, ◌==◌, ◌≡◌, refl, arith,
  List, length, le→leb, Option, none, some, Bool, true, false, drop, ltb, Outcome, ok, err, panic,
  Action, lift, ◌>>=◌, ◌>>◌, ensure, fault, if◌then◌else◌,
}
use openscreen_rs.Base.Safe.{
  IsSafe, IsSafe-if, Safe, Safe-pure, Safe-raise, Safe-lift, Safe-if, Safe-bind, Safe-ensure,
  safe_rules,
}
use openscreen_rs.Deps.{Deps}
use openscreen_rs.Common.{MessageError}
use openscreen_rs.Common.TypeKey.{decode_type_key, checked_key}
use openscreen_rs.Network.Messages.{
  PskInputMethod, NetworkMessageType, type_key, message_type_from_u16, psk_status_from_u8,
  input_ease_from_u8, input_method_from_u8, status_from_u8, max_methods,
}
use openscreen_rs.Network.Messages.Codec.{read, taken}
use openscreen_rs.Network.Messages.Codec.Decode.{
  unwrap, required, is_length, CapabilityFields, HandshakeFields, decode_methods,
  decode_method_list, capability_field, capability_fields, decode_capabilities_body, text_token,
  decode_token, handshake_field, handshake_fields, decode_handshake_body, decode_confirmation_body,
  decode_status_body, decode_body, decode_kind, decode_key, decode,
}

module _ {A : Type 0} where
  taken-IsSafe : (input : List ℕ) (o : Option (A × List ℕ)) → IsSafe (taken input o).0
  taken-IsSafe input none = tt
  taken-IsSafe input (some (a, rest)) = tt

  pub read-Safe : (op : List ℕ → Option (A × List ℕ)) → Safe (read op)
  unfolding read
  read-Safe op = record { at = λ input. taken-IsSafe input (op input) }

  pub required-Safe : {S : Type 0} (o : Option A) → Safe {S = S} (required o)
  required-Safe none = Safe-raise _
  required-Safe (some a) = Safe-pure a

stopped :
    {S B : Type 0} (e : MessageError) (m : Action S MessageError B) → Safe (ensure false e >> m)
unfolding ensure ◌>>=◌
stopped e m = record { at = λ s. tt }

-- A length that is unwrapped where a test has excluded `none`.
pub unwrap-Safe :
    {S B : Type 0} (test : Bool) (e : MessageError) (o : Option ℕ) (f : ℕ → Action S MessageError B)
    → (o ≡ none → test ≡ false)
    → ((n : ℕ) → Safe (f n))
    → Safe (ensure test e >> (unwrap o >>= f))
unwrap-Safe test e none f excluded h = rw (excluded refl) (stopped e (fault >>= f))
unwrap-Safe test e (some n) f excluded h =
    Safe-bind _ _ (Safe-ensure test e) (λ x. Safe-bind _ _ (Safe-pure n) h)

-- A type key that is read leaves the slice behind it within the input.
abbrev pub IsWithinInput : List ℕ → Outcome MessageError (ℕ × ℕ) → Type 0
IsWithinInput input (ok (key, consumed)) = consumed ≤ length input
IsWithinInput input (err e) = Unit {0}
IsWithinInput input panic = ⊥

pub key-IsWithinInput :
    (input : List ℕ) (o : Option (ℕ × List ℕ)) → IsWithinInput input (checked_key input o)
key-IsWithinInput input none = tt
key-IsWithinInput input (some (value, rest)) = small (ltb value (2 ^ 16))
  where
    small :
        (b : Bool)
        → IsWithinInput input (
            if b
            then ok (value, length input - length rest)
            else err MessageError.invalid_message_type)
    small true = omega arith
    small false = tt

psk_status-IsSafe : (value : ℕ) → IsSafe (psk_status_from_u8 value)
unfolding psk_status_from_u8
psk_status-IsSafe value = search (IsSafe-if) depth 24

input_ease-IsSafe : (value : ℕ) → IsSafe (input_ease_from_u8 value)
unfolding input_ease_from_u8
input_ease-IsSafe value = search (IsSafe-if) depth 24

input_method-IsSafe : (value : ℕ) → IsSafe (input_method_from_u8 value)
unfolding input_method_from_u8
input_method-IsSafe value = search (IsSafe-if) depth 24

status-IsSafe : (value : ℕ) → IsSafe (status_from_u8 value)
unfolding status_from_u8
status-IsSafe value = search (IsSafe-if) depth 24

-- A type of message that is decoded: every one but AuthSpake2Need.
abbrev IsSupported : Outcome MessageError NetworkMessageType → Type 0
IsSupported (ok NetworkMessageType.auth_spake2_need) = ⊥
IsSupported (ok _) = Unit {0}
IsSupported (err e) = Unit {0}
IsSupported panic = ⊥

IsSupported-if :
    (b : Bool) (r s : Outcome MessageError NetworkMessageType)
    → IsSupported r
    → IsSupported s
    → IsSupported (if b then r else s)
IsSupported-if true r s h k = h
IsSupported-if false r s h k = k

abbrev pub is_panic : {A : Type 0} → Outcome MessageError A → Bool
is_panic (ok a) = false
is_panic (err e) = false
is_panic panic = true

-- The type key that was read is that of AuthSpake2Need.
abbrev pub is_need : Outcome MessageError (ℕ × ℕ) → Bool
is_need (ok (key, consumed)) = key == type_key NetworkMessageType.auth_spake2_need
is_need (err e) = false
is_need panic = false

safe-is_panic : {A : Type 0} (o : Outcome MessageError A) → IsSafe o → is_panic o ≡ false
safe-is_panic (ok a) h = refl
safe-is_panic (err e) h = refl
safe-is_panic panic h = elim h [ ]

module _ (d : Deps) where
  methods-Safe : (len : ℕ) (methods : List PskInputMethod) → Safe (decode_methods d len methods)
  unfolding decode_methods
  methods-Safe zero methods = Safe-pure methods
  methods-Safe (suc len) methods = Safe-bind _ _ (read-Safe _) (λ code.
      Safe-bind _ _ (Safe-lift _ (input_method-IsSafe code)) (λ method.
        Safe-if (d.heapless.push max_methods methods method).0 _ _ (methods-Safe len _)
          (Safe-raise _)))

  method_list-Safe :
      (o : Option ℕ) (methods : List PskInputMethod) → Safe (decode_method_list d o methods)
  unfolding decode_method_list
  method_list-Safe none methods = Safe-pure methods
  method_list-Safe (some len) methods = methods-Safe len methods

  capability_field-Safe : (key : ℕ) (f : CapabilityFields) → Safe (capability_field d key f)
  unfolding capability_field
  capability_field-Safe key f =
      search (safe_rules, read-Safe, Safe-lift, input_ease-IsSafe, method_list-Safe) depth 24

  capability_fields-Safe : (count : ℕ) (f : CapabilityFields) → Safe (capability_fields d count f)
  unfolding capability_fields
  capability_fields-Safe zero f = Safe-pure f
  capability_fields-Safe (suc count) f =
      Safe-bind _ _ (read-Safe _)
        (λ key. Safe-bind _ _ (capability_field-Safe key f) (λ g. capability_fields-Safe count g))

  capabilities_body-Safe : Safe (decode_capabilities_body d)
  unfolding decode_capabilities_body
  capabilities_body-Safe = Safe-bind _ _ (read-Safe _) (λ map_len.
      unwrap-Safe (is_length 2 map_len || is_length 3 map_len) _ map_len _ (λ h. rw h refl)
        (λ count. search (safe_rules, required-Safe, capability_fields-Safe) depth 24))

  text_token-Safe : Safe (text_token d)
  unfolding text_token
  text_token-Safe = search (safe_rules, read-Safe) depth 24

  token-Safe : Safe (decode_token d)
  unfolding decode_token
  token-Safe = search (safe_rules, read-Safe, text_token-Safe) depth 24

  handshake_field-Safe : (key : ℕ) (f : HandshakeFields) → Safe (handshake_field d key f)
  unfolding handshake_field
  handshake_field-Safe key f =
      search (safe_rules, read-Safe, Safe-lift, psk_status-IsSafe, token-Safe) depth 24

  handshake_fields-Safe : (count : ℕ) (f : HandshakeFields) → Safe (handshake_fields d count f)
  unfolding handshake_fields
  handshake_fields-Safe zero f = Safe-pure f
  handshake_fields-Safe (suc count) f =
      Safe-bind _ _ (read-Safe _)
        (λ key. Safe-bind _ _ (handshake_field-Safe key f) (λ g. handshake_fields-Safe count g))

  handshake_body-Safe : Safe (decode_handshake_body d)
  unfolding decode_handshake_body
  handshake_body-Safe =
      search (safe_rules, read-Safe, required-Safe, handshake_fields-Safe) depth 24

  confirmation_body-Safe : Safe (decode_confirmation_body d)
  unfolding decode_confirmation_body
  confirmation_body-Safe = search (safe_rules, read-Safe) depth 24

  status_body-Safe : Safe (decode_status_body d)
  unfolding decode_status_body
  status_body-Safe = search (safe_rules, read-Safe, Safe-lift, status-IsSafe) depth 24

  type-IsSupported :
      (key : ℕ)
      → (key == type_key NetworkMessageType.auth_spake2_need) ≡ false
      → IsSupported (message_type_from_u16 key)
  unfolding message_type_from_u16
  type-IsSupported key other = rw other (
      IsSupported-if (key == 1001) _ _ tt (
        IsSupported-if (key == 1003) _ _ tt
          (IsSupported-if (key == 1004) _ _ tt (IsSupported-if (key == 1005) _ _ tt tt))))

  body-Safe : (kind : NetworkMessageType) → IsSupported (ok kind) → Safe (decode_body d kind)
  unfolding decode_body
  body-Safe NetworkMessageType.auth_capabilities h =
      Safe-bind _ _ capabilities_body-Safe (λ msg. Safe-pure _)
  body-Safe NetworkMessageType.auth_spake2_need h = elim h [ ]
  body-Safe NetworkMessageType.auth_spake2_confirmation h =
      Safe-bind _ _ confirmation_body-Safe (λ msg. Safe-pure _)
  body-Safe NetworkMessageType.auth_status h = Safe-bind _ _ status_body-Safe (λ msg. Safe-pure _)
  body-Safe NetworkMessageType.auth_spake2_handshake h =
      Safe-bind _ _ handshake_body-Safe (λ msg. Safe-pure _)

  kind-Safe :
      (kind : Outcome MessageError NetworkMessageType)
      → IsSupported kind
      → Safe (decode_kind d kind)
  unfolding lift ◌>>=◌
  kind-Safe (ok kind) h = record { at = λ rest. (body-Safe kind h).at rest }
  kind-Safe (err e) h = record { at = λ rest. tt }
  kind-Safe panic h = elim h [ ]

  kind-panics :
      (key : ℕ) (rest : List ℕ)
      → is_panic (decode_kind d (message_type_from_u16 key) rest).0
        ≡ (key == type_key NetworkMessageType.auth_spake2_need)
  unfolding decode_body message_type_from_u16 lift ◌>>=◌ fault
  kind-panics key rest = elim (Bool-cases (key == type_key NetworkMessageType.auth_spake2_need)) [
    | inl same ↦ rw (==→≡ key (type_key NetworkMessageType.auth_spake2_need) same) refl
    | inr other ↦ safe-is_panic _ ((kind-Safe _ (type-IsSupported key other)).at rest) ∙ sym other
  ]

  key-panics :
      (input : List ℕ) (key : Outcome MessageError (ℕ × ℕ))
      → IsWithinInput input key
      → is_panic (decode_key d input key) ≡ is_need key
  key-panics input (ok (key, consumed)) fits =
      rw (le→leb consumed (length input) fits) (kind-panics key (drop consumed input))
  key-panics input (err e) h = refl
  key-panics input panic h = elim h [ ]

  -- NetworkMessage::decode panics on an input exactly when the type key at its start is that of
  -- AuthSpake2Need; on every other input it returns a message or an error.
  pub decode_panics :
      (input : List ℕ) → is_panic (decode d input) ≡ is_need (decode_type_key d input)
  unfolding decode decode_type_key
  decode_panics input = key-panics input _ (key-IsWithinInput input (d.varint.decode input))
