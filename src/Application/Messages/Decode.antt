-- ===== src/Application/Messages/Decode.antt =====
-- openscreen-application/src/messages.rs: `decode` of each message. The state of an action is the rest
-- of the input. What the decoders repeat is here once: the loop over the fields of a map, the loops
-- over the items of an array, the value of an enumeration, a text of bounded length.
pub mod Agent
pub mod Start
pub mod Termination
pub mod Availability
pub mod Opening
pub mod Connection
pub mod Message
use openscreen_rs.Base.{
  ℕ, zero, suc, Bool, true, false, Option, none, some, List, [], length, drop, leb, ensure, Outcome,
  ok, err, panic, Action, pure, raise, fault, lift, ◌>>=◌, ◌>>◌, if◌then◌else◌, ◌==◌,
}
use openscreen_rs.Deps.{Deps}
use openscreen_rs.Common.{MessageError}
use openscreen_rs.Common.TypeKey.{decode_type_key}
use openscreen_rs.Network.Messages.Codec.{read}
use openscreen_rs.Network.Messages.Codec.Decode.{slice_from, decode_in}
use openscreen_rs.Application.Kinds.{ApplicationMessageType, application_key, max_text_len}

-- `Option::is_some`
abbrev pub is_some : {A : Type 0} → Option A → Bool
is_some none = false
is_some (some a) = true

module _ (d : Deps) where
  -- `let value = decoder.u8()…?; T::from_u8(value)?`
  unfoldable pub decode_code :
      {A : Type 0} → (ℕ → Outcome MessageError A) → Action (List ℕ) MessageError A
  decode_code from_u8 = do value ← read d.decoder.u8; lift (from_u8 value)

  -- A text of at most MAX_STRING_LEN bytes.
  unfoldable pub decode_text : Action (List ℕ) MessageError (List ℕ)
  decode_text = do
    text ← read d.decoder.str
    ensure (leb (length text) max_text_len) MessageError.field_too_long
    pure text

  -- `for _ in 0..count`, with the locals that the fields are kept in until the end.
  unfoldable pub decode_fields :
      {F : Type 0}
      → (ℕ → F → Action (List ℕ) MessageError F)
      → ℕ
      → F
      → Action (List ℕ) MessageError F
  decode_fields field zero f = pure f
  decode_fields field (suc count) f = do
    key ← read d.decoder.u8
    f' ← field key f
    decode_fields field count f'

  module _ {A : Type 0} (capacity : ℕ) (item : Action (List ℕ) MessageError A) where
    -- `for _ in 0..len`, with a push to a vector of the given capacity.
    unfoldable pub decode_items : ℕ → List A → Action (List ℕ) MessageError (List A)
    decode_items zero items = pure items
    decode_items (suc len) items = do
      x ← item
      let pushed = d.heapless.push capacity items x
      if pushed.0 then decode_items len pushed.1 else raise MessageError.buffer_full

    -- `if let Some(len) = array_len`: an array of indefinite length is passed over.
    unfoldable pub decode_present : List A → Action (List ℕ) MessageError (List A)
    decode_present items = do
      array_len ← read d.decoder.array
      elim array_len [ none ↦ pure items | some len ↦ decode_items len items ]

    -- `array_len.ok_or(MessageError::InvalidField)?`, then a new vector.
    unfoldable pub decode_count : Action (List ℕ) MessageError (List A)
    decode_count = do
      array_len ← read d.decoder.array
      elim array_len [
        | none ↦ raise MessageError.invalid_field
        | some count ↦ decode_items count []
      ]

  -- `decode` of one message: its type key, then the body in the rest of the data.
  abbrev pub expect_type :
      {A : Type 0}
      → ApplicationMessageType
      → Action (List ℕ) MessageError A
      → List ℕ
      → Outcome MessageError (ℕ × ℕ)
      → Outcome MessageError A
  expect_type kind body input (ok (key, consumed)) =
      if key == application_key kind
      then decode_in body (slice_from consumed input)
      else err MessageError.invalid_message_type
  expect_type kind body input (err e) = err e
  expect_type kind body input panic = panic

  abbrev pub decode_as_type :
      {A : Type 0}
      → ApplicationMessageType
      → Action (List ℕ) MessageError A
      → List ℕ
      → Outcome MessageError A
  decode_as_type kind body input = expect_type kind body input (decode_type_key d input)
