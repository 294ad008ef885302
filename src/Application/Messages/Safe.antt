-- ===== src/Application/Messages/Safe.antt =====
-- The decoders of the application messages never panic: the parts that they share.
pub mod Agent
pub mod Presentation
pub mod Connection
pub mod Message
use openscreen_rs.Base.{
  ℕ, zero, suc, ◌^◌, ◌||◌, List, [], ◌∷◌, Option, none, some, Bool, true, false, drop, ltb, Outcome,
  ok, err, panic, Action, lift, ◌>>=◌, ◌>>◌, ensure, raise, fault, if◌then◌else◌, ◌≡◌, refl,
}
use openscreen_rs.Base.Safe.{
  IsSafe, IsSafe-if, Safe, Safe-pure, Safe-raise, Safe-lift, Safe-if, Safe-bind, Safe-option,
  Safe-ensure, safe_rules,
}
use openscreen_rs.Deps.{Deps}
use openscreen_rs.Common.{MessageError}
use openscreen_rs.Common.TypeKey.{decode_type_key, checked_key}
use openscreen_rs.Network.Messages.Codec.{read, taken}
use openscreen_rs.Network.Messages.Codec.Decode.{unwrap, required}
use openscreen_rs.Network.Messages.Codec.Safe.{read-Safe, required-Safe}
use openscreen_rs.Application.Kinds.{ApplicationMessageType, application_type_from_u16}
use openscreen_rs.Application.Enumerations.{
  capability_from_u8, result_from_u8, termination_source_from_u8, termination_reason_from_u8,
  close_reason_from_u8, availability_from_u8,
}
use openscreen_rs.Application.Messages.{ApplicationMessage}
use openscreen_rs.Application.Messages.Decode.{
  decode_code, decode_text, decode_fields, decode_items, decode_present, decode_count,
}

pub capability-IsSafe : (value : ℕ) → IsSafe (capability_from_u8 value)
unfolding capability_from_u8
capability-IsSafe value = search (IsSafe-if) depth 24

pub result-IsSafe : (value : ℕ) → IsSafe (result_from_u8 value)
unfolding result_from_u8
result-IsSafe value = search (IsSafe-if) depth 24

pub termination_source-IsSafe : (value : ℕ) → IsSafe (termination_source_from_u8 value)
unfolding termination_source_from_u8
termination_source-IsSafe value = search (IsSafe-if) depth 24

pub termination_reason-IsSafe : (value : ℕ) → IsSafe (termination_reason_from_u8 value)
unfolding termination_reason_from_u8
termination_reason-IsSafe value = search (IsSafe-if) depth 24

pub close_reason-IsSafe : (value : ℕ) → IsSafe (close_reason_from_u8 value)
unfolding close_reason_from_u8
close_reason-IsSafe value = search (IsSafe-if) depth 24

pub availability-IsSafe : (value : ℕ) → IsSafe (availability_from_u8 value)
unfolding availability_from_u8
availability-IsSafe value = search (IsSafe-if) depth 24

pub type-IsSafe : (value : ℕ) → IsSafe (application_type_from_u16 value)
unfolding application_type_from_u16
type-IsSafe value = search (IsSafe-if) depth 24

module _ (d : Deps) where
  pub code-Safe :
      {A : Type 0} (from_u8 : ℕ → Outcome MessageError A)
      → ((value : ℕ) → IsSafe (from_u8 value))
      → Safe (decode_code d from_u8)
  unfolding decode_code
  code-Safe from_u8 h = Safe-bind _ _ (read-Safe _) (λ value. Safe-lift (from_u8 value) (h value))

  pub text-Safe : Safe (decode_text d)
  unfolding decode_text
  text-Safe = search (safe_rules, read-Safe)

  pub fields-Safe :
      {F : Type 0} (field : ℕ → F → Action (List ℕ) MessageError F) (count : ℕ) (f : F)
      → ((key : ℕ) (g : F) → Safe (field key g))
      → Safe (decode_fields d field count f)
  unfolding decode_fields
  fields-Safe field zero f h = Safe-pure f
  fields-Safe field (suc count) f h =
      Safe-bind _ _ (read-Safe _)
        (λ key. Safe-bind _ _ (h key f) (λ g. fields-Safe field count g h))

  module _ {A : Type 0} (capacity : ℕ) (item : Action (List ℕ) MessageError A) where
    items-Safe :
        (len : ℕ) (items : List A) → Safe item → Safe (decode_items d capacity item len items)
    unfolding decode_items
    items-Safe zero items h = Safe-pure items
    items-Safe (suc len) items h =
        Safe-bind _ _ h (λ x.
          Safe-if (d.heapless.push capacity items x).0 _ _ (items-Safe len _ h) (Safe-raise _))

    pub present-Safe : (items : List A) → Safe item → Safe (decode_present d capacity item items)
    unfolding decode_present
    present-Safe items h =
        Safe-bind _ _ (read-Safe _)
          (λ array_len. Safe-option array_len _ _ (Safe-pure items) (λ len. items-Safe len items h))

    pub count-Safe : Safe item → Safe (decode_count d capacity item)
    unfolding decode_count
    count-Safe h =
        Safe-bind _ _ (read-Safe _)
          (λ array_len. Safe-option array_len _ _ (Safe-raise _) (λ count. items-Safe count [] h))

pub ruleset field_rules = (
  safe_rules, read-Safe, required-Safe, text-Safe, code-Safe, fields-Safe, present-Safe, count-Safe,
  capability-IsSafe, result-IsSafe, termination_source-IsSafe, termination_reason-IsSafe,
  close_reason-IsSafe, availability-IsSafe,
)
