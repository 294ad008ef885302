-- ===== src/Application/Messages/Wire.antt =====
-- The bytes of each application message on the wire: its type key, then a CBOR map. The encoders write
-- them.
pub mod Agent
pub mod Presentation
pub mod Availability
pub mod Connection
pub mod Message
use openscreen_rs.Base.{ℕ, ◌++◌, List, [], ◌∷◌, flatten, length, Action}
use openscreen_rs.Deps.{Deps, Laws}
use openscreen_rs.Common.{MessageError}
use openscreen_rs.Common.TypeKey.{encode_type_key}
use openscreen_rs.Network.Messages.Codec.Writes.{
  Writes, Writes-pure, Writes-then, emit-Writes, type_key-Writes,
}
use openscreen_rs.Application.Kinds.{ApplicationMessageType, application_key}
use openscreen_rs.Application.Codes.{application_key_small}
use openscreen_rs.Application.Messages.Encode.{encode_items, encode_list}

module _ (d : Deps) where
  abbrev pub kind_bytes : ApplicationMessageType → List ℕ
  kind_bytes kind = d.varint.encode (application_key kind)

  abbrev pub u64_bytes : ℕ → List ℕ
  u64_bytes x = flatten (d.encoder.u64 x)

  abbrev pub u16_bytes : ℕ → List ℕ
  u16_bytes x = flatten (d.encoder.u16 x)

  abbrev pub text_bytes : List ℕ → List ℕ
  text_bytes text = flatten (d.encoder.str text)

  abbrev pub items_bytes : {A : Type 0} → (A → List ℕ) → List A → List ℕ
  items_bytes item_bytes [] = []
  items_bytes item_bytes (x ∷ xs) = item_bytes x ++ items_bytes item_bytes xs

  abbrev pub list_bytes : {A : Type 0} → (A → List ℕ) → List A → List ℕ
  list_bytes item_bytes xs = flatten (d.encoder.array (length xs)) ++ items_bytes item_bytes xs

module _ (d : Deps) (laws : Laws d) (n : ℕ) where
  pub kind-Writes :
      (kind : ApplicationMessageType)
      → Writes n (encode_type_key d n (application_key kind)) (kind_bytes d kind)
  kind-Writes kind = type_key-Writes d laws n (application_key kind) (application_key_small kind)

  module _ {A : Type 0} {item : A → Action (List ℕ) MessageError (Unit {0})}
      {item_bytes : A → List ℕ} (item-Writes : (x : A) → Writes n (item x) (item_bytes x)) where
    items-Writes : (xs : List A) → Writes n (encode_items d n item xs) (items_bytes d item_bytes xs)
    unfolding encode_items
    items-Writes [] = Writes-pure n
    items-Writes (x ∷ xs) = Writes-then n (item-Writes x) (items-Writes xs)

    pub list-Writes :
        (xs : List A) → Writes n (encode_list d n item xs) (list_bytes d item_bytes xs)
    unfolding encode_list
    list-Writes xs = Writes-then n (emit-Writes d laws n _) (items-Writes xs)
