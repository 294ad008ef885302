-- ===== src/Application/Messages/Reads.antt =====
-- The parts that the bodies of the application messages share are read back: fields, texts, codes and
-- lists.
pub mod Agent
pub mod Start
pub mod Termination
pub mod Availability
pub mod Opening
pub mod Connection
use openscreen_rs.Base.{
  ℕ, suc, ◌+◌, ◌^◌, ◌≤◌, ◌<◌, ◌≡◌, refl, Bool, true, some, List, [], ◌∷◌, ◌++◌, Each, arith, length,
  length-append, append-nil, append_assoc, flatten, Outcome, ok, Action, pure, raise, ensure, ◌>>=◌,
  ◌>>◌, is_utf8, if◌then◌else◌, le→leb,
}
use openscreen_rs.Deps.{Deps, Laws}
use openscreen_rs.Common.{MessageError}
use openscreen_rs.Network.Messages.Codec.{read}
use openscreen_rs.Network.Messages.Codec.Decode.{is_length}
use openscreen_rs.Network.Messages.Codec.Reads.{
  Reads, Reads-pure, Reads-lift, Reads-ensure, Reads-bind, Reads-last, u8-Reads, str-Reads,
  array-Reads, map-Reads,
}
use openscreen_rs.Network.Messages.Codec.Wire.{u8_bytes, map_bytes}
use openscreen_rs.Application.Messages.Sizes.{IsText, IsShortText}
use openscreen_rs.Application.Messages.Decode.{
  decode_code, decode_text, decode_fields, decode_items, decode_present, decode_count,
}
use openscreen_rs.Application.Messages.Wire.{
  u64_bytes, u16_bytes, text_bytes, items_bytes, list_bytes,
}

module _ {B : Type 0} where
  pub Reads-after :
      {A : Type 0} {a : A} (f : A → Action (List ℕ) MessageError B) {xs : List ℕ} {b : B}
      → Reads (f a) xs b
      → Reads (pure a >>= f) xs b
  unfolding pure ◌>>=◌
  Reads-after f h = record { at = h.at }

  pub Reads-checked :
      {t : Bool} (e : MessageError) (f : Unit {0} → Action (List ℕ) MessageError B) {xs : List ℕ}
      {b : B}
      → t ≡ true
      → Reads (f tt) xs b
      → Reads (ensure t e >>= f) xs b
  unfolding ensure ◌>>=◌
  Reads-checked e f eq h = record { at = λ rest. rw eq (h.at rest) }

module _ (d : Deps) (laws : Laws d) where
  pub u16-Reads : (x : ℕ) → x < 2 ^ 16 → Reads (read d.decoder.u16) (u16_bytes d x) x
  unfolding read
  u16-Reads x h = record { at = λ rest. rw (laws.cbor.u16_read x rest h) }

  pub u64-Reads : (x : ℕ) → x < 2 ^ 64 → Reads (read d.decoder.u64) (u64_bytes d x) x
  unfolding read
  u64-Reads x h = record { at = λ rest. rw (laws.cbor.u64_read x rest h) }

  pub text-Reads :
      (text : List ℕ) → IsText text → Reads (read d.decoder.str) (text_bytes d text) text
  text-Reads text h = str-Reads d laws text h.0 h.1

  pub short_text-Reads :
      (text : List ℕ) → IsShortText text → Reads (decode_text d) (text_bytes d text) text
  unfolding decode_text
  short_text-Reads text h =
      Reads-last _ (str-Reads d laws text h.0 (omega (arith, h.1)))
        (Reads-checked _ _ (le→leb _ _ h.1) (Reads-pure text))

  pub code-Reads :
      {A : Type 0} (from_u8 : ℕ → Outcome MessageError A) (code : ℕ) {a : A}
      → code < 256
      → from_u8 code ≡ ok a
      → Reads (decode_code d from_u8) (u8_bytes d code) a
  unfolding decode_code
  code-Reads from_u8 code small h = Reads-last _ (u8-Reads d laws code small) (Reads-lift h)

  -- After the last field.
  pub no_fields-Reads :
      {F : Type 0} (field : ℕ → F → Action (List ℕ) MessageError F) (f : F)
      → Reads (decode_fields d field 0 f) [] f
  unfolding decode_fields
  no_fields-Reads field f = Reads-pure f

  module _ {F : Type 0} (field : ℕ → F → Action (List ℕ) MessageError F) where
    -- A field of a map, and the last one.
    pub field-Reads :
        (key count : ℕ) {f f' last : F} {xs ys : List ℕ}
        → key < 256
        → Reads (field key f) xs f'
        → Reads (decode_fields d field count f') ys last
        → Reads (decode_fields d field (suc count) f) (u8_bytes d key ++ (xs ++ ys)) last
    unfolding decode_fields
    field-Reads key count small h k = Reads-bind _ (u8-Reads d laws key small) (Reads-bind _ h k)

    pub last-Reads :
        (key : ℕ) {f f' : F} {xs : List ℕ}
        → key < 256
        → Reads (field key f) xs f'
        → Reads (decode_fields d field 1 f) (u8_bytes d key ++ xs) f'
    unfolding decode_fields
    last-Reads key small h =
        Reads-bind _ (u8-Reads d laws key small) (Reads-last _ h (Reads-pure _))

    -- A map of a given number of fields, and what is made of them.
    pub map_body-Reads :
        {A : Type 0} (count : ℕ) (e : MessageError) (f : F) {f' : F}
        (end : F → Action (List ℕ) MessageError A) {xs : List ℕ} {a : A}
        → count < 2 ^ 16
        → is_length count (some count) ≡ true
        → Reads (decode_fields d field count f) xs f'
        → Reads (end f') [] a
        → Reads
            (do
              map_len ← read d.decoder.map
              ensure (is_length count map_len) e
              fields ← decode_fields d field count f
              end fields)
            (map_bytes d count ++ xs)
            a
    map_body-Reads count e f end small same h k =
        Reads-bind _ (map-Reads d laws count small) (Reads-checked e _ same (Reads-last _ h k))

module _ (d : Deps) (laws : Laws d) {A : Type 0} {P : A → Type 0}
    (item : Action (List ℕ) MessageError A) (item_bytes : A → List ℕ)
    (item-Reads : (x : A) → P x → Reads item (item_bytes x) x) (capacity : ℕ) where
  pushed-Reads :
      (xs acc : List A) (x : A)
      → length acc + length (x ∷ xs) ≤ capacity
      → Reads
          (decode_items d capacity item (length xs) (acc ++ x ∷ []))
          (items_bytes d item_bytes xs)
          ((acc ++ x ∷ []) ++ xs)
      → Reads
          (let pushed = d.heapless.push capacity acc x in
            if pushed.0
            then decode_items d capacity item (length xs) pushed.1
            else raise MessageError.buffer_full)
          (items_bytes d item_bytes xs)
          (acc ++ x ∷ xs)
  pushed-Reads xs acc x room h =
      rw (laws.heapless.push_fits capacity acc x (omega arith), ← append_assoc acc (x ∷ []) xs) h

  items-Reads :
      (xs acc : List A)
      → length acc + length xs ≤ capacity
      → Each P xs
      → Reads
          (decode_items d capacity item (length xs) acc)
          (items_bytes d item_bytes xs)
          (acc ++ xs)
  unfolding decode_items
  items-Reads [] acc room each = rw append-nil (Reads-pure acc)
  items-Reads (x ∷ xs) acc room each = Reads-bind _ (item-Reads x each.0) (
      pushed-Reads xs acc x room
        (items-Reads xs (acc ++ x ∷ []) (omega (arith, length-append acc (x ∷ []))) each.1))

  pub present-Reads :
      capacity < 2 ^ 16
      → (xs : List A) → length xs ≤ capacity
      → Each P xs
      → Reads (decode_present d capacity item []) (list_bytes d item_bytes xs) xs
  unfolding decode_present
  present-Reads small xs room each =
      Reads-bind _ (array-Reads d laws (length xs) (omega arith))
        (items-Reads xs [] (omega (arith, room)) each)

  pub count-Reads :
      capacity < 2 ^ 16
      → (xs : List A) → length xs ≤ capacity
      → Each P xs
      → Reads (decode_count d capacity item) (list_bytes d item_bytes xs) xs
  unfolding decode_count
  count-Reads small xs room each =
      Reads-bind _ (array-Reads d laws (length xs) (omega arith))
        (items-Reads xs [] (omega (arith, room)) each)

pub value-Reads :
    {A B : Type 0} {m : Action (List ℕ) MessageError A} (g : A → B) {xs : List ℕ} {a : A}
    → Reads m xs a
    → Reads (m >>= λ x. pure (g x)) xs (g a)
value-Reads g h = Reads-last _ h (Reads-pure _)

-- The bytes of a field that an encoder may leave out are a group of their own.
pub Reads-regroup :
    {A : Type 0} {m : Action (List ℕ) MessageError A} (xs ys zs : List ℕ) {a : A}
    → Reads m (xs ++ (ys ++ zs)) a
    → Reads m ((xs ++ ys) ++ zs) a
Reads-regroup xs ys zs h = rw (append_assoc xs ys zs) h

pub every : {A : Type 0} (xs : List A) → Each (λ (x : A). Unit {0}) xs
every [] = tt
every (x ∷ xs) = (tt, every xs)
