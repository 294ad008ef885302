-- ===== src/Network/Messages/Codec/Reads.antt =====
-- When a decoder reads a given string of bytes: it returns a value and leaves what follows.
use openscreen_rs.Base.{
  ℕ, ◌^◌, ◌<◌, ◌≡◌, refl, Bool, true, some, List, [], ◌++◌, arith, length, length-append,
  append_assoc, flatten, Outcome, ok, Action, pure, lift, ensure, ◌>>=◌, ap, lt→ltb, is_utf8,
}
use openscreen_rs.Deps.{Deps, Laws}
use openscreen_rs.Common.{MessageError}
use openscreen_rs.Common.TypeKey.{decode_type_key}
use openscreen_rs.Network.Messages.Codec.{read}

pub record Reads {A : Type 0} (m : Action (List ℕ) MessageError A) (bytes : List ℕ) (a : A)
    : Type 0 where
  pub at : (rest : List ℕ) → m (bytes ++ rest) ≡ (ok a, rest)

pub Reads-pure : {A : Type 0} (a : A) → Reads (pure a) [] a
unfolding pure
Reads-pure a = record { at = λ rest. refl }

pub Reads-lift : {A : Type 0} {r : Outcome MessageError A} {a : A} → r ≡ ok a → Reads (lift r) [] a
unfolding lift
Reads-lift h = record { at = λ rest. rw h }

pub Reads-ensure : (e : MessageError) {b : Bool} → b ≡ true → Reads (ensure b e) [] tt
unfolding ensure
Reads-ensure e h = record { at = λ rest. rw h }

module _ {A B : Type 0} where
  pub Reads-bind :
      {m : Action (List ℕ) MessageError A} (f : A → Action (List ℕ) MessageError B) {xs ys : List ℕ}
      {a : A} {b : B}
      → Reads m xs a
      → Reads (f a) ys b
      → Reads (m >>= f) (xs ++ ys) b
  unfolding ◌>>=◌
  Reads-bind f {xs} {ys} hm hf = record {
    at = λ rest. rw (append_assoc xs ys rest, hm.at (ys ++ rest)) (hf.at rest);
  }

  -- The last read of a block: what follows reads nothing.
  pub Reads-last :
      {m : Action (List ℕ) MessageError A} (f : A → Action (List ℕ) MessageError B) {xs : List ℕ}
      {a : A} {b : B}
      → Reads m xs a
      → Reads (f a) [] b
      → Reads (m >>= f) xs b
  unfolding ◌>>=◌
  Reads-last f hm hf = record { at = λ rest. rw (hm.at rest) (hf.at rest) }

module _ (d : Deps) (laws : Laws d) where
  pub u8-Reads : (x : ℕ) → x < 256 → Reads (read d.decoder.u8) (flatten (d.encoder.u8 x)) x
  unfolding read
  u8-Reads x h = record { at = λ rest. rw (laws.cbor.u8_read x rest h) }

  pub u32-Reads : (x : ℕ) → x < 2 ^ 32 → Reads (read d.decoder.u32) (flatten (d.encoder.u32 x)) x
  unfolding read
  u32-Reads x h = record { at = λ rest. rw (laws.cbor.u32_read x rest h) }

  pub map-Reads :
      (n : ℕ) → n < 2 ^ 16 → Reads (read d.decoder.map) (flatten (d.encoder.map n)) (some n)
  unfolding read
  map-Reads n h = record { at = λ rest. rw (laws.cbor.map_read n rest h) }

  pub array-Reads :
      (n : ℕ) → n < 2 ^ 16 → Reads (read d.decoder.array) (flatten (d.encoder.array n)) (some n)
  unfolding read
  array-Reads n h = record { at = λ rest. rw (laws.cbor.array_read n rest h) }

  pub str-Reads :
      (s : List ℕ)
      → is_utf8 s ≡ true
      → length s < 2 ^ 16
      → Reads (read d.decoder.str) (flatten (d.encoder.str s)) s
  unfolding read
  str-Reads s valid h = record { at = λ rest. rw (laws.cbor.str_read s rest valid h) }

  pub bytes-Reads :
      (s : List ℕ)
      → length s < 2 ^ 16
      → Reads (read d.decoder.bytes) (flatten (d.encoder.bytes s)) s
  unfolding read
  bytes-Reads s h = record { at = λ rest. rw (laws.cbor.bytes_read s rest h) }

  -- A type key below 2^16 in front of a body is read back, with the number of bytes that it takes.
  pub decode_type_key-encode :
      (key : ℕ) (body : List ℕ)
      → key < 2 ^ 16
      → decode_type_key d (d.varint.encode key ++ body) ≡ ok (key, length (d.varint.encode key))
  unfolding decode_type_key
  decode_type_key-encode key body h =
      rw (laws.varint.decode_encode key body (omega arith), lt→ltb key (2 ^ 16) h)
        (ap (λ (n : ℕ). ok (key, n)) (omega (arith, length-append (d.varint.encode key) body)))
