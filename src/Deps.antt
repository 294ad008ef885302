-- ===== src/Deps.antt =====
-- The code that the repository calls and does not implement, as parameters: the crates heapless,
-- minicbor, subtle and log, and the copy of quinn's varint codec. A record of operations comes
-- with a record of the documented behaviour that the theorems rely on.
use openscreen_rs.Base.{
  ℕ, ◌+◌, ◌^◌, ◌≤◌, ◌<◌, ◌≡◌, ◌↔◌, Bool, true, false, Option, some, List, [], ◌∷◌, ◌++◌, flatten,
  length, is_utf8,
}

-- heapless::Vec<A, N> and heapless::String<N>: whether the call succeeded, and the contents then.
pub record Heapless : Type 1 where
  pub push : {A : Type 0} → ℕ → List A → A → Bool × List A
  pub extend_from_slice : {A : Type 0} → ℕ → List A → List A → Bool × List A
  pub push_str : ℕ → List ℕ → List ℕ → Bool × List ℕ

-- A call within the capacity appends; one beyond it fails, and the contents stay.
pub record HeaplessLaws (h : Heapless) : Type 1 where
  pub push_fits :
      {A : Type 0} (n : ℕ) (xs : List A) (x : A)
      → length xs < n
      → h.push n xs x ≡ (true, xs ++ x ∷ [])
  pub push_full :
      {A : Type 0} (n : ℕ) (xs : List A) (x : A) → n ≤ length xs → h.push n xs x ≡ (false, xs)
  pub extend_fits :
      {A : Type 0} (n : ℕ) (xs ys : List A)
      → length xs + length ys ≤ n
      → h.extend_from_slice n xs ys ≡ (true, xs ++ ys)
  pub extend_full :
      {A : Type 0} (n : ℕ) (xs ys : List A)
      → n < length xs + length ys
      → h.extend_from_slice n xs ys ≡ (false, xs)
  pub push_str_fits :
      (n : ℕ) (xs ys : List ℕ) → length xs + length ys ≤ n → h.push_str n xs ys ≡ (true, xs ++ ys)
  pub push_str_full :
      (n : ℕ) (xs ys : List ℕ) → n < length xs + length ys → h.push_str n xs ys ≡ (false, xs)

-- quinn's VarInt: `size`, the bytes that `encode` puts, and `decode` on the rest of a slice.
pub record VarInt : Type 0 where
  pub size : ℕ → ℕ
  pub encode : ℕ → List ℕ
  pub decode : List ℕ → Option (ℕ × List ℕ)

-- RFC 9000: a value below 2^30 takes `size` bytes, at most 4, and is read back.
pub record VarIntLaws (v : VarInt) : Type 0 where
  pub size_bound : (x : ℕ) → x < 2 ^ 30 → v.size x ≤ 4
  pub encode_size : (x : ℕ) → x < 2 ^ 30 → length (v.encode x) ≡ v.size x
  pub decode_encode :
      (x : ℕ) (rest : List ℕ) → x < 2 ^ 30 → v.decode (v.encode x ++ rest) ≡ some (x, rest)

-- minicbor's Encoder: the pieces that a call hands to `Write::write_all`, in order.
pub record Encoder : Type 0 where
  pub u8 : ℕ → List (List ℕ)
  pub u16 : ℕ → List (List ℕ)
  pub u32 : ℕ → List (List ℕ)
  pub u64 : ℕ → List (List ℕ)
  pub map : ℕ → List (List ℕ)
  pub array : ℕ → List (List ℕ)
  pub str : List ℕ → List (List ℕ)
  pub bytes : List ℕ → List (List ℕ)

-- minicbor's Decoder: the value read and the rest of the input. The length of a map or an array is
-- `none` where it is indefinite.
pub record Decoder : Type 0 where
  pub u8 : List ℕ → Option (ℕ × List ℕ)
  pub u16 : List ℕ → Option (ℕ × List ℕ)
  pub u32 : List ℕ → Option (ℕ × List ℕ)
  pub u64 : List ℕ → Option (ℕ × List ℕ)
  pub map : List ℕ → Option (Option ℕ × List ℕ)
  pub array : List ℕ → Option (Option ℕ × List ℕ)
  pub str : List ℕ → Option (List ℕ × List ℕ)
  pub bytes : List ℕ → Option (List ℕ × List ℕ)

-- What the encoder wrote the decoder reads back, and leaves what follows.
pub record CborLaws (e : Encoder) (d : Decoder) : Type 0 where
  pub u8_read : (x : ℕ) (rest : List ℕ) → x < 256 → d.u8 (flatten (e.u8 x) ++ rest) ≡ some (x, rest)
  pub u16_read :
      (x : ℕ) (rest : List ℕ) → x < 2 ^ 16 → d.u16 (flatten (e.u16 x) ++ rest) ≡ some (x, rest)
  pub u32_read :
      (x : ℕ) (rest : List ℕ) → x < 2 ^ 32 → d.u32 (flatten (e.u32 x) ++ rest) ≡ some (x, rest)
  pub u64_read :
      (x : ℕ) (rest : List ℕ) → x < 2 ^ 64 → d.u64 (flatten (e.u64 x) ++ rest) ≡ some (x, rest)
  pub map_read :
      (n : ℕ) (rest : List ℕ) → n < 2 ^ 16 → d.map (flatten (e.map n) ++ rest) ≡ some (some n, rest)
  pub array_read :
      (n : ℕ) (rest : List ℕ)
      → n < 2 ^ 16
      → d.array (flatten (e.array n) ++ rest) ≡ some (some n, rest)
  pub str_read :
      (s rest : List ℕ)
      → is_utf8 s ≡ true
      → length s < 2 ^ 16
      → d.str (flatten (e.str s) ++ rest) ≡ some (s, rest)
  pub bytes_read :
      (s rest : List ℕ) → length s < 2 ^ 16 → d.bytes (flatten (e.bytes s) ++ rest) ≡ some (s, rest)

-- All of it, with subtle's `ct_eq` on byte slices, and whether log's filter lets `debug!` through.
pub record Deps : Type 1 where
  pub heapless : Heapless
  pub varint : VarInt
  pub encoder : Encoder
  pub decoder : Decoder
  pub ct_eq : List ℕ → List ℕ → Bool
  pub debug_enabled : Bool

pub record Laws (d : Deps) : Type 1 where
  pub heapless : HeaplessLaws d.heapless
  pub varint : VarIntLaws d.varint
  pub cbor : CborLaws d.encoder d.decoder
  pub ct_eq_iff : (xs ys : List ℕ) → (d.ct_eq xs ys ≡ true) ↔ (xs ≡ ys)
