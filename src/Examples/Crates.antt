-- ===== src/Examples/Crates.antt =====
-- Small versions of the crates that the repository calls, which meet what the theorems assume of them.
use openscreen_rs.Base.{
  ℕ, zero, suc, ◌+◌, ◌-◌, ◌*◌, ◌/◌, ◌%◌, ◌^◌, ◌≤◌, ◌<◌, ◌≡◌, ◌↔◌, Bool, true, false, ◌&&◌, Option,
  none, some, List, [], ◌∷◌, ◌++◌, flatten, arith, append-nil, append_assoc, length, take, drop,
  take-length-append, drop-length-append, length-append, ltb, leb, ◌==◌, if◌then◌else◌, lt→ltb,
  is_utf8, le→ltb, fits_or_not, inl, inr,
}
use openscreen_rs.Deps.{
  Heapless, HeaplessLaws, VarInt, VarIntLaws, Encoder, Decoder, CborLaws, Deps, Laws,
}

abbrev append_within : {A : Type 0} → ℕ → List A → List A → Bool × List A
append_within n xs ys =
    let fits = leb (length xs + length ys) n in (fits, if fits then xs ++ ys else xs)

abbrev pub vectors : Heapless
vectors = record {
  push = λ n xs x. append_within n xs (x ∷ []);
  extend_from_slice = append_within;
  push_str = append_within;
}

append_fits :
    {A : Type 0} (n : ℕ) (xs ys : List A)
    → length xs + length ys ≤ n
    → append_within n xs ys ≡ (true, xs ++ ys)
append_fits n xs ys h = ground arith

append_full :
    {A : Type 0} (n : ℕ) (xs ys : List A)
    → n < length xs + length ys
    → append_within n xs ys ≡ (false, xs)
append_full n xs ys h = ground arith

vectors-laws : HeaplessLaws vectors
vectors-laws = record {
  push_fits = λ n xs x h. append_fits n xs (x ∷ []) (omega arith);
  push_full = λ n xs x h. append_full n xs (x ∷ []) (omega arith);
  extend_fits = append_fits;
  extend_full = append_full;
  push_str_fits = append_fits;
  push_str_full = append_full;
}

-- Variable-length integers of one, two and four bytes, by the two top bits of the first.
abbrev varint_size : ℕ → ℕ
varint_size x = if ltb x 64 then 1 else if ltb x 16384 then 2 else 4

abbrev varint_encode : ℕ → List ℕ
varint_encode x =
    if ltb x 64
    then x ∷ []
    else if ltb x 16384
    then (64 + x / 256) ∷ (x % 256) ∷ []
    else (128 + x / 2 ^ 24) ∷ (x / 2 ^ 16 % 256) ∷ (x / 256 % 256) ∷ (x % 256) ∷ []

abbrev varint_two : ℕ → List ℕ → Option (ℕ × List ℕ)
varint_two a (b ∷ rest) = some ((a - 64) * 256 + b, rest)
varint_two a _ = none

abbrev varint_four : ℕ → List ℕ → Option (ℕ × List ℕ)
varint_four a (b ∷ c ∷ e ∷ rest) = some ((a - 128) * 2 ^ 24 + b * 2 ^ 16 + c * 256 + e, rest)
varint_four a _ = none

abbrev varint_decode : List ℕ → Option (ℕ × List ℕ)
varint_decode [] = none
varint_decode (a ∷ rest) =
    if ltb a 64
    then some (a, rest)
    else if ltb a 128
    then varint_two a rest
    else if ltb a 192
    then varint_four a rest
    else none

abbrev pub varints : VarInt
varints = record { size = varint_size; encode = varint_encode; decode = varint_decode }

varint_read :
    (x : ℕ) (rest : List ℕ) → x < 2 ^ 30 → varint_decode (varint_encode x ++ rest) ≡ some (x, rest)
varint_read x rest h = ground arith

varints-laws : VarIntLaws varints
varints-laws = record {
  size_bound = λ x h. ground arith;
  encode_size = λ x h. ground arith;
  decode_encode = varint_read;
}

-- The head of a CBOR item: its major type and an argument below 2^32.
unfoldable pub head : ℕ → ℕ → List ℕ
head major x =
    if ltb x 24
    then (major * 32 + x) ∷ []
    else if ltb x 256
    then (major * 32 + 24) ∷ x ∷ []
    else if ltb x 65536
    then (major * 32 + 25) ∷ (x / 256) ∷ (x % 256) ∷ []
    else (major * 32 + 26) ∷ (x / 2 ^ 24) ∷ (x / 2 ^ 16 % 256) ∷ (x / 256 % 256) ∷ (x % 256) ∷ []

abbrev argument : ℕ → List ℕ → Option (ℕ × List ℕ)
argument zero (a ∷ rest) = some (a, rest)
argument (suc zero) (a ∷ b ∷ rest) = some (a * 256 + b, rest)
argument (suc (suc zero)) (a ∷ b ∷ c ∷ e ∷ rest) =
    some (a * 2 ^ 24 + b * 2 ^ 16 + c * 256 + e, rest)
argument _ _ = none

unfoldable pub read_head : ℕ → List ℕ → Option (ℕ × List ℕ)
read_head major [] = none
read_head major (b ∷ rest) =
    if b / 32 == major
    then if ltb (b % 32) 24 then some (b % 32, rest) else argument (b % 32 - 24) rest
    else none

head_read :
    (major x : ℕ) (rest : List ℕ)
    → x < 2 ^ 32
    → read_head major (head major x ++ rest) ≡ some (x, rest)
unfolding head read_head
head_read major x rest h = ground arith

-- The bytes of a 32-bit word, the greatest first.
unfoldable pub word : ℕ → List ℕ
word x = (x / 2 ^ 24) ∷ (x / 2 ^ 16 % 256) ∷ (x / 256 % 256) ∷ (x % 256) ∷ []

-- An unsigned integer below 2^64.
unfoldable pub long : ℕ → List ℕ
long x = if ltb x (2 ^ 32) then head 0 x else 27 ∷ word (x / 2 ^ 32) ++ word (x % 2 ^ 32)

abbrev two_words : List ℕ → Option (ℕ × List ℕ)
two_words (a ∷ b ∷ c ∷ e ∷ f ∷ g ∷ h ∷ i ∷ rest) = some (
  (a * 2 ^ 24 + b * 2 ^ 16 + c * 256 + e) * 2 ^ 32 + (f * 2 ^ 24 + g * 2 ^ 16 + h * 256 + i),
  rest,
)
two_words _ = none

unfoldable pub read_long : List ℕ → Option (ℕ × List ℕ)
read_long [] = none
read_long (b ∷ rest) = if b == 27 then two_words rest else read_head 0 (b ∷ rest)

word_value :
    (x : ℕ)
    → x < 2 ^ 32
    → (x / 2 ^ 24) * 2 ^ 24 + (x / 2 ^ 16 % 256) * 2 ^ 16 + (x / 256 % 256) * 256 + x % 256 ≡ x
word_value x h = omega arith

halves : (x : ℕ) → (x / 2 ^ 32) * 2 ^ 32 + x % 2 ^ 32 ≡ x
halves x = omega arith

short_read : (x : ℕ) (rest : List ℕ) → x < 2 ^ 32 → read_long (head 0 x ++ rest) ≡ some (x, rest)
unfolding head read_head read_long
short_read x rest h = ground arith

large_read :
    (x : ℕ) (rest : List ℕ)
    → x < 2 ^ 64
    → read_long ((27 ∷ word (x / 2 ^ 32) ++ word (x % 2 ^ 32)) ++ rest) ≡ some (x, rest)
unfolding read_long word
large_read x rest h =
    rw (word_value (x / 2 ^ 32) (omega arith), word_value (x % 2 ^ 32) (omega arith), halves x)

long_read : (x : ℕ) (rest : List ℕ) → x < 2 ^ 64 → read_long (long x ++ rest) ≡ some (x, rest)
unfolding long
long_read x rest h = elim (fits_or_not (2 ^ 32) x) [
  | inl large ↦ rw (le→ltb x (2 ^ 32) large) (large_read x rest h)
  | inr small ↦ rw (lt→ltb x (2 ^ 32) small) (short_read x rest small)
]

abbrev split_rest : Option (ℕ × List ℕ) → Option (List ℕ × List ℕ)
split_rest none = none
split_rest (some (n, rest)) = if leb n (length rest) then some (take n rest, drop n rest) else none

abbrev definite : Option (ℕ × List ℕ) → Option (Option ℕ × List ℕ)
definite none = none
definite (some (n, rest)) = some (some n, rest)

abbrev valid_text : Option (List ℕ × List ℕ) → Option (List ℕ × List ℕ)
valid_text none = none
valid_text (some (text, rest)) = if is_utf8 text then some (text, rest) else none

abbrev keep_below : ℕ → Option (ℕ × List ℕ) → Option (ℕ × List ℕ)
keep_below bound none = none
keep_below bound (some (x, rest)) = if ltb x bound then some (x, rest) else none

abbrev pub cbor_encoder : Encoder
cbor_encoder = record {
  u8 = λ x. head 0 x ∷ [];
  u16 = λ x. head 0 x ∷ [];
  u32 = λ x. head 0 x ∷ [];
  u64 = λ x. long x ∷ [];
  map = λ n. head 5 n ∷ [];
  array = λ n. head 4 n ∷ [];
  str = λ s. head 3 (length s) ∷ s ∷ [];
  bytes = λ s. head 2 (length s) ∷ s ∷ [];
}

abbrev pub cbor_decoder : Decoder
cbor_decoder = record {
  u8 = λ input. keep_below 256 (read_head 0 input);
  u16 = λ input. keep_below (2 ^ 16) (read_head 0 input);
  u32 = λ input. keep_below (2 ^ 32) (read_head 0 input);
  u64 = read_long;
  map = λ input. definite (read_head 5 input);
  array = λ input. definite (read_head 4 input);
  str = λ input. valid_text (split_rest (read_head 3 input));
  bytes = λ input. split_rest (read_head 2 input);
}

within : (a b : ℕ) → leb a (a + b) ≡ true
within a b = ground arith

below_read :
    (bound x : ℕ) (rest : List ℕ)
    → x < bound
    → bound ≤ 2 ^ 32
    → keep_below bound (read_head 0 (head 0 x ++ rest)) ≡ some (x, rest)
below_read bound x rest h k = rw (head_read 0 x rest (omega arith)) (rw (lt→ltb x bound h))

string_read :
    (major : ℕ) (s rest : List ℕ)
    → length s < 2 ^ 16
    → split_rest (read_head major (head major (length s) ++ (s ++ rest))) ≡ some (s, rest)
string_read major s rest h = rw (head_read major (length s) (s ++ rest) (omega arith)) (
    rw (
      length-append s rest,
      within (length s) (length rest),
      take-length-append s rest,
      drop-length-append s rest,
    ))

cbor-laws : CborLaws cbor_encoder cbor_decoder
unfolding flatten
cbor-laws = record {
  u8_read = λ x rest h. rw append-nil (below_read 256 x rest h (omega arith));
  u16_read = λ x rest h. rw append-nil (below_read (2 ^ 16) x rest h (omega arith));
  u32_read = λ x rest h. rw append-nil (below_read (2 ^ 32) x rest h (omega arith));
  u64_read = λ x rest h. rw append-nil (long_read x rest h);
  map_read = λ n rest h. rw append-nil (rw (head_read 5 n rest (omega arith)));
  array_read = λ n rest h. rw append-nil (rw (head_read 4 n rest (omega arith)));
  str_read =
      λ s rest valid h. rw (append-nil, append_assoc) (rw (string_read 3 s rest h) (rw valid));
  bytes_read = λ s rest h. rw (append-nil, append_assoc) (string_read 2 s rest h);
}

abbrev list_eq : List ℕ → List ℕ → Bool
list_eq [] [] = true
list_eq (x ∷ xs) (y ∷ ys) = x == y && list_eq xs ys
list_eq _ _ = false

list_eq_iff : (xs ys : List ℕ) → (list_eq xs ys ≡ true) ↔ (xs ≡ ys)
list_eq_iff [] [] = ground arith
list_eq_iff [] (y ∷ ys) = ground arith
list_eq_iff (x ∷ xs) [] = ground arith
list_eq_iff (x ∷ xs) (y ∷ ys) = ground (arith, list_eq_iff xs ys)

abbrev pub crates : Deps
crates = record {
  heapless = vectors;
  varint = varints;
  encoder = cbor_encoder;
  decoder = cbor_decoder;
  ct_eq = list_eq;
  debug_enabled = false;
}

pub crates-Laws : Laws crates
crates-Laws = record {
  heapless = vectors-laws;
  varint = varints-laws;
  cbor = cbor-laws;
  ct_eq_iff = list_eq_iff;
}
