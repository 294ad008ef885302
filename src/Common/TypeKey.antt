-- ===== src/Common/TypeKey.antt =====
-- openscreen-common/src/type_key.rs: the type key in front of each message.
use openscreen_rs.Base.{
  ℕ, ◌+◌, ◌-◌, ◌^◌, ◌||◌, none, some, Option, List, ◌++◌, if◌then◌else◌, ltb, length, take, drop,
  replicate, Outcome, ok, err, panic, Action,
}
use openscreen_rs.Deps.{Deps}
use openscreen_rs.Common.{MessageError}

-- The key and the number of bytes consumed; a key beyond u16 is refused.
abbrev pub checked_key : List ℕ → Option (ℕ × List ℕ) → Outcome MessageError (ℕ × ℕ)
checked_key input none = err MessageError.decode_failed
checked_key input (some (value, rest)) =
    if ltb value (2 ^ 16)
    then ok (value, length input - length rest)
    else err MessageError.invalid_message_type

module _ (d : Deps) where
  -- The bytes go to a zeroed buffer of four, and the first `size` of it to the vector. A put beyond
  -- the four bytes and a slice beyond them would panic.
  unfoldable pub encode_type_key : ℕ → ℕ → Action (List ℕ) MessageError (Unit {0})
  encode_type_key n type_key buf =
      let size = d.varint.size type_key in
      let encoded = d.varint.encode type_key in
      let temp = encoded ++ drop (length encoded) (replicate 4 0) in
      let written = d.heapless.extend_from_slice n buf (take size temp) in
      if ltb n (length buf + size)
      then (err MessageError.buffer_full, buf)
      else if ltb 4 (length encoded) || ltb 4 size
      then (panic, buf)
      else (if written.0 then ok tt else err MessageError.buffer_full, written.1)

  unfoldable pub decode_type_key : List ℕ → Outcome MessageError (ℕ × ℕ)
  decode_type_key input = checked_key input (d.varint.decode input)
