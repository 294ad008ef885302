-- ===== src/Network/Messages/Codec.antt =====
-- openscreen-network/src/messages.rs: the codec of the messages, and the calls of minicbor that it
-- is made of.
pub mod Encode
pub mod Decode
pub mod Safe
pub mod Bounded
pub mod Writes
pub mod Reads
pub mod Wire
pub mod Codes
pub mod Bodies
pub mod Methods
pub mod RoundTrip
use openscreen_rs.Base.{
  ℕ, Bool, true, false, Option, none, some, List, [], ◌∷◌, Outcome, ok, err, Action, map_err, pure,
  ◌>>=◌, ◌>>◌, if◌then◌else◌,
}
use openscreen_rs.Deps.{Deps}
use openscreen_rs.Common.{MessageError}

module _ (d : Deps) (n : ℕ) where
  -- VecWriter::write_all
  unfoldable pub write_all : List ℕ → Action (List ℕ) MessageError (Unit {0})
  write_all bytes buf =
      let written = d.heapless.extend_from_slice n buf bytes in
      (if written.0 then ok tt else err MessageError.buffer_full, written.1)

  -- The pieces of a call of the encoder go out one by one, until a write fails.
  unfoldable pub write_pieces : List (List ℕ) → Action (List ℕ) MessageError (Unit {0})
  write_pieces [] = pure tt
  write_pieces (piece ∷ pieces) = do write_all piece; write_pieces pieces

  -- `encoder.op(…).map_err(|_| MessageError::EncodeFailed)?`
  unfoldable pub emit : List (List ℕ) → Action (List ℕ) MessageError (Unit {0})
  emit pieces buf =
      let written = write_pieces pieces buf in
      (map_err MessageError.encode_failed written.0, written.1)

-- `decoder.op().map_err(|_| MessageError::DecodeFailed)?`
abbrev pub taken : {A : Type 0} → List ℕ → Option (A × List ℕ) → Outcome MessageError A × List ℕ
taken input none = (err MessageError.decode_failed, input)
taken input (some (a, rest)) = (ok a, rest)

unfoldable pub read : {A : Type 0} → (List ℕ → Option (A × List ℕ)) → Action (List ℕ) MessageError A
read op input = taken input (op input)
