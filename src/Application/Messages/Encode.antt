-- ===== src/Application/Messages/Encode.antt =====
-- openscreen-application/src/messages.rs: `encode` of each message, into a vector of capacity `n`. The
-- calls of minicbor and their errors are those of the authentication messages, whose file has the
-- same writer.
pub mod Agent
pub mod Presentation
pub mod Availability
pub mod Connection
pub mod Message
use openscreen_rs.Base.{ℕ, List, [], ◌∷◌, length, Action, pure, ◌>>=◌, ◌>>◌}
use openscreen_rs.Deps.{Deps}
use openscreen_rs.Common.{MessageError}
use openscreen_rs.Network.Messages.Codec.{emit}

module _ (d : Deps) (n : ℕ) {A : Type 0} (item : A → Action (List ℕ) MessageError (Unit {0})) where
  -- `for item in &self.items`
  unfoldable pub encode_items : List A → Action (List ℕ) MessageError (Unit {0})
  encode_items [] = pure tt
  encode_items (x ∷ xs) = do item x; encode_items xs

  -- `encoder.array(self.items.len() as u64)`, then the items.
  unfoldable pub encode_list : List A → Action (List ℕ) MessageError (Unit {0})
  encode_list xs = do emit d n (d.encoder.array (length xs)); encode_items xs
