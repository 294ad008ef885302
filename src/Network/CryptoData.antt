-- ===== src/Network/CryptoData.antt =====
-- openscreen-network/src/crypto_data.rs: the buffers that the states share. Each buffer is a
-- heapless vector, read and written through its name.
pub mod Buffers
pub mod Setters
use openscreen_rs.Base.{ℕ, Bool, false, Option, none, List, [], is_empty, if◌then◌else◌, from_utf8}

pub record CryptoData : Type 0 where
  pub spake2_public : List ℕ
  pub peer_public_temp : List ℕ
  pub shared_secret : List ℕ
  pub session_keys : List ℕ
  pub psk : List ℕ
  pub auth_token : List ℕ
  pub auth_token_temp : List ℕ
  pub our_handshake_msg : List ℕ
  pub peer_handshake_msg : List ℕ
  pub transcript : List ℕ
  pub my_fingerprint : List ℕ
  pub peer_fingerprint : List ℕ
  pub is_responder : Bool
  pub confirmation_context : List ℕ
  pub initiator_confirmation_key : List ℕ
  pub responder_confirmation_key : List ℕ
  pub my_confirmation_temp : List ℕ
  pub peer_confirmation_temp : List ℕ
  pub pending_confirmation_bytes : List ℕ

-- CryptoData::new
abbrev pub new : CryptoData
new = record {
  spake2_public = [];
  peer_public_temp = [];
  shared_secret = [];
  session_keys = [];
  psk = [];
  auth_token = [];
  auth_token_temp = [];
  our_handshake_msg = [];
  peer_handshake_msg = [];
  transcript = [];
  my_fingerprint = [];
  peer_fingerprint = [];
  is_responder = false;
  confirmation_context = [];
  initiator_confirmation_key = [];
  responder_confirmation_key = [];
  my_confirmation_temp = [];
  peer_confirmation_temp = [];
  pending_confirmation_bytes = [];
}

unfoldable pub auth_token_str : CryptoData → Option (List ℕ)
auth_token_str c = if is_empty c.auth_token then none else from_utf8 c.auth_token

unfoldable pub set_role : Bool → CryptoData → CryptoData
set_role is_responder c = record c { is_responder = is_responder }
