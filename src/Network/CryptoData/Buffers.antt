-- ===== src/Network/CryptoData/Buffers.antt =====
-- openscreen-network/src/crypto_data.rs: the buffers by name, their capacities, and the calls that
-- write them.
use openscreen_rs.Base.{ℕ, List, [], ok, err, Action, ◌>>◌, if◌then◌else◌}
use openscreen_rs.Deps.{Deps}
use openscreen_rs.Network.{NetworkError}
use openscreen_rs.Network.CryptoData.{CryptoData}

pub data Buffer : Type 0 where
  spake2_public peer_public_temp shared_secret : Buffer
  session_keys psk auth_token : Buffer
  auth_token_temp our_handshake_msg peer_handshake_msg : Buffer
  transcript my_fingerprint peer_fingerprint : Buffer
  confirmation_context initiator_confirmation_key responder_confirmation_key : Buffer
  my_confirmation_temp peer_confirmation_temp pending_confirmation_bytes : Buffer

-- The capacities in the types of the fields.
abbrev pub capacity : Buffer → ℕ
capacity spake2_public = 640
capacity peer_public_temp = 65
capacity shared_secret = 640
capacity session_keys = 640
capacity psk = 128
capacity auth_token = 64
capacity auth_token_temp = 64
capacity our_handshake_msg = 256
capacity peer_handshake_msg = 256
capacity transcript = 512
capacity my_fingerprint = 32
capacity peer_fingerprint = 32
capacity confirmation_context = 544
capacity initiator_confirmation_key = 32
capacity responder_confirmation_key = 32
capacity my_confirmation_temp = 64
capacity peer_confirmation_temp = 64
capacity pending_confirmation_bytes = 256

abbrev pub contents : Buffer → CryptoData → List ℕ
contents spake2_public c = c.spake2_public
contents peer_public_temp c = c.peer_public_temp
contents shared_secret c = c.shared_secret
contents session_keys c = c.session_keys
contents psk c = c.psk
contents auth_token c = c.auth_token
contents auth_token_temp c = c.auth_token_temp
contents our_handshake_msg c = c.our_handshake_msg
contents peer_handshake_msg c = c.peer_handshake_msg
contents transcript c = c.transcript
contents my_fingerprint c = c.my_fingerprint
contents peer_fingerprint c = c.peer_fingerprint
contents confirmation_context c = c.confirmation_context
contents initiator_confirmation_key c = c.initiator_confirmation_key
contents responder_confirmation_key c = c.responder_confirmation_key
contents my_confirmation_temp c = c.my_confirmation_temp
contents peer_confirmation_temp c = c.peer_confirmation_temp
contents pending_confirmation_bytes c = c.pending_confirmation_bytes

abbrev pub put : Buffer → List ℕ → CryptoData → CryptoData
put spake2_public v c = record c { spake2_public = v }
put peer_public_temp v c = record c { peer_public_temp = v }
put shared_secret v c = record c { shared_secret = v }
put session_keys v c = record c { session_keys = v }
put psk v c = record c { psk = v }
put auth_token v c = record c { auth_token = v }
put auth_token_temp v c = record c { auth_token_temp = v }
put our_handshake_msg v c = record c { our_handshake_msg = v }
put peer_handshake_msg v c = record c { peer_handshake_msg = v }
put transcript v c = record c { transcript = v }
put my_fingerprint v c = record c { my_fingerprint = v }
put peer_fingerprint v c = record c { peer_fingerprint = v }
put confirmation_context v c = record c { confirmation_context = v }
put initiator_confirmation_key v c = record c { initiator_confirmation_key = v }
put responder_confirmation_key v c = record c { responder_confirmation_key = v }
put my_confirmation_temp v c = record c { my_confirmation_temp = v }
put peer_confirmation_temp v c = record c { peer_confirmation_temp = v }
put pending_confirmation_bytes v c = record c { pending_confirmation_bytes = v }

-- `clear`
unfoldable pub clear : Buffer → Action CryptoData NetworkError (Unit {0})
clear b c = (ok tt, put b [] c)

module _ (d : Deps) where
  -- `extend_from_slice(…).map_err(|_| NetworkError::BufferFull)?`
  unfoldable pub extend : Buffer → List ℕ → Action CryptoData NetworkError (Unit {0})
  extend b bytes c =
      let written = d.heapless.extend_from_slice (capacity b) (contents b c) bytes in
      (if written.0 then ok tt else err NetworkError.buffer_full, put b written.1 c)

  unfoldable pub set_psk : List ℕ → Action CryptoData NetworkError (Unit {0})
  set_psk password = do clear psk; extend psk password

  unfoldable pub set_auth_token : List ℕ → Action CryptoData NetworkError (Unit {0})
  set_auth_token token = do clear auth_token; extend auth_token token

  unfoldable pub set_my_fingerprint : List ℕ → Action CryptoData NetworkError (Unit {0})
  set_my_fingerprint fingerprint = do clear my_fingerprint; extend my_fingerprint fingerprint

  unfoldable pub set_peer_fingerprint : List ℕ → Action CryptoData NetworkError (Unit {0})
  set_peer_fingerprint fingerprint = do clear peer_fingerprint; extend peer_fingerprint fingerprint
