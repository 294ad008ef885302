-- ===== src/Crypto/RustCrypto.antt =====
-- openscreen-crypto-rustcrypto/src/lib.rs: the provider that carries out the requests with the crates
-- spake2, sha2, hmac and hkdf, which are parameters. `entropy` is what the system's random generator
-- gives to a call.
pub mod Answers
pub mod Confirms
pub mod Verifies
pub mod Spent
pub mod Once
pub mod Honesty
use openscreen_rs.Base.{
  ℕ, ◌-◌, Bool, Option, none, some, List, [], ◌∷◌, length, take, drop, leb, ltb, ◌==◌, Outcome, ok,
  err, Action, pure, raise, lift, ensure, ◌>>=◌, ◌>>◌, if◌then◌else◌,
}
use openscreen_rs.Deps.{Deps}
use openscreen_rs.Crypto.{
  CryptoError, CryptoResult, CryptoOpKind, Spake2Operation, HashAlgorithm, HkdfOperation,
  max_crypto_output,
}
use openscreen_rs.Crypto.Provider.{CryptoProvider}

-- Spake2::start_a, start_b (the state and the message out) and finish; Sha256; HmacSha256 on a key and
-- its input; Hkdf<Sha256> on a salt, the input key material, the info and the length.
pub record CryptoCrates (K : Type 0) : Type 0 where
  pub start_a : (entropy password id_a id_b : List ℕ) → K × List ℕ
  pub start_b : (entropy password id_a id_b : List ℕ) → K × List ℕ
  pub finish : K → List ℕ → Option (List ℕ)
  pub sha256 : List ℕ → List ℕ
  pub hmac : (key input : List ℕ) → Option (List ℕ)
  pub hkdf : (salt : Option (List ℕ)) (ikm info : List ℕ) (length : ℕ) → Option (List ℕ)

pub record RustCryptoCryptoProvider (K : Type 0) : Type 0 where
  pub spake2_state : Option K

-- RustCryptoCryptoProvider::new
abbrev pub new_provider : {K : Type 0} → RustCryptoCryptoProvider K
new_provider = record { spake2_state = none }

-- b"initiator", b"responder" and b"OpenScreen Confirmation"
abbrev pub initiator_id : List ℕ
initiator_id = 105 ∷ 110 ∷ 105 ∷ 116 ∷ 105 ∷ 97 ∷ 116 ∷ 111 ∷ 114 ∷ []

abbrev pub responder_id : List ℕ
responder_id = 114 ∷ 101 ∷ 115 ∷ 112 ∷ 111 ∷ 110 ∷ 100 ∷ 101 ∷ 114 ∷ []

abbrev pub confirmation_info : List ℕ
confirmation_info =
    79 ∷ 112 ∷ 101 ∷ 110 ∷ 83 ∷ 99 ∷ 114 ∷ 101 ∷ 101 ∷ 110 ∷ 32 ∷ 67 ∷ 111 ∷ 110 ∷ 102 ∷ 105 ∷ 114
    ∷ 109 ∷ 97 ∷ 116 ∷ 105 ∷ 111 ∷ 110 ∷ []

-- `password_id.map(Identity::new).unwrap_or_else(…)`
abbrev pub identity_a : Option (List ℕ) → List ℕ
identity_a none = initiator_id
identity_a (some password_id) = password_id

-- `ok_or(…)?` and `map_err(…)?`
abbrev pub given : {S A : Type 0} → CryptoError → Option A → Action S CryptoError A
given e none = raise e
given e (some a) = pure a

module _ (d : Deps) where
  -- `extend_from_slice(…).map_err(|_| CryptoError::BufferTooSmall)?`, for one piece after another.
  unfoldable pub fill : ℕ → List ℕ → List (List ℕ) → Outcome CryptoError (List ℕ)
  fill n buf [] = ok buf
  fill n buf (piece ∷ pieces) =
      let written = d.heapless.extend_from_slice n buf piece in
      if written.0 then fill n written.1 pieces else err CryptoError.buffer_too_small

  -- A new vector with the pieces, as the result of the operation.
  unfoldable pub answer_with : {S : Type 0} → ℕ → List (List ℕ) → Action S CryptoError CryptoResult
  answer_with op_id pieces = do
    data_out ← lift (fill max_crypto_output [] pieces)
    pure (record { op_id = op_id; payload = data_out })

module _ (d : Deps) {K : Type 0} (c : CryptoCrates K) where
  abbrev pub Executing : Type 0
  Executing = Action (RustCryptoCryptoProvider K) CryptoError CryptoResult

  unfoldable pub store_state : K → Action (RustCryptoCryptoProvider K) CryptoError (Unit {0})
  store_state k s = (ok tt, record { spake2_state = some k })

  -- `self.spake2_state.take().ok_or(CryptoError::InvalidInput)?`
  unfoldable pub take_state : Action (RustCryptoCryptoProvider K) CryptoError K
  take_state s = (
    elim s.spake2_state [ none ↦ err CryptoError.invalid_input | some k ↦ ok k ],
    record { spake2_state = none },
  )

  unfoldable pub execute_start :
      (entropy : List ℕ) → ℕ → Option (List ℕ) → List ℕ → Bool → Executing
  execute_start entropy op_id password_id password is_responder = do
    let id_a = identity_a password_id
    let started =
        if is_responder
        then c.start_b entropy password id_a responder_id
        else c.start_a entropy password id_a responder_id
    store_state started.0
    answer_with d op_id (started.1 ∷ [])

  unfoldable pub execute_finish : ℕ → List ℕ → Executing
  execute_finish op_id peer_public = do
    spake2 ← take_state
    key ← given CryptoError.operation_failed (c.finish spake2 peer_public)
    answer_with d op_id (key ∷ [])

  -- The context of 128 bytes is built, and its bounds are checked, and it is not used after that.
  unfoldable pub execute_finish_with_confirmation :
      ℕ → List ℕ → List ℕ → List ℕ → List ℕ → Bool → Executing
  execute_finish_with_confirmation op_id peer_public transcript my_fp peer_fp is_responder = do
    spake2 ← take_state
    shared_secret ← given CryptoError.operation_failed (c.finish spake2 peer_public)
    rfc_context ← lift (fill d 128 [] (shared_secret ∷ my_fp ∷ peer_fp ∷ []))
    conf_keys ← given CryptoError.operation_failed (c.hkdf none shared_secret confirmation_info 64)
    our_confirmation ←
        given CryptoError.invalid_input
          (c.hmac (if is_responder then drop 32 conf_keys else take 32 conf_keys) transcript)
    answer_with d op_id
        (shared_secret ∷ our_confirmation ∷ take 32 conf_keys ∷ drop 32 conf_keys ∷ [])

  unfoldable pub execute_verify_confirmation : ℕ → List ℕ → List ℕ → Executing
  execute_verify_confirmation op_id context peer_confirmation = do
    ensure (leb 32 (length context)) CryptoError.invalid_input
    ensure (length peer_confirmation == 32) CryptoError.invalid_input
    expected ←
        given CryptoError.invalid_input
          (c.hmac (drop (length context - 32) context) (take (length context - 32) context))
    ensure (d.ct_eq expected peer_confirmation) CryptoError.verification_failed
    pure (record { op_id = op_id; payload = [] })

  unfoldable pub execute_spake2 : (entropy : List ℕ) → ℕ → Spake2Operation → Executing
  execute_spake2 entropy op_id (Spake2Operation.start password_id password is_responder) =
      execute_start entropy op_id password_id password is_responder
  execute_spake2 entropy op_id (Spake2Operation.finish state peer_public) =
      execute_finish op_id peer_public
  execute_spake2 entropy op_id
        (Spake2Operation.finish_with_confirmation state peer_public transcript my_fp peer_fp
          is_responder) =
      execute_finish_with_confirmation op_id peer_public transcript my_fp peer_fp is_responder
  execute_spake2 entropy op_id (Spake2Operation.verify_confirmation context peer_confirmation) =
      execute_verify_confirmation op_id context peer_confirmation

  unfoldable pub execute_hash : ℕ → List ℕ → HashAlgorithm → Executing
  execute_hash op_id input HashAlgorithm.sha256 = answer_with d op_id (c.sha256 input ∷ [])
  execute_hash op_id input _ = raise CryptoError.unsupported

  unfoldable pub execute_hmac : ℕ → HashAlgorithm → List ℕ → List ℕ → Executing
  execute_hmac op_id HashAlgorithm.sha256 key input = do
    mac ← given CryptoError.invalid_input (c.hmac key input)
    answer_with d op_id (mac ∷ [])
  execute_hmac op_id _ key input = raise CryptoError.unsupported

  unfoldable pub hkdf_sha256 : ℕ → HkdfOperation → Executing
  hkdf_sha256 op_id op =
      if ltb max_crypto_output op.length then raise CryptoError.buffer_too_small else (do
        output ← given CryptoError.operation_failed (c.hkdf op.salt op.ikm op.info op.length)
        answer_with d op_id (output ∷ []))

  unfoldable pub execute_hkdf : ℕ → HkdfOperation → Executing
  execute_hkdf op_id op = elim op.algorithm [
    | HashAlgorithm.sha256 ↦ hkdf_sha256 op_id op
    | _ ↦ raise CryptoError.unsupported
  ]

  unfoldable pub execute_kind : (entropy : List ℕ) → ℕ → CryptoOpKind → Executing
  execute_kind entropy op_id (CryptoOpKind.spake2 op) = execute_spake2 entropy op_id op
  execute_kind entropy op_id (CryptoOpKind.hash op) = execute_hash op_id op.input op.algorithm
  execute_kind entropy op_id (CryptoOpKind.hmac op) =
      execute_hmac op_id op.algorithm op.key op.input
  execute_kind entropy op_id (CryptoOpKind.hkdf op) = execute_hkdf op_id op
  execute_kind entropy op_id _ = raise CryptoError.unsupported

  -- The trait's `execute`.
  abbrev pub rust_crypto : (entropy : List ℕ) → CryptoProvider (RustCryptoCryptoProvider K)
  rust_crypto entropy = record {
    execute = λ request. execute_kind entropy request.op_id request.kind;
  }
