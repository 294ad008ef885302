-- ===== src/Crypto.antt =====
-- openscreen-crypto/src/lib.rs: the requests that the protocol makes of a crypto provider, and the
-- results. Only the SPAKE2 requests are made by the protocol.
pub mod Provider
pub mod RustCrypto
use openscreen_rs.Base.{ℕ, Bool, Option, List}

abbrev pub max_crypto_output : ℕ
max_crypto_output = 640

pub data CryptoError : Type 0 where
  invalid_input operation_failed verification_failed buffer_too_small unsupported : CryptoError

pub data Spake2Operation : Type 0 where
  start :
      (password_id : Option (List ℕ)) (password : List ℕ) (is_responder : Bool) → Spake2Operation
  finish : (state peer_public : List ℕ) → Spake2Operation
  finish_with_confirmation :
      (state peer_public message_transcript my_tls_fingerprint peer_tls_fingerprint : List ℕ)
      (is_responder : Bool)
      → Spake2Operation
  verify_confirmation : (context peer_confirmation : List ℕ) → Spake2Operation

pub data CertOperation : Type 0 where
  generate : (common_name : List ℕ) → CertOperation
  verify : (cert : List ℕ) → CertOperation

pub data HashAlgorithm : Type 0 where
  sha256 sha384 sha512 : HashAlgorithm

pub record HashOperation : Type 0 where
  pub algorithm : HashAlgorithm
  pub input : List ℕ

pub record HmacOperation : Type 0 where
  pub algorithm : HashAlgorithm
  pub key : List ℕ
  pub input : List ℕ

pub record HkdfOperation : Type 0 where
  pub algorithm : HashAlgorithm
  pub ikm : List ℕ
  pub salt : Option (List ℕ)
  pub info : List ℕ
  pub length : ℕ

pub data EcdsaOperation : Type 0 where
  sign : (private_key input : List ℕ) → EcdsaOperation
  verify : (public_key input signature : List ℕ) → EcdsaOperation

pub data CryptoOpKind : Type 0 where
  spake2 : Spake2Operation → CryptoOpKind
  certificate : CertOperation → CryptoOpKind
  hash : HashOperation → CryptoOpKind
  hmac : HmacOperation → CryptoOpKind
  hkdf : HkdfOperation → CryptoOpKind
  ecdsa : EcdsaOperation → CryptoOpKind

pub record CryptoRequest : Type 0 where
  pub op_id : ℕ
  pub kind : CryptoOpKind

pub record CryptoResult : Type 0 where
  pub op_id : ℕ
  pub payload : List ℕ
