-- ===== src/Crypto/RustCrypto/Spent.antt =====
-- Every request but a Start leaves a provider without a stored state without one.
use openscreen_rs.Base.{ℕ, ◌≡◌, refl, Bool, Option, none, some, List, raise}
use openscreen_rs.Base.Keeps.{Keeps, keeps_rules}
use openscreen_rs.Deps.{Deps}
use openscreen_rs.Crypto.{CryptoError, HashAlgorithm, HkdfOperation}
use openscreen_rs.Crypto.RustCrypto.{
  CryptoCrates, RustCryptoCryptoProvider, given, answer_with, take_state, execute_finish,
  execute_finish_with_confirmation, execute_verify_confirmation, execute_hash, execute_hmac,
  execute_hkdf, hkdf_sha256,
}

abbrev pub IsSpent : {K : Type 0} → RustCryptoCryptoProvider K → Type 0
IsSpent s = s.spake2_state ≡ none

module _ {S A : Type 0} {I : S → Type 0} where
  pub given-Keeps : (e : CryptoError) (o : Option A) → Keeps I (given {S = S} e o)
  given-Keeps e none = search keeps_rules
  given-Keeps e (some a) = search keeps_rules

module _ (d : Deps) {S : Type 0} {I : S → Type 0} where
  pub answer_with-Keeps :
      (op_id : ℕ) (pieces : List (List ℕ)) → Keeps I (answer_with d {S = S} op_id pieces)
  unfolding answer_with
  answer_with-Keeps op_id pieces = search keeps_rules

module _ (d : Deps) {K : Type 0} (c : CryptoCrates K) where
  pub hash-Keeps :
      (op_id : ℕ) (input : List ℕ) (a : HashAlgorithm)
      → Keeps IsSpent (execute_hash d c op_id input a)
  unfolding execute_hash
  hash-Keeps op_id input HashAlgorithm.sha256 = search answer_with-Keeps
  hash-Keeps op_id input HashAlgorithm.sha384 = search keeps_rules
  hash-Keeps op_id input HashAlgorithm.sha512 = search keeps_rules

  pub hmac-Keeps :
      (op_id : ℕ) (a : HashAlgorithm) (key input : List ℕ)
      → Keeps IsSpent (execute_hmac d c op_id a key input)
  unfolding execute_hmac
  hmac-Keeps op_id HashAlgorithm.sha256 key input =
      search (keeps_rules, given-Keeps, answer_with-Keeps)
  hmac-Keeps op_id HashAlgorithm.sha384 key input = search keeps_rules
  hmac-Keeps op_id HashAlgorithm.sha512 key input = search keeps_rules

  hkdf_sha256-Keeps : (op_id : ℕ) (op : HkdfOperation) → Keeps IsSpent (hkdf_sha256 d c op_id op)
  unfolding hkdf_sha256
  hkdf_sha256-Keeps op_id op = search (keeps_rules, given-Keeps, answer_with-Keeps)

  pub hkdf-Keeps : (op_id : ℕ) (op : HkdfOperation) → Keeps IsSpent (execute_hkdf d c op_id op)
  unfolding execute_hkdf
  hkdf-Keeps op_id op = by_algorithm op.algorithm
    where
      by_algorithm :
          (a : HashAlgorithm)
          → Keeps IsSpent (elim a [
            | HashAlgorithm.sha256 ↦ hkdf_sha256 d c op_id op
            | _ ↦ raise CryptoError.unsupported
          ])
      by_algorithm HashAlgorithm.sha256 = hkdf_sha256-Keeps op_id op
      by_algorithm HashAlgorithm.sha384 = search keeps_rules
      by_algorithm HashAlgorithm.sha512 = search keeps_rules

  pub verify-Keeps :
      (op_id : ℕ) (context mac : List ℕ)
      → Keeps IsSpent (execute_verify_confirmation d c op_id context mac)
  unfolding execute_verify_confirmation
  verify-Keeps op_id context mac = search (keeps_rules, given-Keeps) depth 12

  take_state-Keeps : Keeps IsSpent (take_state d c)
  unfolding take_state
  take_state-Keeps = record { at = λ s h. refl }

  pub finish-Keeps : (op_id : ℕ) (peer : List ℕ) → Keeps IsSpent (execute_finish d c op_id peer)
  unfolding execute_finish
  finish-Keeps op_id peer = search (keeps_rules, take_state-Keeps, given-Keeps, answer_with-Keeps)

  pub confirm-Keeps :
      (op_id : ℕ) (peer transcript my_fp peer_fp : List ℕ) (role : Bool)
      → Keeps IsSpent
          (execute_finish_with_confirmation d c op_id peer transcript my_fp peer_fp role)
  unfolding execute_finish_with_confirmation
  confirm-Keeps op_id peer transcript my_fp peer_fp role =
      search (keeps_rules, take_state-Keeps, given-Keeps, answer_with-Keeps) depth 16
