-- ===== src/Examples/Provider.antt =====
-- The provider on small versions of the cryptographic crates.
use openscreen_rs.Base.{
  ℕ, ◌≡◌, refl, true, false, none, some, Option, List, [], ◌∷◌, ◌++◌, replicate, length,
  length-append, length-take, zero, suc, take, arith, Outcome, ok, err, ◌≤◌, ◌>>=◌, pure, ensure,
  lift, raise,
}
use openscreen_rs.Crypto.{
  CryptoError, CryptoResult, CryptoRequest, CryptoOpKind, Spake2Operation, HashAlgorithm,
}
use openscreen_rs.Crypto.RustCrypto.{
  CryptoCrates, RustCryptoCryptoProvider, new_provider, rust_crypto, execute_spake2, fill,
  answer_with, take_state, execute_finish, execute_verify_confirmation, execute_kind, execute_hash,
  execute_hkdf, hkdf_sha256,
}
use openscreen_rs.Crypto.RustCrypto.Answers.{payload_of, part, CryptoCratesLaws}
use openscreen_rs.Crypto.RustCrypto.Confirms.{confirmation_verified, finished}
use openscreen_rs.Crypto.RustCrypto.Verifies.{verified_mac}
use openscreen_rs.Crypto.RustCrypto.Once.{after_requests, state_serves_once}
use openscreen_rs.Examples.Crates.{crates, crates-Laws}

abbrev padded : ℕ → List ℕ → List ℕ
padded n xs = take n (xs ++ replicate n 0)

length-replicate : (n x : ℕ) → length (replicate n x) ≡ n
length-replicate zero x = refl
length-replicate (suc n) x = omega (arith, length-replicate n x)

length-padded : (n : ℕ) (xs : List ℕ) → length (padded n xs) ≡ n
length-padded n xs = omega (
  arith,
  length-take n (xs ++ replicate n 0),
  length-append xs (replicate n 0),
  length-replicate n 0,
)

-- The password is the secret, and the other functions pad what they are given.
abbrev pub small_crates : CryptoCrates (List ℕ)
small_crates = record {
  start_a = λ e password id_a id_b. (password, replicate 33 1);
  start_b = λ e password id_a id_b. (password, replicate 33 2);
  finish = λ k message. some (padded 32 k);
  sha256 = padded 32;
  hmac = λ key input. some (padded 32 (input ++ key));
  hkdf = λ salt ikm info n. some (padded n ikm);
}

finish_length_lem :
    (k secret : List ℕ)
    → Path (Option (List ℕ)) (some (padded 32 k)) (some secret)
    → length secret ≡ 32
finish_length_lem k secret h =
    let same : padded 32 k ≡ secret = cc in rw (← same) (length-padded 32 k)

pub small_crates-Laws : CryptoCratesLaws small_crates
small_crates-Laws = record {
  agree = λ e e' password id_a id_b. (padded 32 password, refl, refl, length-padded 32 password);
  finish_length = λ k message secret h. finish_length_lem k secret h;
  start_a_length = λ e password id_a id_b. refl;
  start_b_length = λ e password id_a id_b. refl;
  hkdf_length = λ salt ikm info n h. (padded n ikm, refl, length-padded n ikm);
  hmac_length = λ key input. (padded 32 (input ++ key), refl, length-padded 32 (input ++ key));
}

abbrev pin : List ℕ
pin = 49 ∷ 50 ∷ 51 ∷ 52 ∷ []

abbrev transcript : List ℕ
transcript = 4 ∷ 5 ∷ []

-- The provider of a side, initiator or responder, after both messages: the fingerprints that the
-- two sides have of each other do not match.
abbrev initiator : Outcome CryptoError CryptoResult × RustCryptoCryptoProvider (List ℕ)
initiator =
    finished crates small_crates none pin transcript false [] [] (replicate 32 1) (replicate 32 2)
      new_provider new_provider

abbrev responder : Outcome CryptoError CryptoResult × RustCryptoCryptoProvider (List ℕ)
responder =
    finished crates small_crates none pin transcript true [] [] (replicate 32 3) (replicate 32 4)
      new_provider new_provider

confirmation_verified_example :
    (part 0 (payload_of initiator.0) ≡ part 0 (payload_of responder.0))
    × (execute_spake2 crates small_crates [] 3
          (Spake2Operation.verify_confirmation
            (transcript ++ part 3 (payload_of initiator.0))
            (part 1 (payload_of responder.0)))
          initiator.1
        ≡ (ok (record { op_id = 3; payload = [] }), initiator.1))
confirmation_verified_example =
    confirmation_verified crates crates-Laws small_crates small_crates-Laws none pin transcript
      false [] [] (replicate 32 1) (replicate 32 2) (replicate 32 3) (replicate 32 4) new_provider
      new_provider (omega arith) (omega arith)

abbrev empty_result : CryptoResult
empty_result = record { op_id = 8; payload = [] }

-- The confirmation of `transcript` under a key of 32 sevens.
verified_mac_example :
    (32 ≤ length (transcript ++ replicate 32 7))
    × (small_crates.hmac (replicate 32 7) transcript
        ≡ some (padded 32 (transcript ++ replicate 32 7)))
    × (empty_result ≡ record { op_id = 8; payload = [] })
unfolding execute_spake2 execute_verify_confirmation ◌>>=◌ pure ensure
verified_mac_example =
    verified_mac crates crates-Laws small_crates [] 8 (transcript ++ replicate 32 7)
      (padded 32 (transcript ++ replicate 32 7)) new_provider (record { op_id = 8; payload = [] })
      refl

abbrev finish_request : CryptoRequest
finish_request = record {
  op_id = 5;
  kind = CryptoOpKind.spake2 (Spake2Operation.finish [] (6 ∷ []));
}

abbrev hash_request : CryptoRequest
hash_request = record {
  op_id = 6;
  kind = CryptoOpKind.hash (record { algorithm = HashAlgorithm.sha256; input = 1 ∷ [] });
}

abbrev started_provider : RustCryptoCryptoProvider (List ℕ)
started_provider = record { spake2_state = some pin }

state_serves_once_example :
    ((rust_crypto crates small_crates []).execute finish_request (
      after_requests crates small_crates
        (([], hash_request) ∷ [])
        ((rust_crypto crates small_crates []).execute finish_request started_provider).1)).0
    ≡ err CryptoError.invalid_input
state_serves_once_example =
    state_serves_once crates small_crates [] [] finish_request finish_request
      (([], hash_request) ∷ []) started_provider refl refl refl

-- The first finish returns the secret, and the second is refused.
first_finish :
    ((rust_crypto crates small_crates []).execute finish_request started_provider).0
    ≡ ok (record { op_id = 5; payload = padded 32 pin })
unfolding execute_kind execute_spake2 execute_finish take_state answer_with fill pure lift ◌>>=◌
first_finish = refl

sha384_unsupported :
    ((rust_crypto crates small_crates []).execute
      (record {
        op_id = 6;
        kind = CryptoOpKind.hash (record { algorithm = HashAlgorithm.sha384; input = [] });
      })
      new_provider).0
    ≡ err CryptoError.unsupported
unfolding execute_kind execute_hash raise
sha384_unsupported = refl

long_output_refused :
    ((rust_crypto crates small_crates []).execute
      (record {
        op_id = 6;
        kind = CryptoOpKind.hkdf (record {
          algorithm = HashAlgorithm.sha256;
          salt = none;
          ikm = pin;
          info = [];
          length = 641;
        });
      })
      new_provider).0
    ≡ err CryptoError.buffer_too_small
unfolding execute_kind execute_hkdf hkdf_sha256 raise
long_output_refused = refl
