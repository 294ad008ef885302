-- ===== src/Crypto/Provider.antt =====
-- openscreen-crypto/src/lib.rs: the interface of a crypto provider, its default methods, and the mock.
use openscreen_rs.Base.{
  ℕ, Bool, Option, List, [], length, Outcome, ok, panic, Action, if◌then◌else◌,
}
use openscreen_rs.Deps.{Deps}
use openscreen_rs.Crypto.{
  CryptoError, CryptoRequest, CryptoResult, CryptoOpKind, Spake2Operation, HashAlgorithm,
  max_crypto_output,
}

-- The trait CryptoProvider; the state is `self`.
pub record CryptoProvider (S : Type 0) : Type 0 where
  pub execute : CryptoRequest → Action S CryptoError CryptoResult

-- Its default methods.
module _ {S : Type 0} (p : CryptoProvider S) where
  unfoldable pub spake2_start :
      ℕ → Option (List ℕ) → List ℕ → Bool → Action S CryptoError CryptoResult
  spake2_start op_id password_id password is_responder = p.execute (record {
    op_id = op_id;
    kind = CryptoOpKind.spake2 (Spake2Operation.start password_id password is_responder);
  })

  unfoldable pub spake2_finish : ℕ → List ℕ → List ℕ → Action S CryptoError CryptoResult
  spake2_finish op_id state peer_public = p.execute (record {
    op_id = op_id;
    kind = CryptoOpKind.spake2 (Spake2Operation.finish state peer_public);
  })

  unfoldable pub hkdf_derive :
      ℕ → HashAlgorithm → List ℕ → Option (List ℕ) → List ℕ → ℕ → Action S CryptoError CryptoResult
  hkdf_derive op_id algorithm ikm salt info length = p.execute (record {
    op_id = op_id;
    kind =
        CryptoOpKind.hkdf
          (record { algorithm = algorithm; ikm = ikm; salt = salt; info = info; length = length });
  })

  unfoldable pub hash : ℕ → HashAlgorithm → List ℕ → Action S CryptoError CryptoResult
  hash op_id algorithm input = p.execute (record {
    op_id = op_id;
    kind = CryptoOpKind.hash (record { algorithm = algorithm; input = input });
  })

  unfoldable pub hmac : ℕ → HashAlgorithm → List ℕ → List ℕ → Action S CryptoError CryptoResult
  hmac op_id algorithm key input = p.execute (record {
    op_id = op_id;
    kind = CryptoOpKind.hmac (record { algorithm = algorithm; key = key; input = input });
  })

  unfoldable pub execute_crypto_request : CryptoRequest → Action S CryptoError CryptoResult
  execute_crypto_request request = p.execute request

pub record MockCryptoProvider : Type 0 where
  pub fixed_output : List ℕ

-- The `unwrap` panics where the output is longer than the vector.
unfoldable pub new : Deps → List ℕ → Outcome CryptoError MockCryptoProvider
new d output =
    let written = d.heapless.extend_from_slice max_crypto_output [] output in
    if written.0 then ok (record { fixed_output = written.1 }) else panic

abbrev pub empty : MockCryptoProvider
empty = record { fixed_output = [] }

unfoldable pub mock_execute : CryptoRequest → Action MockCryptoProvider CryptoError CryptoResult
mock_execute request s = (ok (record { op_id = request.op_id; payload = s.fixed_output }), s)

abbrev pub mock : CryptoProvider MockCryptoProvider
mock = record { execute = mock_execute }
