-- ===== src/Crypto/RustCrypto/Verifies.antt =====
-- What a verification that succeeds says of the confirmation, and that a stored state serves once.
use openscreen_rs.Base.{
  ℕ, ◌-◌, ◌≤◌, ◌≡◌, ◌∙◌, ap, sym, refl, Bool, true, false, Option, none, some, List, [], length,
  take, drop, leb, ◌==◌, arith, Outcome, ok, Action, pure, raise, ensure, ◌>>=◌, ◌>>◌,
}
use openscreen_rs.Deps.{Deps, Laws}
use openscreen_rs.Crypto.{CryptoError, CryptoResult, Spake2Operation}
use openscreen_rs.Crypto.RustCrypto.{
  CryptoCrates, RustCryptoCryptoProvider, given, execute_verify_confirmation, execute_spake2,
}

at_least : (a b : ℕ) → leb a b ≡ true → a ≤ b
at_least a b h = ground arith

ensure_ok :
    {S A : Type 0} (b : Bool) (e : CryptoError) (m : Action S CryptoError A) (s : S) (r : A)
    → ((ensure b e >> m) s).0 ≡ ok r
    → (b ≡ true) × ((m s).0 ≡ ok r)
unfolding ensure ◌>>=◌
ensure_ok true e m s r h = (refl, h)
ensure_ok false e m s r h = cc

pub given_ok :
    {S A B : Type 0} (o : Option A) (e : CryptoError) (f : A → Action S CryptoError B) (s : S)
    (r : B)
    → ((given e o >>= f) s).0 ≡ ok r
    → (a : A) × (o ≡ some a) × ((f a s).0 ≡ ok r)
unfolding pure raise ◌>>=◌
given_ok none e f s r h = cc
given_ok (some a) e f s r h = (a, refl, h)

pub ok_injective : {S A : Type 0} (x y : A) → Path (Outcome S A) (ok x) (ok y) → x ≡ y
ok_injective x y h = cc

module _ (d : Deps) (laws : Laws d) {K : Type 0} (c : CryptoCrates K) where
  -- A VerifyConfirmation that succeeds has a context of at least 32 bytes, and the confirmation of
  -- the peer is the HMAC of what comes before the last 32 bytes, under these as the key. The result is
  -- empty and has the id of the request.
  pub verified_mac :
      (e : List ℕ) (op_id : ℕ) (context peer_confirmation : List ℕ) (s : RustCryptoCryptoProvider K)
      (r : CryptoResult)
      → (execute_spake2 d c e op_id
          (Spake2Operation.verify_confirmation context peer_confirmation)
          s).0
        ≡ ok r
      → (32 ≤ length context)
        × (c.hmac (drop (length context - 32) context) (take (length context - 32) context)
            ≡ some peer_confirmation)
        × (r ≡ record { op_id = op_id; payload = [] })
  unfolding execute_spake2 execute_verify_confirmation pure
  verified_mac e op_id context peer_confirmation s r h =
      let long = ensure_ok (leb 32 (length context)) CryptoError.invalid_input _ s r h in
      let sized =
        ensure_ok (length peer_confirmation == 32) CryptoError.invalid_input _ s r long.1 in
      let made =
        given_ok (c.hmac (drop (length context - 32) context) (take (length context - 32) context))
          CryptoError.invalid_input _ s r sized.1 in
      let equal =
        ensure_ok (d.ct_eq made.0 peer_confirmation) CryptoError.verification_failed _ s r made.2 in
      (
        at_least 32 (length context) long.0,
        made.1 ∙ ap some ((laws.ct_eq_iff made.0 peer_confirmation).0 equal.0),
        sym (ok_injective _ r equal.1),
      )
