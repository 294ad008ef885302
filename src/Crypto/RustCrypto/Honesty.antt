-- ===== src/Crypto/RustCrypto/Honesty.antt =====
-- Of the SPAKE2 requests, the provider answers only a VerifyConfirmation with an empty result.
use mathlib.Core.Bool.{false≢true}
use openscreen_rs.Base.{
  ℕ, ◌+◌, ◌≤◌, ◌<◌, ◌≡◌, refl, inl, inr, fits_or_not, Bool, true, false, none, some, Option, List,
  [], ◌∷◌, ◌++◌, length, length-append, is_empty, arith, Outcome, ok, err, panic, Action, pure,
  lift, ◌>>=◌, if◌then◌else◌, take, drop, flatten,
}
use openscreen_rs.Deps.{Deps, Laws}
use openscreen_rs.Crypto.{CryptoError, CryptoResult, Spake2Operation, max_crypto_output}
use openscreen_rs.Crypto.RustCrypto.{
  CryptoCrates, RustCryptoCryptoProvider, identity_a, responder_id, confirmation_info, fill,
  answer_with, take_state, execute_start, execute_finish, execute_finish_with_confirmation,
  execute_spake2,
}
use openscreen_rs.Crypto.RustCrypto.Answers.{CryptoCratesLaws, start-answers}
use openscreen_rs.Crypto.RustCrypto.Verifies.{given_ok, ok_injective}

lift_ok :
    {S A B : Type 0} (o : Outcome CryptoError A) (f : A → Action S CryptoError B) (s : S) (r : B)
    → ((lift o >>= f) s).0 ≡ ok r
    → (a : A) × (o ≡ ok a) × ((f a s).0 ≡ ok r)
unfolding lift ◌>>=◌
lift_ok (ok a) f s r h = (a, refl, h)
lift_ok (err e) f s r h = cc
lift_ok panic f s r h = cc

failed :
    (e : CryptoError) (bytes : List ℕ) → Path (Outcome CryptoError (List ℕ)) (err e) (ok bytes) → ⊥
failed e bytes h = cc

not_empty : (bytes : List ℕ) → 0 < length bytes → is_empty bytes ≡ true → ⊥
not_empty [] long h = omega (arith, long)
not_empty (b ∷ bytes) long h = false≢true h

module _ (d : Deps) (laws : Laws d) where
  -- What is filled in is as long as what was there and all the pieces.
  fill-length :
      (n : ℕ) (buf : List ℕ) (pieces : List (List ℕ)) (bytes : List ℕ)
      → fill d n buf pieces ≡ ok bytes
      → length buf + length (flatten pieces) ≤ length bytes
  unfolding fill flatten
  fill-length n buf [] bytes h =
      let same : buf ≡ bytes = ok_injective buf bytes h in rw same (omega arith)
  fill-length n buf (piece ∷ pieces) bytes h = elim (fits_or_not (length buf + length piece) n) [
    | inl fits ↦
        let more =
          fill-length n (buf ++ piece) pieces bytes
            (rw (laws.heapless.extend_fits n buf piece fits) at h) in
        omega (arith, more, length-append buf piece, length-append piece (flatten pieces))
    | inr over ↦ absurd (failed _ bytes (rw (laws.heapless.extend_full n buf piece over) at h))
  ]

  -- A result holds all its pieces.
  answer-length :
      {S : Type 0} (op_id : ℕ) (pieces : List (List ℕ)) (s : S) (r : CryptoResult)
      → (answer_with d op_id pieces s).0 ≡ ok r
      → length (flatten pieces) ≤ length r.payload
  unfolding answer_with pure
  answer-length op_id pieces s r h =
      let filled = lift_ok (fill d max_crypto_output [] pieces) _ s r h in
      let same = ok_injective _ r filled.2 in
      let long = fill-length max_crypto_output [] pieces filled.0 filled.1 in
      rw (← same) (omega (arith, long))

module _ (d : Deps) (laws : Laws d) {K : Type 0} (c : CryptoCrates K)
    (known : CryptoCratesLaws c) where
  take_ok :
      (f : K → Action (RustCryptoCryptoProvider K) CryptoError CryptoResult) (stored : Option K)
      (r : CryptoResult)
      → ((take_state d c >>= f) (record { spake2_state = stored })).0 ≡ ok r
      → (k : K) × ((f k (record { spake2_state = none })).0 ≡ ok r)
  unfolding take_state ◌>>=◌
  take_ok f none r h = cc
  take_ok f (some k) r h = (k, h)

  -- A result that begins with a secret is not empty.
  secret-answers :
      (op_id : ℕ) (k : K) (peer secret : List ℕ) (pieces : List (List ℕ))
      (s : RustCryptoCryptoProvider K) (r : CryptoResult)
      → c.finish k peer ≡ some secret
      → (answer_with d op_id (secret ∷ pieces) s).0 ≡ ok r
      → is_empty r.payload ≡ true
      → ⊥
  unfolding flatten
  secret-answers op_id k peer secret pieces s r finished h =
      let size = known.finish_length k peer secret finished in
      let long = answer-length d laws op_id (secret ∷ pieces) s r h in
      not_empty r.payload (omega (arith, size, long, length-append secret (flatten pieces)))

  finish-answers_secret :
      (op_id : ℕ) (peer : List ℕ) (s : RustCryptoCryptoProvider K) (r : CryptoResult)
      → (execute_finish d c op_id peer s).0 ≡ ok r
      → is_empty r.payload ≡ true
      → ⊥
  unfolding execute_finish
  finish-answers_secret op_id peer s r h =
      let taken = take_ok _ s.spake2_state r h in
      let key = given_ok (c.finish taken.0 peer) CryptoError.operation_failed _ _ r taken.1 in
      secret-answers op_id taken.0 peer key.0 [] _ r key.1 key.2

  confirm-answers_secret :
      (op_id : ℕ) (peer transcript my_fp peer_fp : List ℕ) (role : Bool)
      (s : RustCryptoCryptoProvider K) (r : CryptoResult)
      → (execute_finish_with_confirmation d c op_id peer transcript my_fp peer_fp role s).0 ≡ ok r
      → is_empty r.payload ≡ true
      → ⊥
  unfolding execute_finish_with_confirmation
  confirm-answers_secret op_id peer transcript my_fp peer_fp role s r h =
      let taken = take_ok _ s.spake2_state r h in
      let key = given_ok (c.finish taken.0 peer) CryptoError.operation_failed _ _ r taken.1 in
      let built = lift_ok (fill d 128 [] (key.0 ∷ my_fp ∷ peer_fp ∷ [])) _ _ r key.2 in
      let derived =
        given_ok (c.hkdf none key.0 confirmation_info 64) CryptoError.operation_failed _ _ r
          built.2 in
      let own =
        given_ok (c.hmac (if role then drop 32 derived.0 else take 32 derived.0) transcript)
          CryptoError.invalid_input _ _ r derived.2 in
      secret-answers op_id taken.0 peer key.0 _ _ r key.1 own.2

  start-answers_message :
      (e : List ℕ) (op_id : ℕ) (id : Option (List ℕ)) (password : List ℕ) (role : Bool)
      (s : RustCryptoCryptoProvider K) (r : CryptoResult)
      → (execute_start d c e op_id id password role s).0 ≡ ok r
      → is_empty r.payload ≡ true
      → ⊥
  start-answers_message e op_id id password role s r h = by_role role h
    where
      by_size :
          (b : Bool) (message : List ℕ) (after : RustCryptoCryptoProvider K)
          → length message ≡ 33
          → execute_start d c e op_id id password b s
            ≡ (ok (record { op_id = op_id; payload = message }), after)
          → (execute_start d c e op_id id password b s).0 ≡ ok r
          → is_empty r.payload ≡ true
          → ⊥
      by_size b message after size answers h' =
          let same = ok_injective _ r (rw answers at h') in
          rw (← same) (not_empty message (omega (arith, size)))

      by_role :
          (b : Bool)
          → (execute_start d c e op_id id password b s).0 ≡ ok r
          → is_empty r.payload ≡ true
          → ⊥
      by_role false =
          let size = known.start_a_length e password (identity_a id) responder_id in
          by_size false _ _ size (start-answers d laws c known e op_id id password false s size)
      by_role true =
          let size = known.start_b_length e password (identity_a id) responder_id in
          by_size true _ _ size (start-answers d laws c known e op_id id password true s size)

  -- What the provider answers to the other three SPAKE2 requests is not empty.
  pub empty_answer-rust :
      (e : List ℕ) (op_id : ℕ) (op : Spake2Operation) (s : RustCryptoCryptoProvider K)
      (r : CryptoResult)
      → (execute_spake2 d c e op_id op s).0 ≡ ok r
      → is_empty r.payload ≡ true
      → (context : List ℕ) × (mac : List ℕ) × (op ≡ Spake2Operation.verify_confirmation context mac)
  unfolding execute_spake2
  empty_answer-rust e op_id (Spake2Operation.start id password role) s r h empty =
      absurd (start-answers_message e op_id id password role s r h empty)
  empty_answer-rust e op_id (Spake2Operation.finish state peer) s r h empty =
      absurd (finish-answers_secret op_id peer s r h empty)
  empty_answer-rust e op_id
        (Spake2Operation.finish_with_confirmation state peer transcript my_fp peer_fp role) s r h
        empty =
      absurd (confirm-answers_secret op_id peer transcript my_fp peer_fp role s r h empty)
  empty_answer-rust e op_id (Spake2Operation.verify_confirmation context mac) s r h empty =
      (context, mac, refl)
