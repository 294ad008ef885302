-- ===== src/Crypto/RustCrypto/Confirms.antt =====
-- Two providers that carry out the exchange on one password verify each other's confirmation.
use openscreen_rs.Base.{
  ℕ, ◌+◌, ◌≤◌, ◌≡◌, ◌∙◌, sym, Bool, true, false, Option, some, none, List, [], ◌++◌, length,
  length-take, length-drop, arith, Outcome, ok, if◌then◌else◌,
}
use openscreen_rs.Deps.{Deps, Laws}
use openscreen_rs.Crypto.{CryptoError, CryptoResult, Spake2Operation}
use openscreen_rs.Crypto.RustCrypto.{
  CryptoCrates, RustCryptoCryptoProvider, responder_id, identity_a, execute_spake2,
}
use openscreen_rs.Crypto.RustCrypto.Answers.{
  CryptoCratesLaws, payload_of, part, start-answers, payload_from, payload_from-parts, finishes,
  verifies, key_of, derived,
}

abbrev other : Bool → Bool
other role = if role then false else true

module _ (d : Deps) {K : Type 0} (c : CryptoCrates K) (id : Option (List ℕ))
    (password transcript : List ℕ) where
  -- Start, and FinishWithConfirmation on the message of the other side.
  abbrev pub started :
      Bool
      → List ℕ
      → RustCryptoCryptoProvider K
      → Outcome CryptoError CryptoResult × RustCryptoCryptoProvider K
  started role e s = execute_spake2 d c e 1 (Spake2Operation.start id password role) s

  abbrev pub finished :
      Bool
      → (e e' my_fp peer_fp : List ℕ) → (s s' : RustCryptoCryptoProvider K)
      → Outcome CryptoError CryptoResult × RustCryptoCryptoProvider K
  finished role e e' my_fp peer_fp s s' =
      execute_spake2 d c [] 2
        (Spake2Operation.finish_with_confirmation [] (payload_of (started (other role) e' s').0)
          transcript my_fp peer_fp role)
        (started role e s).1

module _ (d : Deps) (laws : Laws d) {K : Type 0} (c : CryptoCrates K) (known : CryptoCratesLaws c)
    (id : Option (List ℕ)) (password transcript : List ℕ) where
  -- The state and the message of a side.
  abbrev sides : Bool → List ℕ → K × List ℕ
  sides role e =
      if role
      then c.start_b e password (identity_a id) responder_id
      else c.start_a e password (identity_a id) responder_id

  agreed :
      (role : Bool) (e e' : List ℕ)
      → (secret : List ℕ) × (c.finish (sides role e).0 (sides (other role) e').1 ≡ some secret)
        × (c.finish (sides (other role) e').0 (sides role e).1 ≡ some secret)
        × (length secret ≡ 32)
  agreed false e e' = known.agree e e' password (identity_a id) responder_id
  agreed true e e' =
      let both = known.agree e' e password (identity_a id) responder_id in
      (both.0, both.2, both.1, both.3)

  started-answers :
      (role : Bool) (e : List ℕ) (s : RustCryptoCryptoProvider K)
      → started d c id password transcript role e s ≡ (
        ok (record { op_id = 1; payload = (sides role e).1 }),
        record { spake2_state = some (sides role e).0 },
      )
  unfolding execute_spake2
  started-answers false e s =
      start-answers d laws c known e 1 id password false s
        (known.start_a_length e password (identity_a id) responder_id)
  started-answers true e s =
      start-answers d laws c known e 1 id password true s
        (known.start_b_length e password (identity_a id) responder_id)

  finished-answers :
      (role : Bool) (e e' my_fp peer_fp secret : List ℕ) (s s' : RustCryptoCryptoProvider K)
      → c.finish (sides role e).0 (sides (other role) e').1 ≡ some secret
      → length secret ≡ 32
      → length my_fp + length peer_fp ≤ 96
      → finished d c id password transcript role e e' my_fp peer_fp s s' ≡ (
        ok (record { op_id = 2; payload = payload_from d laws c known role secret transcript }),
        record { spake2_state = none },
      )
  unfolding execute_spake2
  finished-answers role e e' my_fp peer_fp secret s s' agrees len fps =
      rw (started-answers role e s, started-answers (other role) e' s')
        (finishes d laws c known 2 (sides role e).0 (sides (other role) e').1 transcript my_fp
          peer_fp role secret agrees len fps)

  -- The key of the other side, where the payload of a side has it.
  key-part :
      (role : Bool) (secret : List ℕ)
      → length secret ≡ 32
      → part (if role then 2 else 3) (payload_from d laws c known role secret transcript)
        ≡ key_of d laws c known (other role) secret
  key-part false secret len = (payload_from-parts d laws c known false secret transcript len).3
  key-part true secret len = (payload_from-parts d laws c known true secret transcript len).2

  key_of-length : (role : Bool) (secret : List ℕ) → length (key_of d laws c known role secret) ≡ 32
  key_of-length false secret =
      let keys = (derived d laws c known secret) in omega (arith, keys.2, length-take 32 keys.0)
  key_of-length true secret =
      let keys = (derived d laws c known secret) in omega (arith, keys.2, length-drop 32 keys.0)

  confirms :
      (role : Bool) (secret : List ℕ)
      (mine theirs : Outcome CryptoError CryptoResult × RustCryptoCryptoProvider K)
      → length secret ≡ 32
      → mine ≡ (
        ok (record { op_id = 2; payload = payload_from d laws c known role secret transcript }),
        record { spake2_state = none },
      )
      → theirs ≡ (
        ok (record {
          op_id = 2;
          payload = payload_from d laws c known (other role) secret transcript;
        }),
        record { spake2_state = none },
      )
      → let key = part (if role then 2 else 3) (payload_of mine.0) in
        (part 0 (payload_of mine.0) ≡ part 0 (payload_of theirs.0))
        × (execute_spake2 d c [] 3
              (Spake2Operation.verify_confirmation
                (transcript ++ key)
                (part 1 (payload_of theirs.0)))
              mine.1
            ≡ (ok (record { op_id = 3; payload = [] }), mine.1))
  unfolding execute_spake2
  confirms role secret mine theirs len as_mine as_theirs =
      let own = payload_from-parts d laws c known role secret transcript len in
      let their = payload_from-parts d laws c known (other role) secret transcript len in
      let key = key_of d laws c known (other role) secret in
      let mac = known.hmac_length key transcript in
      rw (as_mine, as_theirs)
        (
          own.0 ∙ sym their.0,
          (rw (key-part role secret len, their.1)
              (verifies d laws c known 3 transcript key mac.0 (record { spake2_state = none })
                (key_of-length (other role) secret) mac.1 mac.2)),
        )

  -- Two providers, one in each role, start on the same password and the same password id, and each
  -- finishes with the message of the other, on the same transcript, with fingerprints that together
  -- take at most 96 bytes and that need not be those that the other has. Then both hold the same
  -- secret, and the confirmation that the other made is verified with the key of the other's role,
  -- which is in the own result.
  pub confirmation_verified :
      (role : Bool) (e e' my_fp peer_fp my_fp' peer_fp' : List ℕ)
      (s s' : RustCryptoCryptoProvider K)
      → length my_fp + length peer_fp ≤ 96
      → length my_fp' + length peer_fp' ≤ 96
      → let mine = finished d c id password transcript role e e' my_fp peer_fp s s' in
        let theirs = finished d c id password transcript (other role) e' e my_fp' peer_fp' s' s in
        let key = part (if role then 2 else 3) (payload_of mine.0) in
        (part 0 (payload_of mine.0) ≡ part 0 (payload_of theirs.0))
        × (execute_spake2 d c [] 3
              (Spake2Operation.verify_confirmation
                (transcript ++ key)
                (part 1 (payload_of theirs.0)))
              mine.1
            ≡ (ok (record { op_id = 3; payload = [] }), mine.1))
  unfolding execute_spake2
  confirmation_verified false e e' my_fp peer_fp my_fp' peer_fp' s s' fps fps' =
      let a = agreed false e e' in
      confirms false a.0 _ _ a.3 (finished-answers false e e' my_fp peer_fp a.0 s s' a.1 a.3 fps)
        (finished-answers true e' e my_fp' peer_fp' a.0 s' s a.2 a.3 fps')
  confirmation_verified true e e' my_fp peer_fp my_fp' peer_fp' s s' fps fps' =
      let a = agreed true e e' in
      confirms true a.0 _ _ a.3 (finished-answers true e e' my_fp peer_fp a.0 s s' a.1 a.3 fps)
        (finished-answers false e' e my_fp' peer_fp' a.0 s' s a.2 a.3 fps')
