-- ===== src/Crypto/RustCrypto/Answers.antt =====
-- What FinishWithConfirmation and VerifyConfirmation answer, in parts of 32 bytes, with crates that do
-- what their documentation says.
use openscreen_rs.Base.{
  ℕ, ◌+◌, ◌-◌, ◌*◌, ◌≤◌, ◌≡◌, ◌∙◌, ap, sym, refl, Bool, true, false, Option, none, some, List, [],
  ◌++◌, append-nil, append_assoc, length, length-append, length-take, length-drop, take, drop,
  take-length-append, drop-length-append, le→leb, arith, Outcome, ok, pure, lift, ◌>>=◌,
  if◌then◌else◌,
}
use openscreen_rs.Deps.{Deps, Laws}
use openscreen_rs.Crypto.{CryptoError, CryptoResult, max_crypto_output}
use openscreen_rs.Crypto.RustCrypto.{
  CryptoCrates, RustCryptoCryptoProvider, responder_id, identity_a, confirmation_info, fill,
  answer_with, store_state, take_state, execute_start, execute_finish_with_confirmation,
  execute_verify_confirmation,
}

-- SPAKE2 on one password and the same identities gives both sides the same secret, and any secret has 32 bytes, from
-- messages that fit in a result; HKDF gives as many bytes as are asked for, HMAC 32.
pub record CryptoCratesLaws {K : Type 0} (c : CryptoCrates K) : Type 0 where
  pub agree :
      (e e' password id_a id_b : List ℕ)
      → let a = c.start_a e password id_a id_b in
        let b = c.start_b e' password id_a id_b in
        (secret : List ℕ) × (c.finish a.0 b.1 ≡ some secret)
        × (c.finish b.0 a.1 ≡ some secret)
        × (length secret ≡ 32)
  pub finish_length :
      (k : K) (message secret : List ℕ) → c.finish k message ≡ some secret → length secret ≡ 32
  pub start_a_length :
      (e password id_a id_b : List ℕ) → length (c.start_a e password id_a id_b).1 ≡ 33
  pub start_b_length :
      (e password id_a id_b : List ℕ) → length (c.start_b e password id_a id_b).1 ≡ 33
  pub hkdf_length :
      (salt : Option (List ℕ)) (ikm info : List ℕ) (n : ℕ)
      → n ≤ 8160
      → (okm : List ℕ) × (c.hkdf salt ikm info n ≡ some okm) × (length okm ≡ n)
  pub hmac_length :
      (key input : List ℕ) → (mac : List ℕ) × (c.hmac key input ≡ some mac) × (length mac ≡ 32)

-- What a result holds, in parts of 32 bytes.
abbrev pub payload_of : Outcome CryptoError CryptoResult → List ℕ
payload_of (ok result) = result.payload
payload_of _ = []

abbrev pub part : ℕ → List ℕ → List ℕ
part i bytes = take 32 (drop (i * 32) bytes)

drop_exact : (n : ℕ) (xs ys : List ℕ) → length xs ≡ n → drop n (xs ++ ys) ≡ ys
drop_exact n xs ys h = rw (← h) (drop-length-append xs ys)

take_exact : (n : ℕ) (xs ys : List ℕ) → length xs ≡ n → take n (xs ++ ys) ≡ xs
take_exact n xs ys h = rw (← h) (take-length-append xs ys)

pub take_all : (n : ℕ) (xs : List ℕ) → length xs ≡ n → take n xs ≡ xs
take_all n xs h = ap (take n) (sym (append-nil xs)) ∙ take_exact n xs [] h

-- The four parts of a payload.
pub parts :
    (a b k l : List ℕ)
    → length a ≡ 32
    → length b ≡ 32
    → length k ≡ 32
    → length l ≡ 32
    → let whole = ((a ++ b) ++ k) ++ l in
      (part 0 whole ≡ a) × (part 1 whole ≡ b) × (part 2 whole ≡ k) × (part 3 whole ≡ l)
parts a b k l ha hb hk hl = (
  (rw (append_assoc (a ++ b) k l, append_assoc a b (k ++ l)) (take_exact 32 a (b ++ (k ++ l)) ha)),
  (rw (append_assoc (a ++ b) k l, append_assoc a b (k ++ l), drop_exact 32 a (b ++ (k ++ l)) ha)
      (take_exact 32 b (k ++ l) hb)),
  (rw
      (
        append_assoc (a ++ b) k l,
        drop_exact 64 (a ++ b) (k ++ l) (omega (arith, ha, hb, length-append a b)),
      )
      (take_exact 32 k l hk)),
  rw (
    drop_exact 96 ((a ++ b) ++ k) l
        (omega (arith, ha, hb, hk, length-append a b, length-append (a ++ b) k)),
    take_all 32 l hl,
  ),
)

module _ (d : Deps) (laws : Laws d) {K : Type 0} (c : CryptoCrates K)
    (known : CryptoCratesLaws c) where
  pub start-answers :
      (e : List ℕ) (op_id : ℕ) (id : Option (List ℕ)) (password : List ℕ) (role : Bool)
      (s : RustCryptoCryptoProvider K)
      → let started =
          if role
          then c.start_b e password (identity_a id) responder_id
          else c.start_a e password (identity_a id) responder_id in
        length started.1 ≡ 33
        → execute_start d c e op_id id password role s ≡ (
          ok (record { op_id = op_id; payload = started.1 }),
          record { spake2_state = some started.0 },
        )
  unfolding execute_start store_state answer_with fill lift pure ◌>>=◌
  start-answers e op_id id password role s h = rw (
      laws.heapless.extend_fits max_crypto_output []
        (if role
          then c.start_b e password (identity_a id) responder_id
          else c.start_a e password (identity_a id) responder_id).1
        (omega (arith, h)))

  -- The result of FinishWithConfirmation from the secret, the keys and the confirmation.
  finish-answers :
      (op_id : ℕ) (k : K) (peer transcript my_fp peer_fp : List ℕ) (role : Bool)
      (secret keys mac : List ℕ)
      → c.finish k peer ≡ some secret
      → length secret ≡ 32
      → length my_fp + length peer_fp ≤ 96
      → c.hkdf none secret confirmation_info 64 ≡ some keys
      → length keys ≡ 64
      → c.hmac (if role then drop 32 keys else take 32 keys) transcript ≡ some mac
      → length mac ≡ 32
      → execute_finish_with_confirmation d c op_id peer transcript my_fp peer_fp role
          (record { spake2_state = some k })
        ≡ (
          ok (record {
            op_id = op_id;
            payload = ((secret ++ mac) ++ take 32 keys) ++ drop 32 keys;
          }),
          record { spake2_state = none },
        )
  unfolding execute_finish_with_confirmation take_state answer_with fill lift pure ◌>>=◌
  finish-answers op_id k peer transcript my_fp peer_fp role secret keys mac hk len fps hkdf klen
        hmac mlen =
      rw (
        hk,
        laws.heapless.extend_fits 128 [] secret (omega (arith, len)),
        laws.heapless.extend_fits 128 secret my_fp (omega (arith, len, fps)),
        laws.heapless.extend_fits 128 (secret ++ my_fp) peer_fp
            (omega (arith, len, fps, length-append secret my_fp)),
        hkdf,
        hmac,
        laws.heapless.extend_fits max_crypto_output [] secret (omega (arith, len)),
        laws.heapless.extend_fits max_crypto_output secret mac (omega (arith, len, mlen)),
        laws.heapless.extend_fits max_crypto_output (secret ++ mac) (take 32 keys)
            (omega (arith, len, mlen, klen, length-append secret mac, length-take 32 keys)),
        laws.heapless.extend_fits max_crypto_output ((secret ++ mac) ++ take 32 keys) (drop 32 keys)
            (omega (
              arith,
              len,
              mlen,
              klen,
              length-append secret mac,
              length-take 32 keys,
              length-drop 32 keys,
              length-append (secret ++ mac) (take 32 keys),
            )),
      )

  -- What FinishWithConfirmation answers in a role, from the secret.
  pub derived :
      (secret : List ℕ)
      → (okm : List ℕ) × (c.hkdf none secret confirmation_info 64 ≡ some okm) × (length okm ≡ 64)
  derived secret = known.hkdf_length none secret confirmation_info 64 (omega arith)

  abbrev pub keys_of : List ℕ → List ℕ
  keys_of secret = (derived secret).0

  abbrev pub key_of : Bool → List ℕ → List ℕ
  key_of role secret = if role then drop 32 (keys_of secret) else take 32 (keys_of secret)

  abbrev pub mac_of : Bool → List ℕ → List ℕ → List ℕ
  mac_of role secret transcript = (known.hmac_length (key_of role secret) transcript).0

  abbrev pub payload_from : Bool → List ℕ → List ℕ → List ℕ
  payload_from role secret transcript =
      ((secret ++ mac_of role secret transcript) ++ take 32 (keys_of secret))
      ++ drop 32 (keys_of secret)

  pub payload_from-parts :
      (role : Bool) (secret transcript : List ℕ)
      → length secret ≡ 32
      → let whole = payload_from role secret transcript in
        (part 0 whole ≡ secret)
        × (part 1 whole ≡ mac_of role secret transcript)
        × (part 2 whole ≡ key_of false secret)
        × (part 3 whole ≡ key_of true secret)
  payload_from-parts role secret transcript len =
      let klen : length (keys_of secret) ≡ 64 = (derived secret).2 in
      parts secret (mac_of role secret transcript) (take 32 (keys_of secret))
        (drop 32 (keys_of secret)) len (known.hmac_length (key_of role secret) transcript).2
        (omega (arith, klen, length-take 32 (keys_of secret)))
        (omega (arith, klen, length-drop 32 (keys_of secret)))

  pub finishes :
      (op_id : ℕ) (k : K) (peer transcript my_fp peer_fp : List ℕ) (role : Bool) (secret : List ℕ)
      → c.finish k peer ≡ some secret
      → length secret ≡ 32
      → length my_fp + length peer_fp ≤ 96
      → execute_finish_with_confirmation d c op_id peer transcript my_fp peer_fp role
          (record { spake2_state = some k })
        ≡ (
          ok (record { op_id = op_id; payload = payload_from role secret transcript }),
          record { spake2_state = none },
        )
  finishes op_id k peer transcript my_fp peer_fp role secret hk len fps =
      let keys = derived secret in
      let mac = known.hmac_length (key_of role secret) transcript in
      finish-answers op_id k peer transcript my_fp peer_fp role secret keys.0 mac.0 hk len fps
        keys.1 keys.2 mac.1 mac.2

  -- A confirmation that was made with the key at the end of the context is verified.
  pub verifies :
      (op_id : ℕ) (transcript key mac : List ℕ) (s : RustCryptoCryptoProvider K)
      → length key ≡ 32
      → c.hmac key transcript ≡ some mac
      → length mac ≡ 32
      → execute_verify_confirmation d c op_id (transcript ++ key) mac s
        ≡ (ok (record { op_id = op_id; payload = [] }), s)
  unfolding execute_verify_confirmation ◌>>=◌
  verifies op_id transcript key mac s klen hmac mlen = rw (
    le→leb 32 (length (transcript ++ key)) (omega (arith, klen, length-append transcript key)),
    mlen,
    cut transcript key klen,
    drop-length-append transcript key,
    take-length-append transcript key,
    hmac,
    (laws.ct_eq_iff mac mac).1 refl,
  )
    where
      cut : (xs ys : List ℕ) → length ys ≡ 32 → length (xs ++ ys) - 32 ≡ length xs
      cut xs ys h = omega (arith, h, length-append xs ys)
