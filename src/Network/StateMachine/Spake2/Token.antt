-- ===== src/Network/StateMachine/Spake2/Token.antt =====
-- The responder lets in only a peer that knows the token it advertises.
use openscreen_rs.Base.{
  ℕ, ◌≡◌, ◌≢◌, refl, ap, ◌∙◌, Bool, true, false, Option, none, some, Bool-cases, inl, inr, ◌⊎◌,
  is_utf8, List, is_empty, arith, Outcome, ok, err, panic, ◌>>=◌, gets, lift, ensure, pure, raise,
  from_utf8, if◌then◌else◌, ◌&&◌, not,
}
use openscreen_rs.Deps.{Deps, Laws}
use openscreen_rs.Common.{MessageError}
use openscreen_rs.Network.{NetworkInput, NetworkOutput, NetworkError}
use openscreen_rs.Network.Messages.{AuthSpake2Handshake, NetworkMessage}
use openscreen_rs.Network.Messages.Codec.Decode.{decode}
use openscreen_rs.Network.CryptoData.{CryptoData, auth_token_str}
use openscreen_rs.Network.StateMachine.Context.{State, Context, Handler}
use openscreen_rs.Network.StateMachine.Handlers.{
  AwaitingHandshake.handle as awaiting_handshake_handle, AwaitingHandshake.check_token,
  AwaitingHandshake.match_token,
}
use openscreen_rs.Network.StateMachine.Spake2.{Handled, dispatch, handle}

auth_token_str_lem : (c : CryptoData) (e : List ℕ) → auth_token_str c ≡ some e → e ≡ c.auth_token
unfolding auth_token_str from_utf8
auth_token_str_lem c e h = pick (is_empty c.auth_token) (is_utf8 c.auth_token) h
  where
    pick :
        (b v : Bool)
        → (if b then none else (if v then some c.auth_token else none)) ≡ some e
        → e ≡ c.auth_token
    pick true v h = cc
    pick false true h = cc
    pick false false h = cc

abbrev is_handshake : Outcome MessageError NetworkMessage → Bool
is_handshake (ok (NetworkMessage.auth_spake2_handshake msg)) = true
is_handshake _ = false

not_ok : {E : Type 0} {r : Outcome E (Unit {0})} {e : E} → r ≡ err e → r ≢ ok tt
not_ok p q = cc

no_panic : {E : Type 0} {r : Outcome E (Unit {0})} → r ≡ panic → r ≢ ok tt
no_panic p q = cc

if_both :
    {A : Type 0} {b e : Bool} (x y : A) → b ≡ true → e ≡ false → (if b && not e then x else y) ≡ x
if_both x y p q = rw (p, q) refl

module _ (d : Deps) (laws : Laws d) where
  match_token-differs :
      (expected : Option (List ℕ)) (received : Option (List ℕ)) (token : List ℕ) (s : Context)
      → ((e : List ℕ) → expected ≡ some e → e ≡ token)
      → received ≢ some token
      → match_token d expected received s ≡ (err NetworkError.authentication_failed, s)
  unfolding match_token raise ensure
  match_token-differs none received token s h differs = refl
  match_token-differs (some e) none token s h differs = refl
  match_token-differs (some e) (some r) token s h differs = elim (Bool-cases (d.ct_eq r e)) [
    | inl same ↦ absurd (differs (ap some ((laws.ct_eq_iff r e).0 same ∙ h e refl)))
    | inr apart ↦ rw apart refl
  ]

  check_token-differs :
      (received : Option (List ℕ)) (s : Context)
      → s.crypto.is_responder ≡ true
      → is_empty s.crypto.auth_token ≡ false
      → received ≢ some s.crypto.auth_token
      → check_token d received s ≡ (err NetworkError.authentication_failed, s)
  unfolding check_token gets ◌>>=◌
  check_token-differs received s role advertised differs =
      ap (λ (m : Handler (Unit {0})). m s) (if_both _ _ role advertised)
      ∙ match_token-differs (auth_token_str s.crypto) received s.crypto.auth_token s
          (auth_token_str_lem s.crypto) differs

  -- In AwaitingHandshake, a responder that advertises a token answers a handshake message with
  -- another token, or with none, with AuthenticationFailed: it stores and sends nothing, and it is
  -- poisoned.
  pub wrong_token :
      (c : CryptoData) (stream : ℕ) (bytes : List ℕ) (outputs : List NetworkOutput)
      (msg : AuthSpake2Handshake)
      → c.is_responder ≡ true
      → is_empty c.auth_token ≡ false
      → decode d bytes ≡ ok (NetworkMessage.auth_spake2_handshake msg)
      → msg.initiation_token.token ≢ some c.auth_token
      → handle d
          (record { state = State.awaiting_handshake; crypto_data = c })
          (NetworkInput.data_received stream bytes)
          outputs
        ≡ record {
          result = err NetworkError.authentication_failed;
          machine = record { state = State.poisoned; crypto_data = c };
          outputs = outputs;
        }
  unfolding handle dispatch awaiting_handshake_handle lift pure ◌>>=◌
  wrong_token c stream bytes outputs msg role advertised decoded differs =
      rw
        (
          decoded,
          check_token-differs msg.initiation_token.token (record { crypto = c; outputs = outputs })
              role advertised differs,
        )
        refl

  apart : (t u : List ℕ) → d.ct_eq t u ≡ false → some t ≢ some u
  apart t u p q =
      let same : t ≡ u = cc in
      let equal : d.ct_eq t u ≡ true = (laws.ct_eq_iff t u).1 same in ground arith

  module _ (c : CryptoData) (stream : ℕ) (bytes : List ℕ) (outputs : List NetworkOutput)
      (role : c.is_responder ≡ true) (advertised : is_empty c.auth_token ≡ false) where
    abbrev answer : Outcome NetworkError (Unit {0})
    answer =
        (handle d (record { state = State.awaiting_handshake; crypto_data = c })
          (NetworkInput.data_received stream bytes) outputs).result

    no_handshake :
        (r : Outcome MessageError NetworkMessage)
        → decode d bytes ≡ r
        → is_handshake r ≡ false
        → answer ≢ ok tt
    unfolding handle dispatch awaiting_handshake_handle lift raise ◌>>=◌
    no_handshake (ok (NetworkMessage.auth_spake2_handshake msg)) p h = cc
    no_handshake (ok _) p h = not_ok {e = NetworkError.decode_failed} (rw p refl)
    no_handshake (err e) p h = not_ok {e = NetworkError.decode_failed} (rw p refl)
    no_handshake panic p h = no_panic (rw p refl)

    same_token :
        (token : Option (List ℕ)) → (token ≡ some c.auth_token) ⊎ (token ≢ some c.auth_token)
    same_token none = inr (λ q. cc)
    same_token (some t) = elim (Bool-cases (d.ct_eq t c.auth_token)) [
      | inl p ↦ inl (ap some ((laws.ct_eq_iff t c.auth_token).0 p))
      | inr p ↦ inr (λ q. apart t c.auth_token p q)
    ]

    knows_token :
        (msg : AuthSpake2Handshake)
        → decode d bytes ≡ ok (NetworkMessage.auth_spake2_handshake msg)
        → answer ≡ ok tt
        → msg.initiation_token.token ≡ some c.auth_token
    knows_token msg p accepted = elim (same_token msg.initiation_token.token) [
      | inl same ↦ same
      | inr differs ↦ absurd (
          not_ok
            (ap (λ (h : Handled). h.result)
              (wrong_token c stream bytes outputs msg role advertised p differs))
            accepted)
    ]

    -- Where a responder in AwaitingHandshake that advertises a token accepts the bytes it receives,
    -- they decode to a handshake message that carries that token.
    pub token_required :
        (handle d
            (record { state = State.awaiting_handshake; crypto_data = c })
            (NetworkInput.data_received stream bytes)
            outputs).result
          ≡ ok tt
        → (msg : AuthSpake2Handshake) × (decode d bytes
            ≡ ok (NetworkMessage.auth_spake2_handshake msg))
          × (msg.initiation_token.token ≡ some c.auth_token)
    token_required accepted = find (decode d bytes) refl
      where
        find :
            (r : Outcome MessageError NetworkMessage)
            → decode d bytes ≡ r
            → (msg : AuthSpake2Handshake) × (decode d bytes
                ≡ ok (NetworkMessage.auth_spake2_handshake msg))
              × (msg.initiation_token.token ≡ some c.auth_token)
        find (ok (NetworkMessage.auth_spake2_handshake msg)) p =
            (msg, p, knows_token msg p accepted)
        find r p = absurd (no_handshake r p refl accepted)
