-- ===== src/Network/StateMachine/Spake2/Receives.antt =====
-- One call of `handle` on the handshake message of a peer with the same token.
use openscreen_rs.Base.{
  ℕ, ◌+◌, ◌≤◌, ◌<◌, ◌≡◌, refl, ap, ◌∙◌, Bool, true, false, none, List, [], ◌∷◌, ◌++◌, length,
  is_empty, is_utf8, from_utf8, arith, ok, ◌>>=◌, gets, lift, ensure, pure, if◌then◌else◌, ◌&&◌,
  not,
}
use openscreen_rs.Deps.{Deps, Laws}
use openscreen_rs.Network.{NetworkInput, max_output_queue}
use openscreen_rs.Network.Messages.{Spake2PskStatus}
use openscreen_rs.Network.Messages.Codec.Decode.{decode}
use openscreen_rs.Network.CryptoData.{CryptoData, auth_token_str}
use openscreen_rs.Network.CryptoData.Buffers.{Buffer, put}
use openscreen_rs.Network.StateMachine.Context.{State, Context, Handler, request, request_start}
use openscreen_rs.Network.StateMachine.Context.Fits.{store_fits, push_fits, transcript_fits}
use openscreen_rs.Network.StateMachine.Handlers.{
  AwaitingHandshake.handle as awaiting_handshake_handle, AwaitingHandshake.check_token,
  AwaitingHandshake.match_token, AwaitingHandshake.continue_role,
}
use openscreen_rs.Network.StateMachine.Spake2.{dispatch, handle}
use openscreen_rs.Network.StateMachine.Spake2.Handshake.{token_field, handshake}
use openscreen_rs.Network.StateMachine.Spake2.Steps.{
  finish_request, start_request, answered, finish_fits,
}

module _ (d : Deps) (laws : Laws d) where
  token_accepted :
      (b : Bool) (t : List ℕ) (s : Context)
      → is_utf8 t ≡ true
      → (if b && not (is_empty t)
            then match_token d (if is_empty t then none else from_utf8 t) (token_field t)
            else pure tt)
          s
        ≡ (ok tt, s)
  unfolding match_token from_utf8 ensure pure
  token_accepted false t s valid = refl
  token_accepted true [] s valid = refl
  token_accepted true (x ∷ xs) s valid = rw (valid, (laws.ct_eq_iff (x ∷ xs) (x ∷ xs)).1 refl) refl

  check_token_fits :
      (s : Context)
      → is_utf8 s.crypto.auth_token ≡ true
      → check_token d (token_field s.crypto.auth_token) s ≡ (ok tt, s)
  unfolding check_token auth_token_str gets ◌>>=◌
  check_token_fits s valid = token_accepted s.crypto.is_responder s.crypto.auth_token s valid

  if_initiator :
      {A : Type 0} {b : Bool} (e : Bool) (x y : A) → b ≡ false → (if b && e then x else y) ≡ y
  if_initiator e x y p = rw p refl

  if_responder :
      {A : Type 0} {b : Bool} {t : List ℕ} (x y : A)
      → b ≡ true
      → t ≡ []
      → (if b && is_empty t then x else y) ≡ x
  if_responder x y p q = rw (p, q) refl

  responder_continues :
      (s : Context)
      → s.crypto.is_responder ≡ true
      → s.crypto.spake2_public ≡ []
      → length s.outputs < max_output_queue
      → continue_role d s ≡ (
        ok State.generating_handshake,
        record s { outputs = s.outputs ++ start_request s.crypto ∷ [] },
      )
  unfolding continue_role request_start request gets pure ◌>>=◌
  responder_continues s role fresh room =
      ap (λ (m : Handler State). m s) (if_responder _ _ role fresh)
      ∙ rw (push_fits d laws (start_request s.crypto) s room) refl

  initiator_continues :
      (s : Context)
      → s.crypto.is_responder ≡ false
      → length s.crypto.our_handshake_msg + length s.crypto.peer_handshake_msg ≤ 512
      → length s.outputs < max_output_queue
      → let after =
          put Buffer.transcript
            (s.crypto.our_handshake_msg ++ s.crypto.peer_handshake_msg)
            s.crypto in
        continue_role d s ≡ (
          ok State.computing,
          record { crypto = after; outputs = s.outputs ++ finish_request 3 after ∷ [] },
        )
  unfolding continue_role gets pure ◌>>=◌
  initiator_continues s role fits room =
      let after =
        put Buffer.transcript (s.crypto.our_handshake_msg ++ s.crypto.peer_handshake_msg)
          s.crypto in
      ap (λ (m : Handler State). m s) (if_initiator _ _ _ role)
      ∙ rw
          (
            transcript_fits d laws (λ c. c.our_handshake_msg) (λ c. c.peer_handshake_msg) s fits,
            finish_fits d laws 3 (record s { crypto = after }) room,
          )
          refl

  -- What the handler has done before it looks at the role.
  receives :
      (c : CryptoData) (stream : ℕ) (bytes value : List ℕ) (status : Spake2PskStatus)
      → is_utf8 c.auth_token ≡ true
      → decode d bytes ≡ ok (handshake status c.auth_token value)
      → length bytes ≤ 256
      → length value ≤ 64
      → awaiting_handshake_handle d
          (NetworkInput.data_received stream bytes)
          (record { crypto = c; outputs = [] })
        ≡ continue_role d (record { crypto = answered bytes value c; outputs = [] })
  unfolding awaiting_handshake_handle lift pure ◌>>=◌
  receives c stream bytes value status valid decoded bytes_fit value_fits =
      rw
        (
          decoded,
          check_token_fits (record { crypto = c; outputs = [] }) valid,
          store_fits d laws Buffer.peer_handshake_msg bytes (record { crypto = c; outputs = [] })
              bytes_fit,
          store_fits d laws Buffer.peer_public_temp value
              (record { crypto = put Buffer.peer_handshake_msg bytes c; outputs = [] })
              (omega (arith, value_fits)),
        )
        refl

  pub responder_receives :
      (c : CryptoData) (stream : ℕ) (bytes value : List ℕ) (status : Spake2PskStatus)
      → c.is_responder ≡ true
      → c.spake2_public ≡ []
      → is_utf8 c.auth_token ≡ true
      → decode d bytes ≡ ok (handshake status c.auth_token value)
      → length bytes ≤ 256
      → length value ≤ 64
      → handle d
          (record { state = State.awaiting_handshake; crypto_data = c })
          (NetworkInput.data_received stream bytes)
          []
        ≡ record {
          result = ok tt;
          machine = record {
            state = State.generating_handshake;
            crypto_data = answered bytes value c;
          };
          outputs = start_request c ∷ [];
        }
  unfolding handle dispatch
  responder_receives c stream bytes value status role fresh valid decoded bytes_fit value_fits =
      rw
        (
          receives c stream bytes value status valid decoded bytes_fit value_fits,
          responder_continues (record { crypto = answered bytes value c; outputs = [] }) role fresh
              (omega arith),
        )
        refl

  pub initiator_receives :
      (c : CryptoData) (stream : ℕ) (bytes value : List ℕ) (status : Spake2PskStatus)
      → c.is_responder ≡ false
      → length c.our_handshake_msg ≤ 256
      → is_utf8 c.auth_token ≡ true
      → decode d bytes ≡ ok (handshake status c.auth_token value)
      → length bytes ≤ 256
      → length value ≤ 64
      → let after = put Buffer.transcript (c.our_handshake_msg ++ bytes) (answered bytes value c) in
        handle d
          (record { state = State.awaiting_handshake; crypto_data = c })
          (NetworkInput.data_received stream bytes)
          []
        ≡ record {
          result = ok tt;
          machine = record { state = State.computing; crypto_data = after };
          outputs = finish_request 3 after ∷ [];
        }
  unfolding handle dispatch
  initiator_receives c stream bytes value status role own_fits valid decoded bytes_fit value_fits =
      rw
        (
          receives c stream bytes value status valid decoded bytes_fit value_fits,
          initiator_continues (record { crypto = answered bytes value c; outputs = [] }) role
              (omega (arith, own_fits, bytes_fit)) (omega arith),
        )
        refl
