-- ===== src/Network/StateMachine/Context/Writes.antt =====
-- What the shared steps of the handlers write: buffers other than the configuration, each within its
-- capacity, and outputs while there is room. A property that survives these writes is kept.
use openscreen_rs.Base.{
  fits_or_not, ℕ, suc, ◌+◌, ◌≤◌, ◌<◌, ◌≡◌, refl, inl, inr, Bool, true, false, Option, none, some,
  List, [], ◌∷◌, ◌++◌, arith, length, length-append,
}
use openscreen_rs.Base.Keeps.{Keeps, keeps_rules}
use openscreen_rs.Deps.{Deps, Laws}
use openscreen_rs.Crypto.{CryptoOpKind, CryptoRequest}
use openscreen_rs.Network.{NetworkOutput, max_output_queue}
use openscreen_rs.Network.Messages.{Spake2PskStatus}
use openscreen_rs.Network.Messages.Codec.Bounded.{Stays, extend-Stays, encode-Stays}
use openscreen_rs.Network.CryptoData.{CryptoData}
use openscreen_rs.Network.CryptoData.Buffers.{Buffer, capacity, contents, put, clear, extend}
use openscreen_rs.Network.StateMachine.Context.{
  Context, on_crypto, push_output, store, request, request_start, request_finish, build_transcript,
  push_token, push_token_str, copy_token, encode_own, publish_handshake, build_confirmation_context,
  request_verification,
}

-- The configuration is set before the machine runs.
abbrev pub is_working : Buffer → Bool
is_working Buffer.psk = false
is_working Buffer.auth_token = false
is_working Buffer.my_fingerprint = false
is_working Buffer.peer_fingerprint = false
is_working Buffer.session_keys = false
is_working _ = true

put-contents : (b : Buffer) (c : CryptoData) → put b (contents b c) c ≡ c
put-contents Buffer.psk c = refl
put-contents _ c = refl

-- The SPAKE2 requests.
abbrev pub is_spake2 : CryptoRequest → Bool
is_spake2 request = elim request.kind [ CryptoOpKind.spake2 op ↦ true | _ ↦ false ]

-- The state machine puts out no other crypto request.
abbrev pub is_own : NetworkOutput → Bool
is_own (NetworkOutput.request_crypto request) = is_spake2 request
is_own _ = true

-- A property that survives a write of any working buffer and of any output of these for
-- which there is room.
pub record Survives (I : Context → Type 0) : Type 0 where
  pub on_buffer :
      (b : Buffer) (v : List ℕ) (s : Context)
      → is_working b ≡ true
      → length v ≤ capacity b
      → I s
      → I (record s { crypto = put b v s.crypto })
  pub on_output :
      (o : NetworkOutput) (s : Context)
      → length s.outputs < max_output_queue
      → is_own o ≡ true
      → I s
      → I (record s { outputs = s.outputs ++ o ∷ [] })

push_str-Stays :
    (d : Deps) (laws : Laws d) (n : ℕ) (text more : List ℕ)
    → Stays n text (d.heapless.push_str n text more).1
push_str-Stays d laws n text more = elim (fits_or_not (length text + length more) n) [
  | inl fits ↦
      rw (laws.heapless.push_str_fits n text more fits)
        (inl (omega (arith, length-append text more)))
  | inr full ↦ rw (laws.heapless.push_str_full n text more full) (inr refl)
]

module _ (d : Deps) (laws : Laws d) (I : Context → Type 0) (survives : Survives I) where
  pub clear-Keeps : (b : Buffer) → is_working b ≡ true → Keeps I (on_crypto (clear b))
  unfolding on_crypto clear
  clear-Keeps b w = record { at = λ s h. survives.on_buffer b [] s w (omega arith) h }

  write :
      (b : Buffer) (v : List ℕ) (s : Context)
      → is_working b ≡ true
      → Stays (capacity b) (contents b s.crypto) v
      → I s
      → I (record s { crypto = put b v s.crypto })
  write b v s w (inl fits) h = survives.on_buffer b v s w fits h
  write b v s w (inr same) h = rw (same, put-contents b s.crypto) h

  pub extend-Keeps :
      (b : Buffer) (bytes : List ℕ) → is_working b ≡ true → Keeps I (on_crypto (extend d b bytes))
  unfolding on_crypto extend
  extend-Keeps b bytes w = record {
    at = λ s h.
        write b _ s w
          (extend-Stays d laws _ (contents b s.crypto) (contents b s.crypto) bytes (inr refl)) h;
  }

  pub push_output-Keeps : (o : NetworkOutput) → is_own o ≡ true → Keeps I (push_output d o)
  unfolding push_output
  push_output-Keeps o own = record {
    at = λ s h. elim (fits_or_not (suc (length s.outputs)) max_output_queue) [
      | inl room ↦
          rw (laws.heapless.push_fits _ s.outputs o room) (survives.on_output o s room own h)
      | inr full ↦ rw (laws.heapless.push_full max_output_queue s.outputs o (omega arith)) h
    ];
  }

  push_token-Keeps : (token : List ℕ) → Keeps I (on_crypto (push_token d token))
  unfolding on_crypto push_token
  push_token-Keeps token = record {
    at = λ s h.
        write Buffer.auth_token_temp _ s refl
          (push_str-Stays d laws _ s.crypto.auth_token_temp token) h;
  }

  push_token_str-Keeps : (token : Option (List ℕ)) → Keeps I (push_token_str d token)
  unfolding push_token_str
  push_token_str-Keeps none = search keeps_rules
  push_token_str-Keeps (some token) = push_token-Keeps token

  copy_token-Keeps : Keeps I (copy_token d)
  unfolding copy_token
  copy_token-Keeps = search (keeps_rules, push_token_str-Keeps)

  encode_own-Keeps : (status : Spake2PskStatus) → Keeps I (on_crypto (encode_own d status))
  unfolding on_crypto encode_own
  encode_own-Keeps status = record {
    at = λ s h.
        write Buffer.our_handshake_msg _ s refl ((encode-Stays d laws _ _ _).at _ (inr refl)) h;
  }

  pub store-Keeps : (b : Buffer) (bytes : List ℕ) → is_working b ≡ true → Keeps I (store d b bytes)
  unfolding store
  store-Keeps b bytes w = search (keeps_rules, clear-Keeps, extend-Keeps)

  pub request_start-Keeps : (b : Bool) → Keeps I (request_start d b)
  unfolding request_start request
  request_start-Keeps b = search (keeps_rules, push_output-Keeps)

  pub request_finish-Keeps : (n : ℕ) → Keeps I (request_finish d n)
  unfolding request_finish request
  request_finish-Keeps n = search (keeps_rules, push_output-Keeps)

  pub build_transcript-Keeps :
      (first second : CryptoData → List ℕ) → Keeps I (build_transcript d first second)
  unfolding build_transcript
  build_transcript-Keeps first second = search (keeps_rules, clear-Keeps, extend-Keeps) depth 8

  pub publish_handshake-Keeps :
      (status : Spake2PskStatus) (public_value : List ℕ)
      → Keeps I (publish_handshake d status public_value)
  unfolding publish_handshake
  publish_handshake-Keeps status public_value =
      search
        (
          keeps_rules, store-Keeps, clear-Keeps, copy_token-Keeps, encode_own-Keeps,
          push_output-Keeps,
        )
        depth 10

  pub build_confirmation_context-Keeps : Keeps I (build_confirmation_context d)
  unfolding build_confirmation_context
  build_confirmation_context-Keeps = search (keeps_rules, clear-Keeps, extend-Keeps) depth 8

  pub request_verification-Keeps : Keeps I (request_verification d)
  unfolding request_verification request
  request_verification-Keeps = search (keeps_rules, push_output-Keeps)
