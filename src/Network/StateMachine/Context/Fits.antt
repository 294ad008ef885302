-- ===== src/Network/StateMachine/Context/Fits.antt =====
-- What the shared steps write where the buffers and the queue have room.
use openscreen_rs.Base.{
  ℕ, ◌+◌, ◌≤◌, ◌<◌, ◌≡◌, refl, List, [], ◌∷◌, ◌++◌, length, arith, ok, ◌>>=◌, gets,
}
use openscreen_rs.Deps.{Deps, Laws}
use openscreen_rs.Crypto.{CryptoOpKind, Spake2Operation}
use openscreen_rs.Network.{NetworkOutput, max_output_queue}
use openscreen_rs.Network.CryptoData.{CryptoData}
use openscreen_rs.Network.CryptoData.Buffers.{Buffer, capacity, contents, put, clear, extend}
use openscreen_rs.Network.StateMachine.Context.{
  Context, on_crypto, push_output, store, request, build_transcript, build_confirmation_context,
  peer_key, request_verification,
}

pub put-put : (b : Buffer) (v w : List ℕ) (c : CryptoData) → put b v (put b w c) ≡ put b v c
put-put Buffer.psk v w c = refl
put-put _ v w c = refl

pub contents-put : (b : Buffer) (v : List ℕ) (c : CryptoData) → contents b (put b v c) ≡ v
contents-put Buffer.psk v c = refl
contents-put _ v c = refl

module _ (d : Deps) (laws : Laws d) where
  pub extend_fits :
      (b : Buffer) (bytes : List ℕ) (c : CryptoData)
      → length (contents b c) + length bytes ≤ capacity b
      → extend d b bytes c ≡ (ok tt, put b (contents b c ++ bytes) c)
  unfolding extend
  extend_fits b bytes c h = rw (laws.heapless.extend_fits (capacity b) (contents b c) bytes h) refl

  pub store_fits :
      (b : Buffer) (bytes : List ℕ) (s : Context)
      → length bytes ≤ capacity b
      → store d b bytes s ≡ (ok tt, record s { crypto = put b bytes s.crypto })
  unfolding store on_crypto clear ◌>>=◌
  store_fits b bytes s h =
      rw
        (
          extend_fits b bytes (put b [] s.crypto)
              (rw (contents-put b [] s.crypto) (omega (arith, h))),
          contents-put b [] s.crypto,
          put-put b bytes [] s.crypto,
        )
        refl

  pub push_fits :
      (o : NetworkOutput) (s : Context)
      → length s.outputs < max_output_queue
      → push_output d o s ≡ (ok tt, record s { outputs = s.outputs ++ o ∷ [] })
  unfolding push_output
  push_fits o s h = rw (laws.heapless.push_fits max_output_queue s.outputs o h) refl

  pub context_fits :
      (s : Context)
      → length s.crypto.transcript + length (peer_key s.crypto) ≤ 544
      → build_confirmation_context d s ≡ (
        ok tt,
        record s {
          crypto =
              put Buffer.confirmation_context (s.crypto.transcript ++ peer_key s.crypto) s.crypto;
        },
      )
  unfolding build_confirmation_context on_crypto clear gets ◌>>=◌
  context_fits s h =
      let c = put Buffer.confirmation_context [] s.crypto in
      let c' = put Buffer.confirmation_context s.crypto.transcript s.crypto in
      rw
        (
          extend_fits Buffer.confirmation_context s.crypto.transcript c (omega (arith, h)),
          extend_fits Buffer.confirmation_context (peer_key s.crypto) c' h,
        )
        refl

  pub transcript_fits :
      (first second : CryptoData → List ℕ) (s : Context)
      → let empty = put Buffer.transcript [] s.crypto in
        let half = put Buffer.transcript (first empty) s.crypto in
        length (first empty) + length (second half) ≤ 512
        → build_transcript d first second s ≡ (
          ok tt,
          record s { crypto = put Buffer.transcript (first empty ++ second half) s.crypto },
        )
  unfolding build_transcript on_crypto clear gets ◌>>=◌
  transcript_fits first second s h =
      let empty = put Buffer.transcript [] s.crypto in
      let half = put Buffer.transcript (first empty) s.crypto in
      rw
        (
          extend_fits Buffer.transcript (first empty) empty (omega (arith, h)),
          extend_fits Buffer.transcript (second half) half h,
        )
        refl

  pub verification_fits :
      (s : Context)
      → length s.outputs < max_output_queue
      → request_verification d s ≡ (
        ok tt,
        record s {
          outputs =
              s.outputs
              ++ NetworkOutput.request_crypto (record {
                op_id = 4;
                kind = CryptoOpKind.spake2 (
                    Spake2Operation.verify_confirmation s.crypto.confirmation_context
                      s.crypto.peer_confirmation_temp);
              })
                ∷ [];
        },
      )
  unfolding request_verification request gets ◌>>=◌
  verification_fits s h = rw (push_fits _ s h) refl
