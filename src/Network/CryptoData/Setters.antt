-- ===== src/Network/CryptoData/Setters.antt =====
-- The setters, within the capacity and beyond it.
use openscreen_rs.Base.{
  ℕ, ◌≤◌, ◌<◌, ◌≡◌, ◌⊎◌, inl, inr, refl, List, [], length, arith, ok, err, Action, fits_or_not,
  ◌>>=◌, ◌>>◌,
}
use openscreen_rs.Deps.{Deps, Laws}
use openscreen_rs.Network.{NetworkError}
use openscreen_rs.Network.CryptoData.{CryptoData}
use openscreen_rs.Network.StateMachine.Context.Fits.{contents-put, put-put}
use openscreen_rs.Network.CryptoData.Buffers.{
  Buffer, capacity, put, clear, extend, set_psk, set_auth_token, set_my_fingerprint,
  set_peer_fingerprint,
}

-- A setter of a field replaces it where the bytes fit; otherwise it reports BufferFull, and what the
-- field held before is gone.
abbrev pub Replaces :
    (Action CryptoData NetworkError (Unit {0})) → Buffer → ℕ → List ℕ → CryptoData → Type 0
Replaces setter b n bytes c =
    ((length bytes ≤ n) × (setter c ≡ (ok tt, put b bytes c)))
    ⊎ ((n < length bytes) × (setter c ≡ (err NetworkError.buffer_full, put b [] c)))

module _ (d : Deps) (laws : Laws d) (bytes : List ℕ) (c : CryptoData) where
  replaces : (b : Buffer) → Replaces (clear b >> extend d b bytes) b (capacity b) bytes c
  unfolding clear extend ◌>>=◌
  replaces b = elim (fits_or_not (length bytes) (capacity b)) [
    | inl h ↦ inl (
      h,
      rw
          (
            contents-put b [] c,
            laws.heapless.extend_fits (capacity b) [] bytes (omega (arith, h)),
            put-put b bytes [] c,
          )
          refl,
    )
    | inr h ↦ inr (
      h,
      rw
          (
            contents-put b [] c,
            laws.heapless.extend_full (capacity b) [] bytes (omega (arith, h)),
            put-put b [] [] c,
          )
          refl,
    )
  ]

  -- Each of the four setters replaces its field where the bytes fit in its capacity (128 for the PSK,
  -- 64 for the token, 32 for a fingerprint); otherwise it returns BufferFull and leaves the field
  -- empty. It touches no other field.
  pub setters_replace :
      Replaces (set_psk d bytes) Buffer.psk 128 bytes c
      × Replaces (set_auth_token d bytes) Buffer.auth_token 64 bytes c
      × Replaces (set_my_fingerprint d bytes) Buffer.my_fingerprint 32 bytes c
      × Replaces (set_peer_fingerprint d bytes) Buffer.peer_fingerprint 32 bytes c
  unfolding set_psk set_auth_token set_my_fingerprint set_peer_fingerprint
  setters_replace = (
    replaces Buffer.psk,
    replaces Buffer.auth_token,
    replaces Buffer.my_fingerprint,
    replaces Buffer.peer_fingerprint,
  )
