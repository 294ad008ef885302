-- ===== src/Discovery/Advertised.antt =====
-- What is advertised is what the authentication layer is configured with.
use native.Mathlib.Nat.{ℕ_set}
use openscreen_rs.Base.{
  ap, ℕ, ◌*◌, ◌≤◌, ◌≡◌, refl, Bool, true, false, some, List, [], ◌∷◌, length, leb, ltb, ◌==◌, all,
  ok, is_empty, arith, is_utf8-ascii, from_utf8, and-first, and-second, ◌>>=◌,
}
use openscreen_rs.Deps.{Deps, Laws}
use openscreen_rs.Network.CryptoData.{CryptoData, auth_token_str}
use openscreen_rs.Network.CryptoData.Buffers.{Buffer, put, clear, set_auth_token}
use openscreen_rs.Network.StateMachine.Context.Fits.{extend_fits}
use openscreen_rs.Discovery.{
  Codecs, AuthToken, PublishInfo, Fingerprint, validate, from_base64, sized, from_publish_info,
  is_ascii_hexdigit,
}

-- The documented behaviour of hex and base64.
pub record CodecsLaws (k : Codecs) : Type 0 where
  pub hex_length : (bytes : List ℕ) → length (k.hex_encode bytes) ≡ 2 * length bytes
  pub hex_digits : (bytes : List ℕ) → all is_ascii_hexdigit (k.hex_encode bytes) ≡ true
  pub base64_back : (bytes : List ℕ) → k.base64_decode (k.base64_encode bytes) ≡ some bytes

hexdigit-ascii : (b : ℕ) → is_ascii_hexdigit b ≡ true → ltb b 0x80 ≡ true
hexdigit-ascii b h = ground arith

digits-ascii : (bs : List ℕ) → all is_ascii_hexdigit bs ≡ true → all (λ b. ltb b 0x80) bs ≡ true
digits-ascii [] h = refl
digits-ascii (b ∷ bs) h =
    rw
      (
        hexdigit-ascii b (and-first (is_ascii_hexdigit b) (all is_ascii_hexdigit bs) h),
        digits-ascii bs (and-second (is_ascii_hexdigit b) (all is_ascii_hexdigit bs) h),
      )
      refl

not_empty : (bs : List ℕ) → leb 16 (length bs) ≡ true → is_empty bs ≡ false
not_empty [] h = ground arith
not_empty (b ∷ bs) h = refl

module _ (d : Deps) (laws : Laws d) where
  -- A token that `validate` accepts and that has at most 64 bytes is accepted by `set_auth_token`,
  -- and is then the token that the responder compares with, and not the empty one, which would switch
  -- the comparison off.
  pub set_auth_token-validate :
      (token : AuthToken) (c : CryptoData)
      → validate token ≡ true
      → length token.text ≤ 64
      → let after = set_auth_token d token.text c in
        (after.0 ≡ ok tt)
        × (auth_token_str after.1 ≡ some token.text)
        × (is_empty after.1.auth_token ≡ false)
  unfolding set_auth_token clear auth_token_str from_utf8 ◌>>=◌
  set_auth_token-validate token c valid fits =
      let e =
        extend_fits d laws Buffer.auth_token token.text (put Buffer.auth_token [] c)
          (omega (arith, fits)) in
      let some_bytes = not_empty token.text (and-first _ _ valid) in
      let text = is_utf8-ascii token.text (digits-ascii token.text (and-second _ _ valid)) in
      (rw e refl, rw (e, some_bytes, text) refl, rw (e, some_bytes) refl)

sized_lem : (f : Fingerprint) (b : Bool) (h : (length f.bytes == 32) ≡ b) → sized f.bytes b h ≡ ok f
sized_lem f true h =
    ap (λ size. ok (record { bytes = f.bytes; size = size })) (ℕ_set (length f.bytes) 32 _ f.size)
sized_lem f false h = let n : length f.bytes ≡ 32 = f.size in absurd (ground arith)

module _ (k : Codecs) (klaws : CodecsLaws k) where
  -- The fingerprint that a peer decodes from the TXT records of an agent is the one published.
  pub from_base64-from_publish_info :
      (info : PublishInfo) → from_base64 k (from_publish_info k info).fp ≡ ok info.fingerprint
  unfolding from_base64
  from_base64-from_publish_info info =
      rw (klaws.base64_back info.fingerprint.bytes) (sized_lem info.fingerprint _ refl)
