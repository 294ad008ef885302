-- ===== src/Examples/Advertising.antt =====
-- What an agent advertises, and the mock provider.
use openscreen_rs.Base.{
  ℕ, ◌+◌, ◌*◌, ◌/◌, ◌%◌, ◌<◌, ◌≡◌, refl, true, false, some, List, [], ◌∷◌, length, all, replicate,
  ltb, arith, ok, is_empty, if◌then◌else◌,
}
use openscreen_rs.Network.CryptoData.{new as new_data, auth_token_str}
use openscreen_rs.Network.CryptoData.Buffers.{set_auth_token}
use openscreen_rs.Discovery.{
  Codecs, AuthToken, PublishInfo, Fingerprint, generate, from_base64, from_publish_info,
  is_ascii_hexdigit,
}
use openscreen_rs.Discovery.Advertised.{
  CodecsLaws, set_auth_token-validate, from_base64-from_publish_info,
}
use openscreen_rs.Examples.Crates.{crates, crates-Laws}

abbrev digit : ℕ → ℕ
digit n = if ltb n 10 then 48 + n else 87 + n

abbrev hex : List ℕ → List ℕ
hex [] = []
hex (b ∷ bytes) = digit (b / 16 % 16) ∷ digit (b % 16) ∷ hex bytes

hex_length_lem : (bytes : List ℕ) → length (hex bytes) ≡ 2 * length bytes
hex_length_lem [] = refl
hex_length_lem (b ∷ bytes) = omega (arith, hex_length_lem bytes)

digit_lem : (n : ℕ) → n < 16 → is_ascii_hexdigit (digit n) ≡ true
digit_lem n h = ground arith

hex_digits_lem : (bytes : List ℕ) → all is_ascii_hexdigit (hex bytes) ≡ true
hex_digits_lem [] = refl
hex_digits_lem (b ∷ bytes) =
    rw
      (
        digit_lem (b / 16 % 16) (omega arith),
        digit_lem (b % 16) (omega arith),
        hex_digits_lem bytes,
      )
      refl

-- Text is taken for its own encoding, and a certificate for its own key.
abbrev pub codecs : Codecs
codecs = record {
  hex_encode = hex;
  base64_encode = λ bytes. bytes;
  base64_decode = λ text. some text;
  public_key_raw = λ cert. some cert;
  sha256 = λ bytes. record { bytes = replicate 32 0; size = refl };
  display = λ n. (48 + n % 10) ∷ [];
}

pub codecs-CodecsLaws : CodecsLaws codecs
codecs-CodecsLaws = record {
  hex_length = hex_length_lem;
  hex_digits = hex_digits_lem;
  base64_back = λ bytes. refl;
}

abbrev random : List ℕ
random = replicate 16 171

abbrev pub token : AuthToken
token = generate codecs random

abbrev pub fingerprint : Fingerprint
fingerprint = record { bytes = replicate 32 42; size = refl }

abbrev pub info : PublishInfo
info = record {
  display_name = 84 ∷ 86 ∷ [];
  port = 4433;
  fingerprint = fingerprint;
  metadata_version = 1;
  auth_token = token;
  hostname = 116 ∷ 118 ∷ [];
}

set_auth_token-validate_example :
    let after = set_auth_token crates token.text new_data in
    (after.0 ≡ ok tt)
    × (auth_token_str after.1 ≡ some token.text)
    × (is_empty after.1.auth_token ≡ false)
set_auth_token-validate_example =
    set_auth_token-validate crates crates-Laws token new_data refl (omega arith)

from_base64-from_publish_info_example :
    from_base64 codecs (from_publish_info codecs info).fp ≡ ok fingerprint
from_base64-from_publish_info_example = from_base64-from_publish_info codecs codecs-CodecsLaws info
