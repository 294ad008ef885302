-- ===== src/Discovery.antt =====
-- openscreen-discovery/src: what an agent advertises by mDNS, and what a peer reads. A string is the
-- list of its UTF-8 bytes.
pub mod Advertised
pub mod Mdns
use openscreen_rs.Base.{
  ℕ, Bool, true, false, ◌&&◌, ◌||◌, Option, none, some, List, [], ◌∷◌, ◌++◌, length, leb, ◌==◌, ◌≡◌,
  refl, arith, all, Outcome, ok, err, not, if◌then◌else◌,
}

-- [u8; 32]
pub record Array32 : Type 0 where
  pub bytes : List ℕ
  pub size : length bytes ≡ 32

-- The crates hex, base64, x509-parser and sha2, and the standard formatting of a number: the bytes
-- that encoding gives, the bytes that decoding gives if the text is valid, the public key info of a
-- certificate if it can be parsed, and the digest.
pub record Codecs : Type 0 where
  pub hex_encode : List ℕ → List ℕ
  pub base64_encode : List ℕ → List ℕ
  pub base64_decode : List ℕ → Option (List ℕ)
  pub public_key_raw : List ℕ → Option (List ℕ)
  pub sha256 : List ℕ → Array32
  pub display : ℕ → List ℕ

-- auth_token.rs
pub record AuthToken : Type 0 where
  pub text : List ℕ

-- `random` is what the system's generator fills the 16 bytes with.
abbrev pub generate : Codecs → (random : List ℕ) → AuthToken
generate k random = record { text = k.hex_encode random }

abbrev pub from_string : List ℕ → AuthToken
from_string s = record { text = s }

abbrev pub as_str : AuthToken → List ℕ
as_str token = token.text

-- `char::is_ascii_hexdigit`. No byte of a character beyond ASCII is one.
abbrev pub is_ascii_hexdigit : ℕ → Bool
is_ascii_hexdigit b = (leb 48 b && leb b 57) || ((leb 97 b && leb b 102) || (leb 65 b && leb b 70))

abbrev pub validate : AuthToken → Bool
validate token = leb 16 (length token.text) && all is_ascii_hexdigit token.text

-- fingerprint.rs
pub data FingerprintError : Type 0 where
  invalid_certificate invalid_base64 invalid_length : FingerprintError

-- The array of 32 bytes is what the field holds.
pub record Fingerprint : Type 0 where
  pub bytes : List ℕ
  pub size : length bytes ≡ 32

abbrev pub from_bytes : Array32 → Fingerprint
from_bytes array = record { bytes = array.bytes; size = array.size }

abbrev digest_of : Codecs → Option (List ℕ) → Outcome FingerprintError Fingerprint
digest_of k none = err FingerprintError.invalid_certificate
digest_of k (some raw) = ok (from_bytes (k.sha256 raw))

abbrev pub from_der_cert : Codecs → List ℕ → Outcome FingerprintError Fingerprint
from_der_cert k cert_der = digest_of k (k.public_key_raw cert_der)

abbrev pub to_base64 : Codecs → Fingerprint → List ℕ
to_base64 k fingerprint = k.base64_encode fingerprint.bytes

pub ==→≡ : (a b : ℕ) → (a == b) ≡ true → a ≡ b
==→≡ a b h = ground arith

-- The array from the bytes, where the test for their number came out so.
abbrev pub sized :
    (bytes : List ℕ) (b : Bool) → (length bytes == 32) ≡ b → Outcome FingerprintError Fingerprint
sized bytes true h = ok (record { bytes = bytes; size = ==→≡ (length bytes) 32 h })
sized bytes false h = err FingerprintError.invalid_length

abbrev pub checked_length : Option (List ℕ) → Outcome FingerprintError Fingerprint
checked_length none = err FingerprintError.invalid_base64
checked_length (some bytes) = sized bytes (length bytes == 32) refl

unfoldable pub from_base64 : Codecs → List ℕ → Outcome FingerprintError Fingerprint
from_base64 k s = checked_length (k.base64_decode s)

abbrev pub to_hex : Codecs → Fingerprint → List ℕ
to_hex k fingerprint = k.hex_encode fingerprint.bytes

-- service_info.rs
-- An address is its octets, a time the seconds since the epoch.
pub record ServiceInfo : Type 0 where
  pub instance_name : List ℕ
  pub display_name : List ℕ
  pub hostname : List ℕ
  pub ip_address : List ℕ
  pub port : ℕ
  pub fingerprint : Fingerprint
  pub metadata_version : ℕ
  pub auth_token : AuthToken
  pub discovered_at : ℕ

pub record PublishInfo : Type 0 where
  pub display_name : List ℕ
  pub port : ℕ
  pub fingerprint : Fingerprint
  pub metadata_version : ℕ
  pub auth_token : AuthToken
  pub hostname : List ℕ

pub record TxtRecords : Type 0 where
  pub fp : List ℕ
  pub mv : ℕ
  pub at : List ℕ

abbrev pub from_publish_info : Codecs → PublishInfo → TxtRecords
from_publish_info k info = record {
  fp = to_base64 k info.fingerprint;
  mv = info.metadata_version;
  at = as_str info.auth_token;
}

-- "fp=", "mv=" and "at=" in front of the values.
abbrev pub to_strings : Codecs → TxtRecords → List (List ℕ)
to_strings k txt =
    (102 ∷ 112 ∷ 61 ∷ txt.fp) ∷ (109 ∷ 118 ∷ 61 ∷ k.display txt.mv) ∷ (97 ∷ 116 ∷ 61 ∷ txt.at) ∷ []
