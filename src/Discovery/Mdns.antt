-- ===== src/Discovery/Mdns.antt =====
-- openscreen-discovery-mdns/src/utils.rs: names, TXT properties, and what a resolved service says.
pub mod Properties
use openscreen_rs.Base.{
  ℕ, ◌^◌, Bool, true, false, ◌&&◌, Option, none, some, List, [], ◌∷◌, ◌++◌, length, take, drop, leb,
  ltb, ◌==◌, not, Outcome, ok, err, panic, if◌then◌else◌, map_err,
}
use openscreen_rs.Deps.{VarInt}
use openscreen_rs.Discovery.{
  Codecs, AuthToken, Fingerprint, FingerprintError, ServiceInfo, TxtRecords, from_base64,
  from_string,
}

-- The crate mdns-sd: the properties of a service by their key, a property's value as bytes and as text,
-- the property of a key and a value, the properties that a service with a list of them is resolved
-- with, and the addresses. `parse_ip` is the parser of core::net.
pub record MdnsSd (P Q A : Type 0) : Type 0 where
  pub get : (key : List ℕ) → Q → Option P
  pub val : P → Option (List ℕ)
  pub val_str : P → List ℕ
  pub property : (key value : List ℕ) → P
  pub resolved : List P → Q
  pub is_ipv4 : A → Bool
  pub is_ipv6 : A → Bool
  pub to_string : A → List ℕ
  pub parse_ip : List ℕ → Option (List ℕ)

pub record ResolvedService (Q A : Type 0) : Type 0 where
  pub properties : Q
  pub addresses : List A
  pub fullname : List ℕ
  pub hostname : List ℕ
  pub port : ℕ

pub data ParseError : Type 0 where
  missing_field : (key : List ℕ) → ParseError
  invalid_fingerprint : FingerprintError → ParseError
  invalid_metadata_version no_address : ParseError

-- Whether a text may be cut in front of these bytes.
abbrev pub at_boundary : List ℕ → Bool
at_boundary [] = true
at_boundary (b ∷ bytes) = not (leb 128 b && ltb b 192)

-- The slice panics inside a character.
unfoldable pub sanitize_instance_name : List ℕ → Outcome ParseError (List ℕ)
sanitize_instance_name display_name =
    if ltb 63 (length display_name)
    then (if at_boundary (drop 63 display_name) then ok (take 63 display_name ++ 0 ∷ []) else panic)
    else ok display_name

-- Up to the first such byte.
abbrev pub before_byte : ℕ → List ℕ → List ℕ
before_byte stop [] = []
before_byte stop (b ∷ bytes) =
    let rest = before_byte stop bytes in if b == stop then [] else b ∷ rest

-- `split('.').next()`
abbrev pub extract_display_name : List ℕ → List ℕ
extract_display_name full_name = before_byte 46 full_name

-- `trim_end_matches('.')`
abbrev pub prepend_trimmed : ℕ → List ℕ → List ℕ
prepend_trimmed b [] = if b == 46 then [] else b ∷ []
prepend_trimmed b (c ∷ rest) = b ∷ c ∷ rest

abbrev pub trim_end_dots : List ℕ → List ℕ
trim_end_dots [] = []
trim_end_dots (b ∷ bytes) = prepend_trimmed b (trim_end_dots bytes)

-- "fp", "mv", "at" and "fe80:"
abbrev pub key_fp : List ℕ
key_fp = 102 ∷ 112 ∷ []

abbrev pub key_mv : List ℕ
key_mv = 109 ∷ 118 ∷ []

abbrev pub key_at : List ℕ
key_at = 97 ∷ 116 ∷ []

abbrev pub starts_with : List ℕ → List ℕ → Bool
starts_with [] bytes = true
starts_with (x ∷ prefix) [] = false
starts_with (x ∷ prefix) (b ∷ bytes) = b == x && starts_with prefix bytes

abbrev pub is_link_local : List ℕ → Bool
is_link_local text = starts_with (102 ∷ 101 ∷ 56 ∷ 48 ∷ 58 ∷ []) text

-- `ok_or` and `map_err(…)?`, and `?` on a result.
abbrev pub ok_or : {A : Type 0} → ParseError → Option A → Outcome ParseError A
ok_or e none = err e
ok_or e (some a) = ok a

abbrev pub and_then :
    {A B : Type 0} → Outcome ParseError A → (A → Outcome ParseError B) → Outcome ParseError B
and_then (ok a) f = f a
and_then (err e) f = err e
and_then panic f = panic

abbrev pub fingerprint_error : Outcome FingerprintError Fingerprint → Outcome ParseError Fingerprint
fingerprint_error (ok fingerprint) = ok fingerprint
fingerprint_error (err e) = err (ParseError.invalid_fingerprint e)
fingerprint_error panic = panic

-- `u32::try_from` on what is read
abbrev pub metadata_version_of : Option (ℕ × List ℕ) → Outcome ParseError ℕ
metadata_version_of none = err ParseError.invalid_metadata_version
metadata_version_of (some (value, rest)) =
    if ltb value (2 ^ 32) then ok value else err ParseError.invalid_metadata_version

-- `find(p).or_else(…)`
abbrev pub first_that : {A : Type 0} → (A → Bool) → List A → Option A → Option A
first_that p [] otherwise = otherwise
first_that p (a ∷ more) otherwise =
    let rest = first_that p more otherwise in if p a then some a else rest

abbrev pub any_of : {A : Type 0} → List A → Option A
any_of [] = none
any_of (a ∷ more) = some a

module _ (v : VarInt) (k : Codecs) {P Q A : Type 0} (m : MdnsSd P Q A) where
  unfoldable pub build_txt_properties : TxtRecords → List P
  build_txt_properties txt =
      m.property key_fp txt.fp ∷ m.property key_mv (v.encode txt.mv) ∷ m.property key_at txt.at ∷ []

  unfoldable pub parse_txt_properties : Q → Outcome ParseError (Fingerprint × ℕ × List ℕ)
  parse_txt_properties properties =
      and_then (ok_or (ParseError.missing_field key_fp) (m.get key_fp properties)) (λ fp.
        and_then (fingerprint_error (from_base64 k (m.val_str fp))) (λ fingerprint.
          and_then (ok_or (ParseError.missing_field key_mv) (m.get key_mv properties)) (λ mv.
            and_then (ok_or ParseError.invalid_metadata_version (m.val mv)) (λ mv_bytes.
              and_then (metadata_version_of (v.decode mv_bytes)) (λ metadata_version.
                and_then (ok_or (ParseError.missing_field key_at) (m.get key_at properties))
                  (λ at. ok (fingerprint, metadata_version, m.val_str at)))))))

  unfoldable pub scoped_ip_to_ip_addr : A → Outcome ParseError (List ℕ)
  scoped_ip_to_ip_addr host =
      ok_or ParseError.no_address (m.parse_ip (before_byte 37 (m.to_string host)))

  unfoldable pub choose_address : List A → Option A
  choose_address addresses = first_that m.is_ipv4 addresses (
      first_that (λ a. m.is_ipv6 a && not (is_link_local (m.to_string a))) addresses
        (any_of addresses))

  -- `now` is what the clock says.
  unfoldable pub service_info_from_mdns :
      (now : ℕ) → ResolvedService Q A → Outcome ParseError ServiceInfo
  service_info_from_mdns now info = and_then (parse_txt_properties info.properties) (λ txt.
      and_then (ok_or ParseError.no_address (choose_address info.addresses)) (λ host.
        and_then (scoped_ip_to_ip_addr host) (λ ip_address. ok (record {
          instance_name = info.fullname;
          display_name = extract_display_name info.fullname;
          hostname = trim_end_dots info.hostname;
          ip_address = ip_address;
          port = info.port;
          fingerprint = txt.0;
          metadata_version = txt.1;
          auth_token = from_string txt.2;
          discovered_at = now;
        }))))
