-- ===== src/Discovery/Mdns/Properties.antt =====
-- What a peer reads of the TXT properties is what was advertised.
use openscreen_rs.Base.{
  ℕ, ◌+◌, ◌^◌, ◌<◌, ◌≤◌, ◌≡◌, ◌∙◌, ap, sym, refl, Bool, true, false, ◌&&◌, not, Option, none, some,
  List, [], ◌∷◌, map, append-nil, length, all, Each, leb, ◌==◌, if◌then◌else◌, lt→ltb, arith,
  is_utf8, ok,
}
use openscreen_rs.Deps.{VarInt, VarIntLaws}
use openscreen_rs.Discovery.{Codecs, PublishInfo, from_publish_info}
use openscreen_rs.Discovery.Advertised.{CodecsLaws, from_base64-from_publish_info}
use openscreen_rs.Discovery.Mdns.{
  MdnsSd, key_fp, key_mv, key_at, build_txt_properties, parse_txt_properties, ResolvedService,
  choose_address, scoped_ip_to_ip_addr, service_info_from_mdns, extract_display_name, trim_end_dots,
}

-- A TXT entry is `key=value`: the key has bytes of printable ASCII other than `=`, and all of it takes
-- at most 255 bytes.
abbrev pub is_key_byte : ℕ → Bool
is_key_byte b = leb 32 b && (leb b 126 && not (b == 61))

abbrev pub IsEntry : List ℕ × List ℕ → Type 0
IsEntry (key, value) =
    (0 < length key) × (all is_key_byte key ≡ true) × (length key + (1 + length value) ≤ 255)

-- Keys are compared without regard to the case of ASCII letters, and the first entry counts.
abbrev pub lower : ℕ → ℕ
lower b = if leb 65 b && leb b 90 then b + 32 else b

abbrev pub same_key : List ℕ → List ℕ → Bool
same_key [] [] = true
same_key (x ∷ xs) (y ∷ ys) = lower x == lower y && same_key xs ys
same_key _ _ = false

abbrev pub first_named : List ℕ → List (List ℕ × List ℕ) → Option (List ℕ × List ℕ)
first_named key [] = none
first_named key (entry ∷ entries) =
    let rest = first_named key entries in if same_key entry.0 key then some entry else rest

-- The property of an entry that was found.
abbrev pub property_of : {P Q A : Type 0} → MdnsSd P Q A → Option (List ℕ × List ℕ) → Option P
property_of m none = none
property_of m (some (key, value)) = some (m.property key value)

-- A service is resolved with the properties that it was registered with, and a value is read as
-- bytes, or as text where it is UTF-8.
pub record MdnsSdLaws {P Q A : Type 0} (m : MdnsSd P Q A) : Type 0 where
  pub get_resolved :
      (key : List ℕ) (entries : List (List ℕ × List ℕ))
      → Each IsEntry entries
      → m.get key (m.resolved (map (λ e. m.property e.0 e.1) entries))
        ≡ property_of m (first_named key entries)
  pub val_property : (key value : List ℕ) → m.val (m.property key value) ≡ some value
  pub val_str_property :
      (key value : List ℕ) → is_utf8 value ≡ true → m.val_str (m.property key value) ≡ value

module _ (v : VarInt) (vlaws : VarIntLaws v) (k : Codecs) (klaws : CodecsLaws k) {P Q A : Type 0}
    (m : MdnsSd P Q A) (mlaws : MdnsSdLaws m) where
  pub parse_txt_properties-build :
      (info : PublishInfo)
      → info.metadata_version < 2 ^ 30
      → is_utf8 (from_publish_info k info).fp ≡ true
      → length (from_publish_info k info).fp ≤ 252
      → is_utf8 info.auth_token.text ≡ true
      → length info.auth_token.text ≤ 252
      → parse_txt_properties v k m
          (m.resolved (build_txt_properties v k m (from_publish_info k info)))
        ≡ ok (info.fingerprint, info.metadata_version, info.auth_token.text)
  unfolding build_txt_properties parse_txt_properties
  parse_txt_properties-build info small text text_fits token token_fits =
      let mv = info.metadata_version in
      let fp = (from_publish_info k info).fp in
      let at = info.auth_token.text in
      let entries : List (List ℕ × List ℕ) =
        (key_fp, fp) ∷ (key_mv, v.encode mv) ∷ (key_at, at) ∷ [] in
      let size : length (v.encode mv) ≤ 4 =
        omega (arith, vlaws.encode_size mv small, vlaws.size_bound mv small) in
      let listed : Each IsEntry entries = (
        (omega arith, refl, omega (arith, text_fits)),
        (
          (omega arith, refl, omega (arith, size)),
          ((omega arith, refl, omega (arith, token_fits)), tt),
        ),
      ) in
      let read : v.decode (v.encode mv) ≡ some (mv, []) =
        ap v.decode (sym (append-nil (v.encode mv))) ∙ vlaws.decode_encode mv [] small in
      rw
        (
          mlaws.get_resolved key_fp entries listed,
          mlaws.val_str_property key_fp fp text,
          from_base64-from_publish_info k klaws info,
          mlaws.get_resolved key_mv entries listed,
          mlaws.val_property key_mv (v.encode mv),
          read,
          lt→ltb mv (2 ^ 32) (omega (arith, small)),
          mlaws.get_resolved key_at entries listed,
          mlaws.val_str_property key_at at token,
        )
        refl

  -- A resolved service with the TXT properties of an advertised one, whose chosen address can be
  -- parsed, gives a service with that address, the name, host and port it was resolved with, and the
  -- fingerprint, the metadata version and the token that were advertised. The version is below 2^30,
  -- and the texts are UTF-8 of at most 252 bytes, as a TXT entry of 255 bytes takes them.
  pub service_info_from_mdns-build :
      (info : PublishInfo) (now : ℕ) (service : ResolvedService Q A) (host : A) (ip : List ℕ)
      → info.metadata_version < 2 ^ 30
      → is_utf8 (from_publish_info k info).fp ≡ true
      → length (from_publish_info k info).fp ≤ 252
      → is_utf8 info.auth_token.text ≡ true
      → length info.auth_token.text ≤ 252
      → service.properties ≡ m.resolved (build_txt_properties v k m (from_publish_info k info))
      → choose_address v k m service.addresses ≡ some host
      → scoped_ip_to_ip_addr v k m host ≡ ok ip
      → service_info_from_mdns v k m now service
        ≡ ok (record {
          instance_name = service.fullname;
          display_name = extract_display_name service.fullname;
          hostname = trim_end_dots service.hostname;
          ip_address = ip;
          port = service.port;
          fingerprint = info.fingerprint;
          metadata_version = info.metadata_version;
          auth_token = info.auth_token;
          discovered_at = now;
        })
  unfolding service_info_from_mdns
  service_info_from_mdns-build info now service host ip small text text_fits token token_fits
        carried chosen parsed =
      rw
        (
          carried,
          parse_txt_properties-build info small text text_fits token token_fits,
          chosen,
          parsed,
        )
        refl
