-- ===== src/Examples/Browsing.antt =====
-- A service that is resolved by mDNS, with a small version of the crate mdns-sd.
use openscreen_rs.Base.{
  ℕ, ap, map, ◌≡◌, refl, Bool, false, Option, none, some, List, [], ◌∷◌, ◌++◌, replicate, arith, ok,
  panic, not, ◌||◌, is_utf8,
}
use openscreen_rs.Discovery.{from_publish_info, ServiceInfo}
use openscreen_rs.Discovery.Mdns.{
  MdnsSd, ResolvedService, sanitize_instance_name, build_txt_properties, scoped_ip_to_ip_addr,
  choose_address, service_info_from_mdns, starts_with,
}
use openscreen_rs.Discovery.Mdns.Properties.{
  MdnsSdLaws, first_named, property_of, service_info_from_mdns-build,
}
use openscreen_rs.Examples.Advertising.{codecs, codecs-CodecsLaws, info, fingerprint, token}
use openscreen_rs.Examples.Crates.{crates, crates-Laws}

abbrev Property : Type 0
Property = List ℕ × List ℕ

map_same : (entries : List Property) → map (λ e. (e.0, e.1)) entries ≡ entries
map_same [] = refl
map_same (entry ∷ entries) = ap (λ more. entry ∷ more) (map_same entries)

-- An address is its text, and its own octets; one with a dot is IPv4.
abbrev has_dot : List ℕ → Bool
has_dot [] = false
has_dot (b ∷ bytes) = starts_with (46 ∷ []) (b ∷ bytes) || has_dot bytes

abbrev mdns : MdnsSd Property (List Property) (List ℕ)
mdns = record {
  get = first_named;
  val = λ p. some p.1;
  val_str = λ p. p.1;
  property = λ key value. (key, value);
  resolved = λ properties. properties;
  is_ipv4 = has_dot;
  is_ipv6 = λ a. not (has_dot a);
  to_string = λ a. a;
  parse_ip = λ text. some text;
}

found_same : (o : Option Property) → o ≡ property_of mdns o
found_same none = refl
found_same (some (key, value)) = refl

mdns-MdnsSdLaws : MdnsSdLaws mdns
mdns-MdnsSdLaws = record {
  get_resolved = λ key entries listed. rw (map_same entries) (found_same (first_named key entries));
  val_property = λ key value. refl;
  val_str_property = λ key value valid. refl;
}

-- 62 letters, then é, which begins at byte 62.
abbrev long_name : List ℕ
long_name = replicate 62 65 ++ 195 ∷ 169 ∷ []

-- The cut is inside that character.
cut_in_character : sanitize_instance_name long_name ≡ panic
unfolding sanitize_instance_name
cut_in_character = refl

-- The address fe80::1 with a zone, and 10.0.0.1: the IPv4 address is taken, and without it the zone
-- is cut off.
abbrev link_local : List ℕ
link_local = 102 ∷ 101 ∷ 56 ∷ 48 ∷ 58 ∷ 58 ∷ 49 ∷ 37 ∷ 101 ∷ 110 ∷ []

abbrev ipv4 : List ℕ
ipv4 = 49 ∷ 48 ∷ 46 ∷ 48 ∷ 46 ∷ 48 ∷ 46 ∷ 49 ∷ []

prefers_ipv4 : choose_address crates.varint codecs mdns (link_local ∷ ipv4 ∷ []) ≡ some ipv4
unfolding choose_address
prefers_ipv4 = refl

zone_cut :
    scoped_ip_to_ip_addr crates.varint codecs mdns link_local
    ≡ ok (102 ∷ 101 ∷ 56 ∷ 48 ∷ 58 ∷ 58 ∷ 49 ∷ [])
unfolding scoped_ip_to_ip_addr
zone_cut = refl

abbrev service : ResolvedService (List Property) (List ℕ)
service = record {
  properties = build_txt_properties crates.varint codecs mdns (from_publish_info codecs info);
  addresses = link_local ∷ ipv4 ∷ [];
  fullname = 84 ∷ 86 ∷ 46 ∷ 95 ∷ [];
  hostname = 116 ∷ 118 ∷ 46 ∷ [];
  port = 4433;
}

abbrev found : ServiceInfo
found = record {
  instance_name = 84 ∷ 86 ∷ 46 ∷ 95 ∷ [];
  display_name = 84 ∷ 86 ∷ [];
  hostname = 116 ∷ 118 ∷ [];
  ip_address = ipv4;
  port = 4433;
  fingerprint = fingerprint;
  metadata_version = 1;
  auth_token = token;
  discovered_at = 5;
}

service_info_from_mdns-build_example :
    service_info_from_mdns crates.varint codecs mdns 5 service ≡ ok found
unfolding is_utf8 choose_address scoped_ip_to_ip_addr
service_info_from_mdns-build_example =
    service_info_from_mdns-build crates.varint crates-Laws.varint codecs codecs-CodecsLaws mdns
      mdns-MdnsSdLaws info 5 service ipv4 ipv4 (omega arith) refl (omega arith) refl (omega arith)
      refl refl refl
