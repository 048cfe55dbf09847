-- ===== src/Config/Init/Stored.antt =====
-- A first configuration can be stored (src/dpdChatFabric/cfConfig.c).
use dpd_chat_fabric.Prelude.{
  ℕ, ◌/◌, ◌%◌, ◌++◌, ◌∷◌, take, replicate, ◌-◌, ◌^◌, ◌≤◌, ◌<◌, ◌≡◌, refl, Option, none, some, List,
  [], length, length-append, calloc, length-calloc, ok, ◌>>=◌, write_at, arith,
}
use dpd_chat_fabric.Types.Structs.{Config}
use dpd_chat_fabric.Crypto.{Crypto}
use dpd_chat_fabric.PairFile.{gen_nil}
use dpd_chat_fabric.Config.{overwrite, cf_config_write, cf_config_read}
use dpd_chat_fabric.Config.Fields.{IsStorable, IsBlank}
use dpd_chat_fabric.Config.RoundTrip.{reread, cf_config_reload}
use dpd_chat_fabric.Config.Init.{Given, basepoint, init_hostname, first_config, cf_config_init}

-- A name that fits.
abbrev pub IsName : Option (List ℕ) → Type 0
IsName none = Unit
IsName (some name) = length name ≤ 33

-- What the system gives: 16 and 32 bytes, and a name that fits.
pub record IsGiven (k : Crypto) (given : Given) : Type 0 where
  pub name : IsName given.hostname
  pub uuid_size : length given.uuid ≡ 16
  pub random_size : length given.random ≡ 32
  pub key_size : length (k.curve25519_donna given.random basepoint) ≡ 32

-- The bytes of an address in dotted form, on a little-endian machine.
abbrev pub dotted : ℕ → List ℕ
dotted v = (v % 256) ∷ (v / 256 % 256) ∷ (v / 256 ^ 2 % 256) ∷ (v / 256 ^ 3) ∷ []

-- A name with zeros behind it, in 33 bytes.
abbrev pub padded : Option (List ℕ) → List ℕ
padded none = replicate 33 0
padded (some name) = name ++ replicate (33 - length name) 0

init_hostname_lem :
    (name : Option (List ℕ))
    → IsName name
    → (init_hostname name ≡ ok (padded name)) × (length (padded name) ≡ 33)
unfolding init_hostname calloc
init_hostname_lem none w = (refl, refl)
init_hostname_lem (some name) w = (
  write_at [] name 0 0 33 refl w,
  omega (arith, length-append name (calloc (33 - length name)), length-calloc (33 - length name)),
)

first_config-IsStorable :
    (k : Crypto) (given : Given) (config : Config) (h : List ℕ)
    → IsGiven k given
    → length h ≡ 33
    → length (config.uuid).u0 ≡ 16
    → config.dhcps_range_low < 2 ^ 32
    → config.dhcps_range_high < 2 ^ 32
    → IsStorable (first_config k given config h)
unfolding first_config gen_nil
first_config-IsStorable k given config h g n u low high = record {
  has_pairs_word = omega arith;
  debug_word = omega arith;
  mode_word = omega arith;
  wifi_ap_switch_word = omega arith;
  wifi_ap_dhcps_switch_word = omega arith;
  wifi_sta_switch_word = omega arith;
  dhcp_client_switch_word = omega arith;
  dhcps_range_low_word = low;
  dhcps_range_high_word = high;
  sta_ipv4_word = omega arith;
  sta_ipv4netmask_word = omega arith;
  sta_ipv4gw_word = omega arith;
  sta_ipv4ns1_word = omega arith;
  sta_ipv4ns2_word = omega arith;
  ntpv4_word = omega arith;
  ap_ipv4_word = omega arith;
  ap_ipv4netmask_word = omega arith;
  ap_ipv4gw_word = omega arith;
  ap_ipv4ns1_word = omega arith;
  ap_ipv4ns2_word = omega arith;
  u0_size = u;
  u1_size = g.uuid_size;
  sta_ipv6_size = refl;
  sta_ipv6netmask_size = refl;
  sta_ipv6gw_size = refl;
  ap_ipv6ns1_size = refl;
  ap_ipv6ns2_size = refl;
  hostname_size = omega (arith, n);
  wifi_ap_ssid_size = omega arith;
  wifi_ap_passwd_size = omega arith;
  wifi_sta_ssid_size = omega arith;
  wifi_sta_passwd_size = omega arith;
  publickey_size = g.key_size;
  privatekey_size = g.random_size;
}

first_config-IsBlank :
    (k : Crypto) (given : Given) (config : Config) (h : List ℕ)
    → IsBlank (first_config k given config h)
unfolding first_config
first_config-IsBlank k given config h = record {
  sta_ipv6ns1_blank = refl;
  sta_ipv6ns2_blank = refl;
  ntpv6_blank = refl;
  ap_ipv6_blank = refl;
  ap_ipv6netmask_blank = refl;
  ap_ipv6gw_blank = refl;
}

-- A first configuration that was read over an old one: an access point on 172.16.250.1/24 with a DHCP
-- server, no station, whose own addresses are its gateway and name servers, new keys and a new uuid1.
pub record IsFirst (k : Crypto) (given : Given) (config old r : Config) : Type 0 where
  pub ap_ipv4_dotted : dotted r.ap_ipv4 ≡ 172 ∷ 16 ∷ 250 ∷ 1 ∷ []
  pub ap_ipv4netmask_dotted : dotted r.ap_ipv4netmask ≡ 255 ∷ 255 ∷ 255 ∷ 0 ∷ []
  pub ap_gw_is_own : r.ap_ipv4gw ≡ r.ap_ipv4
  pub ap_ns1_is_own : r.ap_ipv4ns1 ≡ r.ap_ipv4
  pub ap_ns2_is_own : r.ap_ipv4ns2 ≡ r.ap_ipv4
  pub sta_ipv4_dotted : dotted r.sta_ipv4 ≡ 192 ∷ 168 ∷ 100 ∷ 2 ∷ []
  pub sta_ipv4netmask_dotted : dotted r.sta_ipv4netmask ≡ 255 ∷ 255 ∷ 255 ∷ 0 ∷ []
  pub sta_gw_is_own : r.sta_ipv4gw ≡ r.sta_ipv4
  pub sta_ns1_is_own : r.sta_ipv4ns1 ≡ r.sta_ipv4
  pub sta_ns2_is_own : r.sta_ipv4ns2 ≡ r.sta_ipv4
  pub ntpv4_dotted : dotted r.ntpv4 ≡ 192 ∷ 168 ∷ 100 ∷ 1 ∷ []
  pub sta_ipv6_zero : r.sta_ipv6 ≡ replicate 16 0
  pub sta_ipv6netmask_zero : r.sta_ipv6netmask ≡ replicate 16 0
  pub sta_ipv6gw_zero : r.sta_ipv6gw ≡ replicate 16 0
  pub ap_ipv6ns1_zero : r.ap_ipv6ns1 ≡ replicate 16 0
  pub ap_ipv6ns2_zero : r.ap_ipv6ns2 ≡ replicate 16 0
  pub sta_ipv6ns1_old : r.sta_ipv6ns1 ≡ old.sta_ipv6ns1
  pub sta_ipv6ns2_old : r.sta_ipv6ns2 ≡ old.sta_ipv6ns2
  pub ntpv6_old : r.ntpv6 ≡ old.ntpv6
  pub ap_ipv6_old : r.ap_ipv6 ≡ old.ap_ipv6
  pub ap_ipv6netmask_old : r.ap_ipv6netmask ≡ old.ap_ipv6netmask
  pub ap_ipv6gw_old : r.ap_ipv6gw ≡ old.ap_ipv6gw
  pub controlers_old : r.controlers ≡ old.controlers
  pub num_of_controllers_old : r.num_of_controllers ≡ old.num_of_controllers
  pub access_point_on : r.wifi_ap_switch ≡ 1
  pub dhcp_server_on : r.wifi_ap_dhcps_switch ≡ 1
  pub station_off : r.wifi_sta_switch ≡ 0
  pub dhcp_client_on : r.dhcp_client_switch ≡ 1
  pub debug_on : r.debug ≡ 1
  pub mode_zero : r.mode ≡ 0
  pub no_pairs : r.has_pairs ≡ 0
  pub range_low_kept : r.dhcps_range_low ≡ config.dhcps_range_low
  pub range_high_kept : r.dhcps_range_high ≡ config.dhcps_range_high
  pub uuid0_kept : (r.uuid).u0 ≡ (config.uuid).u0
  pub uuid1_made : (r.uuid).u1 ≡ given.uuid
  pub secret : r.privatekey ≡ given.random
  pub key_of_secret : r.publickey ≡ k.curve25519_donna given.random (9 ∷ replicate 31 0)
  pub host : r.hostname ≡ overwrite old.hostname (take 32 (padded given.hostname))
  pub wifi_ap_ssid_empty : r.wifi_ap_ssid ≡ overwrite old.wifi_ap_ssid (replicate 32 0)
  pub wifi_ap_passwd_empty : r.wifi_ap_passwd ≡ overwrite old.wifi_ap_passwd (replicate 64 0)
  pub wifi_sta_ssid_empty : r.wifi_sta_ssid ≡ overwrite old.wifi_sta_ssid (replicate 32 0)
  pub wifi_sta_passwd_empty : r.wifi_sta_passwd ≡ overwrite old.wifi_sta_passwd (replicate 64 0)

reread-IsFirst :
    (k : Crypto) (given : Given) (config old : Config)
    → IsFirst k given config old (reread (first_config k given config (padded given.hostname)) old)
unfolding first_config gen_nil
reread-IsFirst k given config old = record {
  ap_ipv4_dotted = refl;
  ap_ipv4netmask_dotted = refl;
  ap_gw_is_own = refl;
  ap_ns1_is_own = refl;
  ap_ns2_is_own = refl;
  sta_ipv4_dotted = refl;
  sta_ipv4netmask_dotted = refl;
  sta_gw_is_own = refl;
  sta_ns1_is_own = refl;
  sta_ns2_is_own = refl;
  ntpv4_dotted = refl;
  sta_ipv6_zero = refl;
  sta_ipv6netmask_zero = refl;
  sta_ipv6gw_zero = refl;
  ap_ipv6ns1_zero = refl;
  ap_ipv6ns2_zero = refl;
  sta_ipv6ns1_old = refl;
  sta_ipv6ns2_old = refl;
  ntpv6_old = refl;
  ap_ipv6_old = refl;
  ap_ipv6netmask_old = refl;
  ap_ipv6gw_old = refl;
  controlers_old = refl;
  num_of_controllers_old = refl;
  access_point_on = refl;
  dhcp_server_on = refl;
  station_off = refl;
  dhcp_client_on = refl;
  debug_on = refl;
  mode_zero = refl;
  no_pairs = refl;
  range_low_kept = refl;
  range_high_kept = refl;
  uuid0_kept = refl;
  uuid1_made = refl;
  secret = refl;
  key_of_secret = refl;
  host = refl;
  wifi_ap_ssid_empty = refl;
  wifi_ap_passwd_empty = refl;
  wifi_sta_ssid_empty = refl;
  wifi_sta_passwd_empty = refl;
}

-- `cfConfigInit` returns on a host name of 33 bytes at most, and what it sets up, written to the file and
-- read over any configuration, is the first configuration: every field that is written has its value in
-- IsFirst, and the others are as they were. The uuid, the secret and the public key have their sizes,
-- and the range of the DHCP server holds words.
pub cf_config_init-reload :
    (k : Crypto) (given : Given) (config old : Config)
    → IsGiven k given
    → length (config.uuid).u0 ≡ 16
    → config.dhcps_range_low < 2 ^ 32
    → config.dhcps_range_high < 2 ^ 32
    → (c r : Config) × (cf_config_init k given config ≡ ok c)
      × ((cf_config_write c >>= λ str. cf_config_read old str (length str)) ≡ ok r)
      × IsFirst k given config old r
unfolding cf_config_init
cf_config_init-reload k given config old g u low high =
    let h : List ℕ = padded given.hostname in
    let made = init_hostname_lem given.hostname g.name in
    (
      first_config k given config h,
      reread (first_config k given config h) old,
      rw made.0 refl,
      cf_config_reload (first_config k given config h) old
          (first_config-IsStorable k given config h g made.1 u low high)
          (first_config-IsBlank k given config h),
      reread-IsFirst k given config old,
    )
