-- ===== src/Config/Init.antt =====
-- `cfConfigInit` of src/dpdChatFabric/cfConfig.c, in the build with HAVE_LOCAL_CRYPTO and without ESP8266:
-- the configuration that a machine starts with.
pub mod Stored
use dpd_chat_fabric.Prelude.{
  ℕ, ◌+◌, ◌-◌, ◌*◌, ◌^◌, Option, none, some, List, [], ◌∷◌, replicate, Outcome, ok, ◌>>=◌, write,
}
use dpd_chat_fabric.Types.Structs.{Config}
use dpd_chat_fabric.Crypto.{Crypto}
use dpd_chat_fabric.PairFile.{gen_nil}

-- `inet_addr` of an address in dotted form, on a little-endian machine.
abbrev pub inet_addr : ℕ → ℕ → ℕ → ℕ → ℕ
inet_addr a b c d = a + b * 2 ^ 8 + c * 2 ^ 16 + d * 2 ^ 24

-- `basepoint`.
abbrev pub basepoint : List ℕ
basepoint = 9 ∷ replicate 31 0

-- What the function is given by the system: `hostMeta.hostname`, where `hostMeta.status` is set, the uuid
-- of `uuuid2_gen`, and the bytes of `arc4random_buf`.
pub record Given : Type 0 where
  pub hostname : Option (List ℕ)
  pub uuid : List ℕ
  pub random : List ℕ

-- The host name is copied into 33 zeros.
unfoldable pub init_hostname : Option (List ℕ) → Outcome (List ℕ)
init_hostname none = ok (replicate 33 0)
init_hostname (some name) = write (replicate 33 0) 0 name

-- The assignments, given the host name. The range of the DHCP server is left as it is.
unfoldable pub first_config : Crypto → Given → Config → List ℕ → Config
unfolding gen_nil
first_config k given config hostname =
    let ap = inet_addr 172 16 250 1 in
    let sta = inet_addr 192 168 100 2 in
    let zeros = replicate 16 0 in
    record config {
      controlers = [];
      num_of_controllers = 2 ^ 32 - 1;
      mode = 0;
      has_pairs = 0;
      uuid = record { u0 = gen_nil (config.uuid).u0; u1 = given.uuid };
      debug = 1;
      hostname = hostname;
      ap_ipv4 = ap;
      ap_ipv4netmask = inet_addr 255 255 255 0;
      sta_ipv4 = sta;
      sta_ipv4netmask = inet_addr 255 255 255 0;
      ntpv4 = inet_addr 192 168 100 1;
      ap_ipv4gw = ap;
      ap_ipv4ns1 = ap;
      ap_ipv4ns2 = ap;
      sta_ipv4gw = sta;
      sta_ipv4ns1 = sta;
      sta_ipv4ns2 = sta;
      sta_ipv6 = zeros;
      sta_ipv6netmask = zeros;
      sta_ipv6gw = zeros;
      sta_ipv6ns1 = zeros;
      sta_ipv6ns2 = zeros;
      ntpv6 = zeros;
      ap_ipv6 = zeros;
      ap_ipv6netmask = zeros;
      ap_ipv6gw = zeros;
      ap_ipv6ns1 = zeros;
      ap_ipv6ns2 = zeros;
      wifi_ap_switch = 1;
      wifi_ap_dhcps_switch = 1;
      wifi_sta_switch = 0;
      dhcp_client_switch = 1;
      wifi_ap_ssid = replicate 33 0;
      wifi_ap_passwd = replicate 65 0;
      wifi_sta_ssid = replicate 33 0;
      wifi_sta_passwd = replicate 65 0;
      privatekey = given.random;
      publickey = k.curve25519_donna given.random basepoint;
    }

unfoldable pub cf_config_init : Crypto → Given → Config → Outcome Config
unfolding first_config
cf_config_init k given config = do
  hostname ← init_hostname given.hostname
  ok (first_config k given config hostname)
