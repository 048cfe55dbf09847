-- ===== src/Types/Structs.antt =====
-- The structures of src/includes/cfstructs.h, for the build with HAVE_LOCAL_CRYPTO and without
-- ESP8266. `int` and `int32_t` fields are kept as their bit patterns, arrays as lists of bytes, and
-- a pointer as the object that it points to.
use dpd_chat_fabric.Prelude.{ℕ, Option, List}
use dpd_chat_fabric.Types.Commands.{Command, PairState}

-- The sizes of the local cryptography.
abbrev pub publickey_bytes : ℕ
publickey_bytes = 32

abbrev pub secretkey_bytes : ℕ
secretkey_bytes = 32

abbrev pub mac_bytes : ℕ
mac_bytes = 16

abbrev pub nonce_bytes : ℕ
nonce_bytes = 8

abbrev pub seal_bytes : ℕ
seal_bytes = 16

-- `uuuid2_t`: `uint8_t bytes[16]`.
abbrev pub Uuid : Type 0
Uuid = List ℕ

pub record UuidTuple : Type 0 where
  pub u0 : Uuid
  pub u1 : Uuid

-- `cfControl`, less `value_mask`, `gpio`, `readOnly` and `readFuction`, which stay on the device.
pub record Control : Type 0 where
  pub control : ℕ
  pub type : ℕ
  pub value : ℕ
  pub range_low : ℕ
  pub range_high : ℕ
  pub label_length : ℕ
  pub label : Option (List ℕ)
  pub data_bytes : Option (List ℕ)

-- `chatPacket`.
pub record ChatPacket : Type 0 where
  pub cmd : Command
  pub flags : ℕ
  pub payload_length : ℕ
  pub serial : ℕ
  pub was_encrypted : ℕ
  pub controlers : List Control
  pub num_of_controllers : ℕ
  pub nonce : List ℕ
  pub envelope_length : ℕ
  pub envelope_random_padding_length : ℕ
  pub envelope_random_padding : List ℕ
  pub to : UuidTuple
  pub from : UuidTuple
  pub publickey : List ℕ
  pub payload_random_padding_length : ℕ
  pub payload_random_padding : List ℕ
  pub payload : List ℕ
  pub action : ℕ
  pub action_control : ℕ
  pub action_type : ℕ
  pub action_value : ℕ
  pub action_length : ℕ
  pub action_data : List ℕ

-- `chatFabricPairing`.
pub record Pairing : Type 0 where
  pub has_public_key : ℕ
  pub has_nonce : ℕ
  pub serial : ℕ
  pub state : PairState
  pub uuid : UuidTuple
  pub publickey : List ℕ
  pub sharedkey : List ℕ
  pub nullnonce : List ℕ
  pub nonce : List ℕ
  pub mynonce : List ℕ

-- `chatFabricConfig`, less `configfile`, `newconfigfile`, `pairfile`, `callback`, `ip`, `port` and
-- `type`, which say where the program reads, writes and connects.
pub record Config : Type 0 where
  pub controlers : List Control
  pub num_of_controllers : ℕ
  pub has_pairs : ℕ
  pub uuid : UuidTuple
  pub debug : ℕ
  pub mode : ℕ
  pub hostname : List ℕ
  pub sta_ipv4 : ℕ
  pub sta_ipv4netmask : ℕ
  pub sta_ipv4gw : ℕ
  pub sta_ipv4ns1 : ℕ
  pub sta_ipv4ns2 : ℕ
  pub ntpv4 : ℕ
  pub sta_ipv6 : List ℕ
  pub sta_ipv6netmask : List ℕ
  pub sta_ipv6gw : List ℕ
  pub sta_ipv6ns1 : List ℕ
  pub sta_ipv6ns2 : List ℕ
  pub ntpv6 : List ℕ
  pub ap_ipv4 : ℕ
  pub ap_ipv4netmask : ℕ
  pub ap_ipv4gw : ℕ
  pub ap_ipv4ns1 : ℕ
  pub ap_ipv4ns2 : ℕ
  pub ap_ipv6 : List ℕ
  pub ap_ipv6netmask : List ℕ
  pub ap_ipv6gw : List ℕ
  pub ap_ipv6ns1 : List ℕ
  pub ap_ipv6ns2 : List ℕ
  pub wifi_ap_switch : ℕ
  pub wifi_ap_ssid : List ℕ
  pub wifi_ap_passwd : List ℕ
  pub wifi_ap_dhcps_switch : ℕ
  pub dhcps_range_low : ℕ
  pub dhcps_range_high : ℕ
  pub wifi_sta_switch : ℕ
  pub wifi_sta_ssid : List ℕ
  pub wifi_sta_passwd : List ℕ
  pub dhcp_client_switch : ℕ
  pub publickey : List ℕ
  pub privatekey : List ℕ
