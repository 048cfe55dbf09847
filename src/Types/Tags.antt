-- ===== src/Types/Tags.antt =====
-- The tag bytes of packets and of configuration files, from src/includes/cfstructs.h. A tag is a
-- constructor, its byte is its place in the table, and a byte that is in no `enum` has no tag.
use dpd_chat_fabric.Prelude.{
  ℕ, zero, suc, ◌≡◌, refl, Option, none, some, List, [], ◌∷◌, ◌==◌, if◌then◌else◌, get_elem?,
}

-- `enum chatPacketTags`, in order from 0, and `cptag_cmd = 0xFF`.
pub data PacketTag : Type 0 where
  cptag_noop cptag_nonce_length cptag_nonce cptag_envelope_length cptag_encrypted_envelope :
      PacketTag
  cptag_envelope cptag_envelope_random_padding_length cptag_envelope_random_padding_high : PacketTag
  cptag_envelope_random_padding_low cptag_to0 cptag_to1 cptag_from0 cptag_from1 cptag_flags :
      PacketTag
  cptag_payload_length cptag_payload_random_padding_length cptag_payload_random_padding_high :
      PacketTag
  cptag_payload_random_padding_low cptag_encrypted_payload cptag_payload cptag_publickey_id :
      PacketTag
  cptag_publickey cptag_config_length cptag_config cptag_mac cptag_serial cptag_action : PacketTag
  cptag_action_type cptag_action_value cptag_action_control cptag_action_length cptag_action_data :
      PacketTag
  cptag_app_controls cptag_app_control_i cptag_app_control_type cptag_app_control_value : PacketTag
  cptag_app_control_range_low cptag_app_control_range_high cptag_app_control_label_length :
      PacketTag
  cptag_app_control_label cptag_app_control_data cptag_endtag cptag_cmd : PacketTag

abbrev packet_tags : List PacketTag
packet_tags =
    cptag_noop ∷ cptag_nonce_length ∷ cptag_nonce ∷ cptag_envelope_length ∷ cptag_encrypted_envelope
    ∷ cptag_envelope ∷ cptag_envelope_random_padding_length ∷ cptag_envelope_random_padding_high
    ∷ cptag_envelope_random_padding_low ∷ cptag_to0 ∷ cptag_to1 ∷ cptag_from0 ∷ cptag_from1
    ∷ cptag_flags ∷ cptag_payload_length ∷ cptag_payload_random_padding_length
    ∷ cptag_payload_random_padding_high ∷ cptag_payload_random_padding_low ∷ cptag_encrypted_payload
    ∷ cptag_payload ∷ cptag_publickey_id ∷ cptag_publickey ∷ cptag_config_length ∷ cptag_config
    ∷ cptag_mac ∷ cptag_serial ∷ cptag_action ∷ cptag_action_type ∷ cptag_action_value
    ∷ cptag_action_control ∷ cptag_action_length ∷ cptag_action_data ∷ cptag_app_controls
    ∷ cptag_app_control_i ∷ cptag_app_control_type ∷ cptag_app_control_value
    ∷ cptag_app_control_range_low ∷ cptag_app_control_range_high ∷ cptag_app_control_label_length
    ∷ cptag_app_control_label ∷ cptag_app_control_data ∷ cptag_endtag ∷ []

-- The tag of a byte that was read.
unfoldable pub packet_tag : ℕ → Option PacketTag
packet_tag c = if c == 0xFF then some cptag_cmd else get_elem? packet_tags c

-- The byte of a tag.
unfoldable pub packet_tag_byte : PacketTag → ℕ
packet_tag_byte cptag_noop = 0
packet_tag_byte cptag_nonce_length = 1
packet_tag_byte cptag_nonce = 2
packet_tag_byte cptag_envelope_length = 3
packet_tag_byte cptag_encrypted_envelope = 4
packet_tag_byte cptag_envelope = 5
packet_tag_byte cptag_envelope_random_padding_length = 6
packet_tag_byte cptag_envelope_random_padding_high = 7
packet_tag_byte cptag_envelope_random_padding_low = 8
packet_tag_byte cptag_to0 = 9
packet_tag_byte cptag_to1 = 10
packet_tag_byte cptag_from0 = 11
packet_tag_byte cptag_from1 = 12
packet_tag_byte cptag_flags = 13
packet_tag_byte cptag_payload_length = 14
packet_tag_byte cptag_payload_random_padding_length = 15
packet_tag_byte cptag_payload_random_padding_high = 16
packet_tag_byte cptag_payload_random_padding_low = 17
packet_tag_byte cptag_encrypted_payload = 18
packet_tag_byte cptag_payload = 19
packet_tag_byte cptag_publickey_id = 20
packet_tag_byte cptag_publickey = 21
packet_tag_byte cptag_config_length = 22
packet_tag_byte cptag_config = 23
packet_tag_byte cptag_mac = 24
packet_tag_byte cptag_serial = 25
packet_tag_byte cptag_action = 26
packet_tag_byte cptag_action_type = 27
packet_tag_byte cptag_action_value = 28
packet_tag_byte cptag_action_control = 29
packet_tag_byte cptag_action_length = 30
packet_tag_byte cptag_action_data = 31
packet_tag_byte cptag_app_controls = 32
packet_tag_byte cptag_app_control_i = 33
packet_tag_byte cptag_app_control_type = 34
packet_tag_byte cptag_app_control_value = 35
packet_tag_byte cptag_app_control_range_low = 36
packet_tag_byte cptag_app_control_range_high = 37
packet_tag_byte cptag_app_control_label_length = 38
packet_tag_byte cptag_app_control_label = 39
packet_tag_byte cptag_app_control_data = 40
packet_tag_byte cptag_endtag = 41
packet_tag_byte cptag_cmd = 0xFF

-- Every tag is read back from its byte.
pub packet_tag-packet_tag_byte : (t : PacketTag) → packet_tag (packet_tag_byte t) ≡ some t
unfolding packet_tag packet_tag_byte
packet_tag-packet_tag_byte cptag_noop = refl
packet_tag-packet_tag_byte _ = refl

-- `enum chatFabricConfigTags`: 1 to 47 in order, then five large ones.
pub data ConfigTag : Type 0 where
  cftag_publickey cftag_privatekey cftag_nonce cftag_mynonce cftag_uuid0 cftag_uuid1 : ConfigTag
  cftag_has_public_key cftag_has_nonce cftag_state cftag_serial cftag_has_pairs cftag_debug :
      ConfigTag
  cftag_port cftag_hostname cftag_wifi_ap cftag_wifi_ap_ssid cftag_wifi_ap_passwd : ConfigTag
  cftag_wifi_ap_dhcps cftag_dhcps_range_low cftag_dhcps_range_high cftag_wifi_sta : ConfigTag
  cftag_wifi_sta_ssid cftag_wifi_sta_passwd cftag_wifi_sta_dhcpc cftag_ap_ipv4 : ConfigTag
  cftag_ap_ipv4netmask cftag_ap_ipv4gw cftag_ap_ipv4ns1 cftag_ap_ipv4ns2 cftag_ap_ipv6 : ConfigTag
  cftag_ap_ipv6netmask cftag_ap_ipv6gw cftag_ap_ipv6ns1 cftag_ap_ipv6ns2 cftag_sta_ipv4 : ConfigTag
  cftag_sta_ipv4netmask cftag_sta_ipv4gw cftag_sta_ipv4ns1 cftag_sta_ipv4ns2 cftag_sta_ntpv4 :
      ConfigTag
  cftag_sta_ipv6 cftag_sta_ipv6netmask cftag_sta_ipv6gw cftag_sta_ipv6ns1 cftag_sta_ipv6ns2 :
      ConfigTag
  cftag_sta_ntpv6 cftag_mode cftag_header cftag_config_length cftag_pair_length cftag_pairs :
      ConfigTag
  cftag_eof : ConfigTag

abbrev config_tags : List ConfigTag
config_tags =
    cftag_publickey ∷ cftag_privatekey ∷ cftag_nonce ∷ cftag_mynonce ∷ cftag_uuid0 ∷ cftag_uuid1
    ∷ cftag_has_public_key ∷ cftag_has_nonce ∷ cftag_state ∷ cftag_serial ∷ cftag_has_pairs
    ∷ cftag_debug ∷ cftag_port ∷ cftag_hostname ∷ cftag_wifi_ap ∷ cftag_wifi_ap_ssid
    ∷ cftag_wifi_ap_passwd ∷ cftag_wifi_ap_dhcps ∷ cftag_dhcps_range_low ∷ cftag_dhcps_range_high
    ∷ cftag_wifi_sta ∷ cftag_wifi_sta_ssid ∷ cftag_wifi_sta_passwd ∷ cftag_wifi_sta_dhcpc
    ∷ cftag_ap_ipv4 ∷ cftag_ap_ipv4netmask ∷ cftag_ap_ipv4gw ∷ cftag_ap_ipv4ns1 ∷ cftag_ap_ipv4ns2
    ∷ cftag_ap_ipv6 ∷ cftag_ap_ipv6netmask ∷ cftag_ap_ipv6gw ∷ cftag_ap_ipv6ns1 ∷ cftag_ap_ipv6ns2
    ∷ cftag_sta_ipv4 ∷ cftag_sta_ipv4netmask ∷ cftag_sta_ipv4gw ∷ cftag_sta_ipv4ns1
    ∷ cftag_sta_ipv4ns2 ∷ cftag_sta_ntpv4 ∷ cftag_sta_ipv6 ∷ cftag_sta_ipv6netmask
    ∷ cftag_sta_ipv6gw ∷ cftag_sta_ipv6ns1 ∷ cftag_sta_ipv6ns2 ∷ cftag_sta_ntpv6 ∷ cftag_mode ∷ []

unfoldable pub config_tag : ℕ → Option ConfigTag
config_tag zero = none
config_tag (suc t) =
    if suc t == 0xa5
    then some cftag_header
    else (if suc t == 0xf0
        then some cftag_config_length
        else (if suc t == 0xf1
            then some cftag_pair_length
            else (if suc t == 0xf2
                then some cftag_pairs
                else (if suc t == 0xfa then some cftag_eof else (get_elem? config_tags t)))))

unfoldable pub config_tag_byte : ConfigTag → ℕ
config_tag_byte cftag_publickey = 1
config_tag_byte cftag_privatekey = 2
config_tag_byte cftag_nonce = 3
config_tag_byte cftag_mynonce = 4
config_tag_byte cftag_uuid0 = 5
config_tag_byte cftag_uuid1 = 6
config_tag_byte cftag_has_public_key = 7
config_tag_byte cftag_has_nonce = 8
config_tag_byte cftag_state = 9
config_tag_byte cftag_serial = 10
config_tag_byte cftag_has_pairs = 11
config_tag_byte cftag_debug = 12
config_tag_byte cftag_port = 13
config_tag_byte cftag_hostname = 14
config_tag_byte cftag_wifi_ap = 15
config_tag_byte cftag_wifi_ap_ssid = 16
config_tag_byte cftag_wifi_ap_passwd = 17
config_tag_byte cftag_wifi_ap_dhcps = 18
config_tag_byte cftag_dhcps_range_low = 19
config_tag_byte cftag_dhcps_range_high = 20
config_tag_byte cftag_wifi_sta = 21
config_tag_byte cftag_wifi_sta_ssid = 22
config_tag_byte cftag_wifi_sta_passwd = 23
config_tag_byte cftag_wifi_sta_dhcpc = 24
config_tag_byte cftag_ap_ipv4 = 25
config_tag_byte cftag_ap_ipv4netmask = 26
config_tag_byte cftag_ap_ipv4gw = 27
config_tag_byte cftag_ap_ipv4ns1 = 28
config_tag_byte cftag_ap_ipv4ns2 = 29
config_tag_byte cftag_ap_ipv6 = 30
config_tag_byte cftag_ap_ipv6netmask = 31
config_tag_byte cftag_ap_ipv6gw = 32
config_tag_byte cftag_ap_ipv6ns1 = 33
config_tag_byte cftag_ap_ipv6ns2 = 34
config_tag_byte cftag_sta_ipv4 = 35
config_tag_byte cftag_sta_ipv4netmask = 36
config_tag_byte cftag_sta_ipv4gw = 37
config_tag_byte cftag_sta_ipv4ns1 = 38
config_tag_byte cftag_sta_ipv4ns2 = 39
config_tag_byte cftag_sta_ntpv4 = 40
config_tag_byte cftag_sta_ipv6 = 41
config_tag_byte cftag_sta_ipv6netmask = 42
config_tag_byte cftag_sta_ipv6gw = 43
config_tag_byte cftag_sta_ipv6ns1 = 44
config_tag_byte cftag_sta_ipv6ns2 = 45
config_tag_byte cftag_sta_ntpv6 = 46
config_tag_byte cftag_mode = 47
config_tag_byte cftag_header = 0xa5
config_tag_byte cftag_config_length = 0xf0
config_tag_byte cftag_pair_length = 0xf1
config_tag_byte cftag_pairs = 0xf2
config_tag_byte cftag_eof = 0xfa

pub config_tag-config_tag_byte : (t : ConfigTag) → config_tag (config_tag_byte t) ≡ some t
unfolding config_tag config_tag_byte
config_tag-config_tag_byte cftag_publickey = refl
config_tag-config_tag_byte _ = refl
