-- ===== src/Config.antt =====
-- src/dpdChatFabric/cfConfig.c: the configuration as a string of tagged fields, in the build without
-- ESP8266. `chatFabricConfig_print` is not modelled.
pub mod Init
pub mod Fields
pub mod RoundTrip
pub mod Total
use dpd_chat_fabric.Prelude.{
  ℕ, zero, suc, ◌+◌, ◌^◌, ◌≡◌, Bool, true, false, Option, none, some, List, [], ◌∷◌, ◌++◌, length,
  drop, replicate, get_or, Outcome, ok, fault, no_fuel, ◌>>=◌, read, of_be32, ltb, if◌then◌else◌,
}
use dpd_chat_fabric.Types.Tags.{
  ConfigTag, config_tag, config_tag_byte, cftag_header, cftag_config_length, cftag_eof,
  cftag_publickey, cftag_privatekey, cftag_has_pairs, cftag_debug, cftag_uuid0, cftag_uuid1,
  cftag_mode, cftag_wifi_ap, cftag_wifi_ap_dhcps, cftag_wifi_sta, cftag_wifi_sta_dhcpc,
  cftag_dhcps_range_low, cftag_dhcps_range_high, cftag_sta_ipv4, cftag_sta_ipv4netmask,
  cftag_sta_ipv4gw, cftag_sta_ipv4ns1, cftag_sta_ipv4ns2, cftag_sta_ntpv4, cftag_ap_ipv4,
  cftag_ap_ipv4netmask, cftag_ap_ipv4gw, cftag_ap_ipv4ns1, cftag_ap_ipv4ns2, cftag_sta_ipv6,
  cftag_sta_ipv6netmask, cftag_sta_ipv6gw, cftag_sta_ipv6ns1, cftag_sta_ipv6ns2, cftag_sta_ntpv6,
  cftag_ap_ipv6, cftag_ap_ipv6netmask, cftag_ap_ipv6gw, cftag_ap_ipv6ns1, cftag_ap_ipv6ns2,
  cftag_hostname, cftag_wifi_ap_ssid, cftag_wifi_ap_passwd, cftag_wifi_sta_ssid,
  cftag_wifi_sta_passwd,
}
use dpd_chat_fabric.TagReader.{Reader, copy_field, set_filesize, tag_loop}
use dpd_chat_fabric.Types.Structs.{Config, publickey_bytes, secretkey_bytes}
use dpd_chat_fabric.TagEncoder.{Call, int32, data8, uuid, perform_all}

-- The calls of `_createConfigString`: first the numbers and the uuids, then the arrays.
unfoldable pub config_words : Config → List Call
unfolding config_tag_byte
config_words c =
    int32 (config_tag_byte cftag_header) 0
    ∷ int32 (config_tag_byte cftag_has_pairs) c.has_pairs
    ∷ int32 (config_tag_byte cftag_debug) c.debug
    ∷ uuid (config_tag_byte cftag_uuid0) (c.uuid).u0
    ∷ uuid (config_tag_byte cftag_uuid1) (c.uuid).u1
    ∷ int32 (config_tag_byte cftag_mode) c.mode
    ∷ int32 (config_tag_byte cftag_wifi_ap) c.wifi_ap_switch
    ∷ int32 (config_tag_byte cftag_wifi_ap_dhcps) c.wifi_ap_dhcps_switch
    ∷ int32 (config_tag_byte cftag_wifi_sta) c.wifi_sta_switch
    ∷ int32 (config_tag_byte cftag_wifi_sta_dhcpc) c.dhcp_client_switch
    ∷ int32 (config_tag_byte cftag_dhcps_range_low) c.dhcps_range_low
    ∷ int32 (config_tag_byte cftag_dhcps_range_high) c.dhcps_range_high
    ∷ int32 (config_tag_byte cftag_sta_ipv4) c.sta_ipv4
    ∷ int32 (config_tag_byte cftag_sta_ipv4netmask) c.sta_ipv4netmask
    ∷ int32 (config_tag_byte cftag_sta_ipv4gw) c.sta_ipv4gw
    ∷ int32 (config_tag_byte cftag_sta_ipv4ns1) c.sta_ipv4ns1
    ∷ int32 (config_tag_byte cftag_sta_ipv4ns2) c.sta_ipv4ns2
    ∷ int32 (config_tag_byte cftag_sta_ntpv4) c.ntpv4
    ∷ int32 (config_tag_byte cftag_ap_ipv4) c.ap_ipv4
    ∷ int32 (config_tag_byte cftag_ap_ipv4netmask) c.ap_ipv4netmask
    ∷ int32 (config_tag_byte cftag_ap_ipv4gw) c.ap_ipv4gw
    ∷ int32 (config_tag_byte cftag_ap_ipv4ns1) c.ap_ipv4ns1
    ∷ int32 (config_tag_byte cftag_ap_ipv4ns2) c.ap_ipv4ns2
    ∷ []

unfoldable pub config_arrays : Config → List Call
unfolding config_tag_byte
config_arrays c =
    data8 (config_tag_byte cftag_sta_ipv6) c.sta_ipv6 16
    ∷ data8 (config_tag_byte cftag_sta_ipv6netmask) c.sta_ipv6netmask 16
    ∷ data8 (config_tag_byte cftag_sta_ipv6gw) c.sta_ipv6gw 16
    ∷ data8 (config_tag_byte cftag_sta_ipv6ns1) c.sta_ipv6ns1 16
    ∷ data8 (config_tag_byte cftag_sta_ipv6ns2) c.sta_ipv6ns2 16
    ∷ data8 (config_tag_byte cftag_sta_ntpv6) c.ntpv6 16
    ∷ data8 (config_tag_byte cftag_ap_ipv6) c.ap_ipv6 16
    ∷ data8 (config_tag_byte cftag_ap_ipv6netmask) c.ap_ipv6netmask 16
    ∷ data8 (config_tag_byte cftag_ap_ipv6gw) c.ap_ipv6gw 16
    ∷ data8 (config_tag_byte cftag_ap_ipv6ns1) c.ap_ipv6ns1 16
    ∷ data8 (config_tag_byte cftag_ap_ipv6ns2) c.ap_ipv6ns2 16
    ∷ data8 (config_tag_byte cftag_hostname) c.hostname 32
    ∷ data8 (config_tag_byte cftag_wifi_ap_ssid) c.wifi_ap_ssid 32
    ∷ data8 (config_tag_byte cftag_wifi_ap_passwd) c.wifi_ap_passwd 64
    ∷ data8 (config_tag_byte cftag_wifi_sta_ssid) c.wifi_sta_ssid 32
    ∷ data8 (config_tag_byte cftag_wifi_sta_passwd) c.wifi_sta_passwd 64
    ∷ []

-- The length that is allocated. It counts a field for the length of the string, which is not written.
abbrev pub config_size : ℕ
config_size = 560

-- `_createConfigString`: the message buffer.
unfoldable pub create_config_string : Config → Outcome (List ℕ)
create_config_string c = do
  (msg, i) ← perform_all (config_words c ++ config_arrays c) (replicate config_size 0) 0
  ok msg

unfoldable pub key_calls : Config → List Call
unfolding config_tag_byte
key_calls c =
    data8 (config_tag_byte cftag_publickey) c.publickey publickey_bytes
    ∷ data8 (config_tag_byte cftag_privatekey) c.privatekey secretkey_bytes
    ∷ []

-- `_createKeyString`.
unfoldable pub create_key_string : Config → Outcome (List ℕ)
create_key_string c = do
  (msg, i) ← perform_all (key_calls c) (replicate (1 + publickey_bytes + (1 + secretkey_bytes)) 0) 0
  ok msg

-- `cfConfigWrite`: the bytes of the new configuration file.
unfoldable pub cf_config_write : Config → Outcome (List ℕ)
unfolding config_tag_byte
cf_config_write c = do
  configstr ← create_config_string c
  keys ← create_key_string c
  ok (configstr ++ (keys ++ (config_tag_byte cftag_eof ∷ [])))

-- The array after `memcpy` of fewer bytes than it has.
abbrev pub overwrite : List ℕ → List ℕ → List ℕ
overwrite old x = x ++ drop (length x) old

-- The cases of the `switch` of `_cfConfigRead` that copy: how many bytes the case takes. A tag with
-- no case takes none.
unfoldable pub config_field_size : ConfigTag → ℕ
config_field_size cftag_has_pairs = 4
config_field_size cftag_debug = 4
config_field_size cftag_uuid0 = 16
config_field_size cftag_uuid1 = 16
config_field_size cftag_mode = 4
config_field_size cftag_wifi_ap = 4
config_field_size cftag_wifi_ap_dhcps = 4
config_field_size cftag_wifi_sta = 4
config_field_size cftag_wifi_sta_dhcpc = 4
config_field_size cftag_dhcps_range_low = 4
config_field_size cftag_dhcps_range_high = 4
config_field_size cftag_sta_ipv4 = 4
config_field_size cftag_sta_ipv4netmask = 4
config_field_size cftag_sta_ipv4gw = 4
config_field_size cftag_sta_ipv4ns1 = 4
config_field_size cftag_sta_ipv4ns2 = 4
config_field_size cftag_sta_ntpv4 = 4
config_field_size cftag_ap_ipv4 = 4
config_field_size cftag_ap_ipv4netmask = 4
config_field_size cftag_ap_ipv4gw = 4
config_field_size cftag_ap_ipv4ns1 = 4
config_field_size cftag_ap_ipv4ns2 = 4
config_field_size cftag_sta_ipv6 = 16
config_field_size cftag_sta_ipv6netmask = 16
config_field_size cftag_sta_ipv6gw = 16
config_field_size cftag_ap_ipv6ns1 = 16
config_field_size cftag_ap_ipv6ns2 = 16
config_field_size cftag_hostname = 32
config_field_size cftag_wifi_ap_ssid = 32
config_field_size cftag_wifi_ap_passwd = 64
config_field_size cftag_wifi_sta_ssid = 32
config_field_size cftag_wifi_sta_passwd = 64
config_field_size cftag_publickey = publickey_bytes
config_field_size cftag_privatekey = secretkey_bytes
config_field_size _ = 0

-- And what it stores, from the bytes that it took.
unfoldable pub store_config_field : ConfigTag → List ℕ → Config → Config
store_config_field cftag_has_pairs x c = record c { has_pairs = of_be32 x }
store_config_field cftag_debug x c = record c { debug = of_be32 x }
store_config_field cftag_uuid0 x c = record c { uuid = record (c.uuid) { u0 = x } }
store_config_field cftag_uuid1 x c = record c { uuid = record (c.uuid) { u1 = x } }
store_config_field cftag_mode x c = record c { mode = of_be32 x }
store_config_field cftag_wifi_ap x c = record c { wifi_ap_switch = of_be32 x }
store_config_field cftag_wifi_ap_dhcps x c = record c { wifi_ap_dhcps_switch = of_be32 x }
store_config_field cftag_wifi_sta x c = record c { wifi_sta_switch = of_be32 x }
store_config_field cftag_wifi_sta_dhcpc x c = record c { dhcp_client_switch = of_be32 x }
store_config_field cftag_dhcps_range_low x c = record c { dhcps_range_low = of_be32 x }
store_config_field cftag_dhcps_range_high x c = record c { dhcps_range_high = of_be32 x }
store_config_field cftag_sta_ipv4 x c = record c { sta_ipv4 = of_be32 x }
store_config_field cftag_sta_ipv4netmask x c = record c { sta_ipv4netmask = of_be32 x }
store_config_field cftag_sta_ipv4gw x c = record c { sta_ipv4gw = of_be32 x }
store_config_field cftag_sta_ipv4ns1 x c = record c { sta_ipv4ns1 = of_be32 x }
store_config_field cftag_sta_ipv4ns2 x c = record c { sta_ipv4ns2 = of_be32 x }
store_config_field cftag_sta_ntpv4 x c = record c { ntpv4 = of_be32 x }
store_config_field cftag_ap_ipv4 x c = record c { ap_ipv4 = of_be32 x }
store_config_field cftag_ap_ipv4netmask x c = record c { ap_ipv4netmask = of_be32 x }
store_config_field cftag_ap_ipv4gw x c = record c { ap_ipv4gw = of_be32 x }
store_config_field cftag_ap_ipv4ns1 x c = record c { ap_ipv4ns1 = of_be32 x }
store_config_field cftag_ap_ipv4ns2 x c = record c { ap_ipv4ns2 = of_be32 x }
store_config_field cftag_sta_ipv6 x c = record c { sta_ipv6 = x }
store_config_field cftag_sta_ipv6netmask x c = record c { sta_ipv6netmask = x }
store_config_field cftag_sta_ipv6gw x c = record c { sta_ipv6gw = x }
store_config_field cftag_ap_ipv6ns1 x c = record c { ap_ipv6ns1 = x }
store_config_field cftag_ap_ipv6ns2 x c = record c { ap_ipv6ns2 = x }
store_config_field cftag_hostname x c = record c { hostname = overwrite c.hostname x }
store_config_field cftag_wifi_ap_ssid x c = record c { wifi_ap_ssid = overwrite c.wifi_ap_ssid x }
store_config_field cftag_wifi_ap_passwd x c = record c {
  wifi_ap_passwd = overwrite c.wifi_ap_passwd x;
}
store_config_field cftag_wifi_sta_ssid x c = record c {
  wifi_sta_ssid = overwrite c.wifi_sta_ssid x;
}
store_config_field cftag_wifi_sta_passwd x c = record c {
  wifi_sta_passwd = overwrite c.wifi_sta_passwd x;
}
store_config_field cftag_publickey x c = record c { publickey = x }
store_config_field cftag_privatekey x c = record c { privatekey = x }
store_config_field _ x c = c

-- One case of the `switch`, the index being behind the tag.
unfoldable pub read_config_tag : List ℕ → Option ConfigTag → Reader Config → Outcome (Reader Config)
read_config_tag str (some cftag_header) r = ok (record r { i = r.i + 4 })
read_config_tag str (some cftag_config_length) r = set_filesize str r
read_config_tag str (some cftag_eof) r = ok (record r { filesize = r.i })
read_config_tag str (some tag) r = copy_field (config_field_size tag) (store_config_field tag) str r
read_config_tag str none r = ok r

-- A round reads a byte of the object at least, so its length bounds the rounds.
-- `_cfConfigRead` on a string, which is `cfConfigSetFromStr`, or on what was read from the file,
-- which is `cfConfigRead` where the file can be opened.
unfoldable pub cf_config_read : Config → List ℕ → ℕ → Outcome Config
cf_config_read config str size = do
  r ←
      tag_loop read_config_tag (suc (length str)) str
        (record { target = config; i = 0; filesize = size })
  ok r.target
