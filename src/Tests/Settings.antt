-- ===== src/Tests/Settings.antt =====
-- The theorem on a stored configuration at a sample.
use dpd_chat_fabric.Prelude.{◌≡◌, refl, length, ok, ◌>>=◌, arith}
use dpd_chat_fabric.Config.{cf_config_read, cf_config_write}
use dpd_chat_fabric.Config.Fields.{IsStorable, IsBlank}
use dpd_chat_fabric.Config.RoundTrip.{reread, cf_config_reload}
use dpd_chat_fabric.Tests.Data.{config}

config-IsStorable : IsStorable (config 1)
config-IsStorable = record {
  has_pairs_word = omega arith;
  debug_word = omega arith;
  mode_word = omega arith;
  wifi_ap_switch_word = omega arith;
  wifi_ap_dhcps_switch_word = omega arith;
  wifi_sta_switch_word = omega arith;
  dhcp_client_switch_word = omega arith;
  dhcps_range_low_word = omega arith;
  dhcps_range_high_word = omega arith;
  sta_ipv4_word = omega arith;
  sta_ipv4netmask_word = omega arith;
  sta_ipv4gw_word = omega arith;
  sta_ipv4ns1_word = omega arith;
  sta_ipv4ns2_word = omega arith;
  ntpv4_word = omega arith;
  ap_ipv4_word = omega arith;
  ap_ipv4netmask_word = omega arith;
  ap_ipv4gw_word = omega arith;
  ap_ipv4ns1_word = omega arith;
  ap_ipv4ns2_word = omega arith;
  u0_size = refl;
  u1_size = refl;
  sta_ipv6_size = refl;
  sta_ipv6netmask_size = refl;
  sta_ipv6gw_size = refl;
  ap_ipv6ns1_size = refl;
  ap_ipv6ns2_size = refl;
  hostname_size = omega arith;
  wifi_ap_ssid_size = omega arith;
  wifi_ap_passwd_size = omega arith;
  wifi_sta_ssid_size = omega arith;
  wifi_sta_passwd_size = omega arith;
  publickey_size = refl;
  privatekey_size = refl;
}

config-IsBlank : IsBlank (config 1)
config-IsBlank = record {
  sta_ipv6ns1_blank = refl;
  sta_ipv6ns2_blank = refl;
  ntpv6_blank = refl;
  ap_ipv6_blank = refl;
  ap_ipv6netmask_blank = refl;
  ap_ipv6gw_blank = refl;
}

cf_config_reload_example :
    (cf_config_write (config 1) >>= λ str. cf_config_read (config 2) str (length str))
    ≡ ok (reread (config 1) (config 2))
cf_config_reload_example = cf_config_reload (config 1) (config 2) config-IsStorable config-IsBlank
