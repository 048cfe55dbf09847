-- ===== src/Firmware/Globals.antt =====
-- The global variables of the firmware (src/esp8266/include/esp-cf-config.h, src/esp8266/user/user_main.c),
-- and the calls of Espressif's SDK that its handlers make.
use dpd_chat_fabric.Prelude.{ℕ, Bool, Option, List, ◌∷◌}
use dpd_chat_fabric.Types.Structs.{Config, Pairing}
use dpd_chat_fabric.Firmware.Outlets.{Outlet, Output}

-- `enum deviceModes`.
pub data DeviceModes : Type 0 where
  mode_undefined mode_unconfigured mode_booting mode_ap_unpaired mode_ap_paired mode_sta_nowifi
        mode_sta_unpaired mode_sta_paired mode_menu_none mode_menu_in mode_menu_apmode
        mode_menu_stamode mode_menu_factoryreset mode_menu_unpairall mode_menu_end :
      DeviceModes

-- The constants of the SDK.
pub record Sdk : Type 0 where
  pub station_mode : ℕ
  pub softap_mode : ℕ
  pub stationap_mode : ℕ
  pub auth_wpa2_psk : ℕ

-- `struct softap_config`, as far as it is set, and `struct station_config`.
pub record SoftapConfig : Type 0 where
  pub ssid : List ℕ
  pub password : List ℕ
  pub ssid_len : ℕ
  pub authmode : ℕ
  pub ssid_hidden : ℕ
  pub max_connection : ℕ

pub record StationConfig : Type 0 where
  pub ssid : List ℕ
  pub password : List ℕ

-- The calls that are made, with what they are given. `cf_mdns` is `espCfMdns`, and `config_write` is
-- `cfConfigWrite`.
pub data SdkCall : Type 0 where
  wifi_set_event_handler_cb wifi_set_phy_mode_11b wifi_station_dhcpc_stop wifi_softap_dhcps_stop
        wifi_softap_dhcps_start wifi_station_dhcpc_start sntp_stop sntp_init cf_mdns tcp_accept
        udp_create system_restart rboot_ota_start :
      SdkCall
  wifi_set_opmode : ℕ → SdkCall
  wifi_set_ip_info : ℕ → ℕ → ℕ → SdkCall
  wifi_softap_set_config : SoftapConfig → SdkCall
  wifi_station_set_config : StationConfig → SdkCall
  sntp_setserver : ℕ → SdkCall
  config_write : Config → SdkCall

-- `statusReg` runs when `status_armed` is set, and `sntp_timer` after that many milliseconds. `calls` has
-- the last call first.
pub record Globals : Type 0 where
  pub current_mode : DeviceModes
  pub menu_item : DeviceModes
  pub config : Config
  pub outlets : List Outlet
  pub pairing : Pairing
  pub debug : ℕ
  pub status_armed : Bool
  pub sntp_timer : Option ℕ
  pub ntp_unix_timestamp : ℕ
  pub seconds_since_boot : ℕ
  pub outputs : List Output
  pub calls : List SdkCall

abbrev pub call : SdkCall → Globals → Globals
call c g = record g { calls = c ∷ g.calls }
