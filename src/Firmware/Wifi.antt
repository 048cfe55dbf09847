-- ===== src/Firmware/Wifi.antt =====
-- The WiFi of the firmware, src/esp8266/espChatFabric/esp-cf-wifi.c: its set-up from the configuration, its
-- events, and the time of the network.
pub mod Named
use dpd_chat_fabric.Prelude.{
  ℕ, ◌==◌, ◌&&◌, ◌||◌, List, [], ◌∷◌, none, some, length, calloc, Outcome, ok, fault, ◌>>=◌, write,
  if◌then◌else◌,
}
use dpd_chat_fabric.Types.Structs.{Config}
use dpd_chat_fabric.Firmware.Globals.{
  mode_ap_unpaired, mode_sta_nowifi, mode_sta_unpaired, Sdk, SoftapConfig, StationConfig, SdkCall,
  wifi_set_event_handler_cb, wifi_set_phy_mode_11b, wifi_station_dhcpc_stop, wifi_softap_dhcps_stop,
  wifi_softap_dhcps_start, wifi_station_dhcpc_start, sntp_stop, sntp_init, cf_mdns, tcp_accept,
  udp_create, wifi_set_opmode, wifi_set_ip_info, wifi_softap_set_config, wifi_station_set_config,
  sntp_setserver, Globals, call,
}

-- The string that begins an array, which `strlen` finds the end of.
unfoldable pub string_in : List ℕ → Outcome (List ℕ)
string_in [] = fault
string_in (x ∷ xs) = if x == 0 then ok [] else (do rest ← string_in xs; ok (x ∷ rest))

-- `espCfWiFi_listen`.
abbrev pub wifi_listen : Globals → Globals
wifi_listen g = call udp_create (call tcp_accept g)

-- `espCfWiFi_ntp20Init`.
abbrev pub ntp20_init : Globals → Globals
ntp20_init g =
    let started = call sntp_init (call (sntp_setserver (g.config).ntpv4) (call sntp_stop g)) in
    record started { sntp_timer = some 1500 }

-- `espCfWiFi_ntp20Check`, given the time that the SDK has.
abbrev pub ntp20_check : ℕ → Globals → Globals
ntp20_check current_stamp g =
    if current_stamp == 0
    then record g { sntp_timer = some 500 }
    else call sntp_stop (record g { sntp_timer = none; ntp_unix_timestamp = current_stamp })

-- The events, with the addresses of the one that brings some.
pub data Event : Type 0 where
  stamode_connected stamode_disconnected stamode_authmode_change softapmode_staconnected
        softapmode_stadisconnected unknown_event :
      Event
  stamode_got_ip : ℕ → ℕ → ℕ → Event

-- `espCfWiFi_callBack`.
unfoldable pub wifi_call_back : Event → Globals → Globals
wifi_call_back stamode_connected g = record g { current_mode = mode_sta_unpaired }
wifi_call_back stamode_disconnected g = record g { current_mode = mode_sta_nowifi }
wifi_call_back stamode_authmode_change g = g
wifi_call_back (stamode_got_ip ip mask gw) g =
    let addressed = record g.config {
      sta_ipv4 = ip;
      sta_ipv4netmask = mask;
      sta_ipv4gw = gw;
      sta_ipv4ns1 = gw;
      sta_ipv4ns2 = gw;
      ntpv4 = gw;
    } in
    let listening = wifi_listen (call cf_mdns (record g { config = addressed })) in
    ntp20_init (record listening { current_mode = mode_sta_unpaired })
wifi_call_back softapmode_staconnected g = call cf_mdns g
wifi_call_back softapmode_stadisconnected g = g
wifi_call_back unknown_event g = g

-- The mode of the radio for the two switches.
unfoldable pub radio_mode : Sdk → Config → ℕ
radio_mode sdk config =
    if config.wifi_ap_switch == 1 && config.wifi_sta_switch == 0
    then sdk.softap_mode
    else (if config.wifi_ap_switch == 1 && config.wifi_sta_switch == 1
        then sdk.stationap_mode
        else (if config.wifi_ap_switch == 0 && config.wifi_sta_switch == 1
            then sdk.station_mode
            else sdk.softap_mode))

-- The access point: the name of the host, under the name of the network where there is one.
unfoldable pub softap_config : Sdk → Config → Outcome SoftapConfig
unfolding string_in
softap_config sdk config = do
  hostname ← string_in config.hostname
  named ← write (calloc 32) 0 hostname
  network ← string_in config.wifi_ap_ssid
  ssid ← (if length network == 0 then ok named else write named 0 network)
  passwd ← string_in config.wifi_ap_passwd
  password ← write (calloc 64) 0 passwd
  ok (record {
    ssid = ssid;
    password = password;
    ssid_len = (if length network == 0 then length hostname else length network);
    authmode = sdk.auth_wpa2_psk;
    ssid_hidden = 0;
    max_connection = 4;
  })

-- The part of `espWiFiInit` for an access point.
unfoldable pub access_point_init : Sdk → Globals → Outcome Globals
unfolding softap_config
access_point_init sdk g = do
  let stopped =
      call wifi_softap_dhcps_stop
        (call wifi_station_dhcpc_stop (record g { current_mode = mode_sta_nowifi }))
  ap ← softap_config sdk g.config
  let addressed =
      call (wifi_set_ip_info (g.config).ap_ipv4 (g.config).ap_ipv4netmask (g.config).ap_ipv4gw)
        (call (wifi_softap_set_config ap) stopped)
  ok (
      if (g.config).wifi_ap_dhcps_switch == 1
      then call wifi_softap_dhcps_start addressed
      else addressed)

-- The network that a station joins.
unfoldable pub station_config : Config → Outcome StationConfig
unfolding string_in
station_config config = do
  name ← string_in config.wifi_sta_ssid
  ssid ← write (calloc 32) 0 name
  passwd ← string_in config.wifi_sta_passwd
  password ← write (calloc 64) 0 passwd
  ok (record { ssid = ssid; password = password })

-- The part of `espWiFiInit` for a station.
unfoldable pub station_init : Globals → Outcome Globals
unfolding station_config
station_init g = do
  station ← station_config g.config
  let set = call (wifi_station_set_config station) (record g { current_mode = mode_ap_unpaired })
  ok (if (g.config).dhcp_client_switch == 1 then call wifi_station_dhcpc_start set else set)

-- `espWiFiInit`.
unfoldable pub wifi_init : Sdk → Globals → Outcome Globals
wifi_init sdk g = do
  let mode = radio_mode sdk g.config
  let set = call (wifi_set_opmode mode) (
      call wifi_set_phy_mode_11b
        (call wifi_set_event_handler_cb (record g { config = record g.config { mode = mode } })))
  served ←
      (if mode == sdk.softap_mode || mode == sdk.stationap_mode
        then access_point_init sdk set
        else ok set)
  joined ←
      (if mode == sdk.stationap_mode || mode == sdk.station_mode
        then station_init served
        else ok served)
  ok (wifi_listen joined)
