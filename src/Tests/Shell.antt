-- ===== src/Tests/Shell.antt =====
-- The firmware's shell, access point, modes and clock (src/esp8266).
use dpd_chat_fabric.Prelude.{
  ℕ, write, calloc, ◌+◌, ◌-◌, ◌*◌, ◌^◌, ◌≡◌, refl, true, false, List, [], ◌∷◌, ◌++◌, take, none,
  Outcome, ok, fault, no_fuel, arith,
}
use dpd_chat_fabric.Types.Structs.{Config}
use dpd_chat_fabric.Firmware.Globals.{mode_booting, mode_menu_none, Sdk, SoftapConfig, Globals}
use dpd_chat_fabric.Firmware.Wifi.{
  string_in, radio_mode, access_point_init, station_init, wifi_init, softap_config, stamode_got_ip,
  wifi_call_back,
}
use dpd_chat_fabric.Firmware.Wifi.Named.{AreNames, announced, softap_config-announced}
use dpd_chat_fabric.Firmware.Shell.{c_string, entered_lines, new_shell}
use dpd_chat_fabric.Firmware.Shell.Lines.{edited_lines}
use dpd_chat_fabric.Firmware.Shell.Editor.{entered_lines-edited_lines}
use dpd_chat_fabric.Firmware.Shell.Commands.{Devices, type_characters}
use dpd_chat_fabric.Firmware.Shell.Typed.{nothing_printed, printed, gpio_line}
use dpd_chat_fabric.Firmware.Shell.Driven.{IsDriven, type_characters-gpio}
use dpd_chat_fabric.Tests.Bits.{shifting_pins, shifting_pins-PinLaws}
use dpd_chat_fabric.Firmware.Settings.{board_outlets}
use dpd_chat_fabric.Firmware.Modes.{
  init_modes, status_loop, status_timer, datagram, ticks, stay, go,
}
use dpd_chat_fabric.Firmware.Modes.Shown.{is_sta_paired, Steps-is_sta_paired}
use dpd_chat_fabric.Firmware.Modes.Booted.{init_modes-Steps}
use dpd_chat_fabric.Firmware.Modes.Clock.{clock_ticks}
use dpd_chat_fabric.Tests.Data.{config, pairing}

-- "ix", a backspace, "p" and the end of the line.
abbrev typed : List ℕ
typed = b'i' ∷ b'x' ∷ 8 ∷ b'p' ∷ b'\r' ∷ b'\n' ∷ []

typed_line : entered_lines typed new_shell ≡ ok ((b'i' ∷ b'p' ∷ []) ∷ [])
unfolding entered_lines write c_string
typed_line = refl

entered_lines-edited_lines_example : entered_lines typed new_shell ≡ edited_lines typed []
entered_lines-edited_lines_example = entered_lines-edited_lines typed

abbrev sdk : Sdk
sdk = record { station_mode = 1; softap_mode = 2; stationap_mode = 3; auth_wpa2_psk = 3 }

-- A decimal of one or two digits.
abbrev two_digits_of : List ℕ → ℕ
two_digits_of (x ∷ []) = x - 48
two_digits_of (x ∷ y ∷ _) = (x - 48) * 10 + (y - 48)
two_digits_of [] = 0

abbrev board_devices : Devices
board_devices = record { atoi = two_digits_of; random = []; config_read = λ c. c }

abbrev named_config : Config
named_config = record (config 0) {
  hostname = b'c' ∷ b'f' ∷ 0 ∷ 0 ∷ [];
  wifi_ap_ssid = b'n' ∷ 0 ∷ [];
  wifi_ap_passwd = b'p' ∷ b'w' ∷ 0 ∷ [];
  wifi_ap_switch = 1;
  wifi_sta_switch = 0;
  has_pairs = 1;
}

abbrev globals : Globals
globals = record {
  current_mode = mode_booting;
  menu_item = mode_menu_none;
  config = named_config;
  outlets = board_outlets;
  pairing = record pairing { has_public_key = 1 };
  debug = 0;
  status_armed = false;
  sntp_timer = none;
  ntp_unix_timestamp = 100;
  seconds_since_boot = 7;
  outputs = [];
  calls = [];
}

-- "gpio 12 1".
type_characters-gpio_example :
    (g' : Globals) × (type_characters board_devices
        (gpio_line (b'1' ∷ b'2' ∷ []) (b'1' ∷ []) ++ (b'\n' ∷ []))
        globals
      ≡ ok g')
    × IsDriven shifting_pins (λ p. 0) 12 1 globals g'
unfolding gpio_line
type_characters-gpio_example =
    type_characters-gpio shifting_pins (λ p. 0) board_devices (b'1' ∷ b'2' ∷ []) (b'1' ∷ []) globals
      shifting_pins-PinLaws
      (printed (omega arith) (omega arith) (printed (omega arith) (omega arith) nothing_printed))
      (printed (omega arith) (omega arith) nothing_printed) (omega arith) (omega arith)

named_config-AreNames : AreNames named_config (b'c' ∷ b'f' ∷ []) (b'n' ∷ []) (b'p' ∷ b'w' ∷ [])
unfolding string_in
named_config-AreNames = record {
  hostname_ends = refl;
  network_ends = refl;
  passwd_ends = refl;
  hostname_fits = omega arith;
  network_fits = omega arith;
  passwd_fits = omega arith;
}

softap_config-announced_example :
    (made : SoftapConfig) × (softap_config sdk named_config ≡ ok made)
    × (take made.ssid_len made.ssid ≡ announced (b'c' ∷ b'f' ∷ []) (b'n' ∷ []))
    × (take 2 made.password ≡ b'p' ∷ b'w' ∷ [])
softap_config-announced_example =
    softap_config-announced sdk named_config (b'c' ∷ b'f' ∷ []) (b'n' ∷ []) (b'p' ∷ b'w' ∷ [])
      named_config-AreNames

abbrev result_or : Outcome Globals → Globals → Globals
result_or (ok g) other = g
result_or fault other = other
result_or no_fuel other = other

-- The board after a boot, and after its status timer.
unfoldable booted_board : Globals
unfolding init_modes wifi_init radio_mode access_point_init station_init
booted_board = result_or (init_modes sdk globals) globals

booted : init_modes sdk globals ≡ ok booted_board
unfolding init_modes wifi_init radio_mode access_point_init station_init booted_board write calloc
booted = refl

shown_board : is_sta_paired (status_loop booted_board).current_mode ≡ true
unfolding is_sta_paired status_loop booted_board write calloc
shown_board = refl

armed_board : booted_board.status_armed ≡ true
unfolding booted_board write calloc
armed_board = refl

init_modes-Steps_example : (status_loop booted_board).status_armed ≡ false
init_modes-Steps_example =
    init_modes-Steps sdk board_devices (2 ^ 31) globals booted_board (status_loop booted_board)
      booted (go (status_timer booted_board armed_board) stay) shown_board

-- The paired board when it has got an address.
abbrev connected_board : Globals
connected_board = wifi_call_back (stamode_got_ip 1 2 3) globals

Steps-is_sta_paired_example :
    is_sta_paired (record connected_board { pairing = pairing }).current_mode ≡ false
Steps-is_sta_paired_example =
    Steps-is_sta_paired board_devices (2 ^ 31) 1 2 3 globals
      (record connected_board { pairing = pairing }) refl
      (go
        (datagram connected_board pairing connected_board.config connected_board.outlets
          connected_board.outputs)
        stay)

clock_ticks_example :
    ticks (2 ^ 31) (10 * 60) globals
    ≡ ok (record globals { ntp_unix_timestamp = 100 + 9 * 60; seconds_since_boot = 7 + 10 * 60 })
clock_ticks_example = clock_ticks (2 ^ 31) 60 globals (omega arith) (omega arith) (omega arith)
