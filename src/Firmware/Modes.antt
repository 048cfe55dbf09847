-- ===== src/Firmware/Modes.antt =====
-- The mode that the firmware shows: `user_init_stage2`, `statusLoop` and `clock_loop` of
-- src/esp8266/user/user_main.c, and everything that happens after a boot, as steps.
pub mod Shown
pub mod Booted
pub mod Clock
use dpd_chat_fabric.Prelude.{
  ℕ, suc, zero, ◌+◌, ◌%◌, ◌≡◌, Bool, true, false, not, ◌&&◌, ltb, ◌==◌, List, Outcome, ok, fault,
  ◌>>=◌, if◌then◌else◌,
}
use dpd_chat_fabric.Types.Structs.{Config, Pairing}
use dpd_chat_fabric.Firmware.Outlets.{Outlet, Output, gpio_init_from_config}
use dpd_chat_fabric.Firmware.Globals.{
  DeviceModes, mode_sta_unpaired, mode_sta_paired, mode_menu_none, Sdk, Globals,
}
use dpd_chat_fabric.Firmware.Wifi.{Event, wifi_call_back, ntp20_check, wifi_init}
use dpd_chat_fabric.Firmware.Shell.Commands.{Devices, process_command}

abbrev pub is_menu_none : DeviceModes → Bool
is_menu_none mode_menu_none = true
is_menu_none _ = false

-- `user_init_stage2`, from the choice of the mode on.
unfoldable pub init_modes : Sdk → Globals → Outcome Globals
unfolding wifi_init gpio_init_from_config
init_modes sdk g = do
  let chosen = record g {
    current_mode = if (g.config).has_pairs == 0 then mode_sta_unpaired else mode_sta_paired;
  }
  set ← wifi_init sdk chosen
  ok (record set {
    debug = (set.config).debug;
    outputs = gpio_init_from_config set.outlets set.outputs;
    status_armed = true;
  })

-- `statusLoop`.
unfoldable pub status_loop : Globals → Globals
status_loop g =
    let paired = not ((g.pairing).has_public_key == 0) && is_menu_none g.menu_item in
    record g {
      status_armed = false;
      current_mode = if paired then mode_sta_paired else g.current_mode;
    }

-- `clock_loop`. A `time_t` that goes past its limit is undefined.
unfoldable pub clock_loop : ℕ → Globals → Outcome Globals
clock_loop limit g =
    let counts = ltb 0 g.ntp_unix_timestamp && not (g.seconds_since_boot % 10 == 0) in
    let stamp = if counts then g.ntp_unix_timestamp + 1 else g.ntp_unix_timestamp in
    if ltb stamp limit && ltb (g.seconds_since_boot + 1) limit
    then ok (record g { ntp_unix_timestamp = stamp; seconds_since_boot = g.seconds_since_boot + 1 })
    else fault

-- The next n ticks.
unfoldable pub ticks : ℕ → ℕ → Globals → Outcome Globals
unfolding clock_loop
ticks limit zero g = ok g
ticks limit (suc n) g = do next ← clock_loop limit g; ticks limit n next

-- What happens to the globals. A datagram may leave any pairing, configuration and pins behind.
pub data Step (d : Devices) (limit : ℕ) : Globals → Globals → Type 0 where
  wifi_event : (e : Event) (g : Globals) → Step d limit g (wifi_call_back e g)
  ntp_timer : (stamp : ℕ) (g : Globals) → Step d limit g (ntp20_check stamp g)
  status_timer : (g : Globals) → g.status_armed ≡ true → Step d limit g (status_loop g)
  clock_tick : (g next : Globals) → clock_loop limit g ≡ ok next → Step d limit g next
  shell_line : (str : List ℕ) (g : Globals) → Step d limit g (process_command d str g)
  datagram :
      (g : Globals) (pairing : Pairing) (config : Config) (outlets : List Outlet)
      (outputs : List Output)
      → Step d limit g
          (record g { pairing = pairing; config = config; outlets = outlets; outputs = outputs })

pub data Steps (d : Devices) (limit : ℕ) : Globals → Globals → Type 0 where
  stay : {g : Globals} → Steps d limit g g
  go :
      {g next last : Globals} → Step d limit g next → Steps d limit next last → Steps d limit g last
