-- ===== src/Firmware/Modes/Shown.antt =====
-- What mode the firmware shows after a boot (src/esp8266/user/user_main.c,
-- src/esp8266/espChatFabric/esp-cf-wifi.c).
use dpd_chat_fabric.Prelude.{
  ℕ, ◌≡◌, ◌⊎◌, refl, sym, ◌∙◌, ap, Bool, true, false, ◌==◌, List, ok, inl, inr, Bool-cases, arith,
}
use dpd_chat_fabric.Firmware.Globals.{DeviceModes, mode_sta_paired, Globals}
use dpd_chat_fabric.Firmware.Wifi.{
  Event, stamode_connected, stamode_disconnected, stamode_authmode_change, softapmode_staconnected,
  softapmode_stadisconnected, unknown_event, stamode_got_ip, wifi_call_back, ntp20_check,
}
use dpd_chat_fabric.Firmware.Shell.Commands.{
  Devices, ShellCommand, gpio, ota, restart, unpair, init_command, debugon, debugoff, saveconfig,
  readconfig, help, pwm, sxinit, sx, config_command, ip_command, info_command, raw0, raw1, raw2,
  raw3, unknown_command, command_names, command_word, shell_command, run_command, process_command,
}
use dpd_chat_fabric.Firmware.Modes.{
  status_loop, clock_loop, Step, wifi_event, ntp_timer, status_timer, clock_tick, shell_line,
  datagram, Steps, stay, go,
}

unfoldable pub is_sta_paired : DeviceModes → Bool
is_sta_paired mode_sta_paired = true
is_sta_paired _ = false

-- A mode of paired is shown only where it was shown, and the timer is as it was.
record Keeps (g next : Globals) : Type 0 where
  armed : next.status_armed ≡ g.status_armed
  mode : is_sta_paired next.current_mode ≡ true → is_sta_paired g.current_mode ≡ true

unchanged :
    {g next : Globals}
    → next.status_armed ≡ g.status_armed
    → next.current_mode ≡ g.current_mode
    → Keeps g next
unchanged p q = record { armed = p; mode = λ h. sym (ap is_sta_paired q) ∙ h }

unpaired :
    {g next : Globals}
    → next.status_armed ≡ g.status_armed
    → is_sta_paired next.current_mode ≡ false
    → Keeps g next
unpaired p q = record { armed = p; mode = λ h. absurd (ground (arith, h, q)) }

wifi-Keeps : (e : Event) (g : Globals) → Keeps g (wifi_call_back e g)
unfolding wifi_call_back is_sta_paired
wifi-Keeps stamode_connected g = unpaired refl refl
wifi-Keeps stamode_disconnected g = unpaired refl refl
wifi-Keeps stamode_authmode_change g = unchanged refl refl
wifi-Keeps (stamode_got_ip ip mask gw) g = unpaired refl refl
wifi-Keeps softapmode_staconnected g = unchanged refl refl
wifi-Keeps softapmode_stadisconnected g = unchanged refl refl
wifi-Keeps unknown_event g = unchanged refl refl

ntp-Keeps : (stamp : ℕ) (g : Globals) → Keeps g (ntp20_check stamp g)
ntp-Keeps stamp g = elim (Bool-cases (stamp == 0)) [
  | inl e ↦ rw e (unchanged refl refl)
  | inr e ↦ rw e (unchanged refl refl)
]

clock-Keeps : (limit : ℕ) (g next : Globals) → clock_loop limit g ≡ ok next → Keeps g next
unfolding clock_loop
clock-Keeps limit g next e = unchanged (ground (arith, e)) (ground (arith, e))

run_command-Keeps :
    (d : Devices) (str : List ℕ) (c : ShellCommand) (g : Globals) → Keeps g (run_command d str c g)
unfolding run_command is_sta_paired
run_command-Keeps d str gpio g = unchanged refl refl
run_command-Keeps d str ota g = unchanged refl refl
run_command-Keeps d str restart g = unchanged refl refl
run_command-Keeps d str unpair g = unpaired refl refl
run_command-Keeps d str init_command g = unpaired refl refl
run_command-Keeps d str debugon g = unchanged refl refl
run_command-Keeps d str debugoff g = unchanged refl refl
run_command-Keeps d str saveconfig g = unchanged refl refl
run_command-Keeps d str readconfig g = unchanged refl refl
run_command-Keeps d str help g = unchanged refl refl
run_command-Keeps d str pwm g = unchanged refl refl
run_command-Keeps d str sxinit g = unchanged refl refl
run_command-Keeps d str sx g = unchanged refl refl
run_command-Keeps d str config_command g = unchanged refl refl
run_command-Keeps d str ip_command g = unchanged refl refl
run_command-Keeps d str info_command g = unchanged refl refl
run_command-Keeps d str raw0 g = unchanged refl refl
run_command-Keeps d str raw1 g = unchanged refl refl
run_command-Keeps d str raw2 g = unchanged refl refl
run_command-Keeps d str raw3 g = unchanged refl refl
run_command-Keeps d str unknown_command g = unchanged refl refl

Step-Keeps :
    (d : Devices) (limit : ℕ) {g next : Globals}
    → Step d limit g next
    → ((g.status_armed ≡ true) × (next ≡ status_loop g)) ⊎ Keeps g next
unfolding process_command
Step-Keeps d limit (wifi_event e g) = inr (wifi-Keeps e g)
Step-Keeps d limit (ntp_timer stamp g) = inr (ntp-Keeps stamp g)
Step-Keeps d limit (status_timer g armed) = inl (armed, refl)
Step-Keeps d limit (clock_tick g next e) = inr (clock-Keeps limit g next e)
Step-Keeps d limit (shell_line str g) =
    inr (run_command-Keeps d str (shell_command command_names (command_word str 0)) g)
Step-Keeps d limit (datagram g pairing config outlets outputs) = inr (unchanged refl refl)

-- Before the timer has run, no mode of paired is shown.
pub data Phase (g : Globals) : Type 0 where
  waiting : is_sta_paired g.current_mode ≡ false → Phase g
  over : g.status_armed ≡ false → Phase g

keeps-Phase : {g next : Globals} → Keeps g next → Phase g → Phase next
keeps-Phase k (waiting h) = waiting (ground (arith, k.mode, h))
keeps-Phase k (over h) = over (k.armed ∙ h)

Step-Phase :
    (d : Devices) (limit : ℕ) {g next : Globals} → Step d limit g next → Phase g → Phase next
unfolding status_loop
Step-Phase d limit {g} s p = elim (Step-Keeps d limit s) [
  | inl (armed, e) ↦ over (ap (λ r. r.status_armed) e)
  | inr k ↦ keeps-Phase k p
]

pub Steps-Phase :
    (d : Devices) (limit : ℕ) {g last : Globals} → Steps d limit g last → Phase g → Phase last
Steps-Phase d limit stay p = p
Steps-Phase d limit (go s more) p = Steps-Phase d limit more (Step-Phase d limit s p)

-- The timer has run, and no mode of paired is shown.
record IsLost (g : Globals) : Type 0 where
  timer : g.status_armed ≡ false
  other : is_sta_paired g.current_mode ≡ false

Step-IsLost :
    (d : Devices) (limit : ℕ) {g next : Globals} → Step d limit g next → IsLost g → IsLost next
Step-IsLost d limit {g} s lost = elim (Step-Keeps d limit s) [
  | inl (armed, e) ↦ absurd (ground (arith, armed, lost.timer))
  | inr k ↦ record { timer = k.armed ∙ lost.timer; other = ground (arith, k.mode, lost.other) }
]

Steps-IsLost :
    (d : Devices) (limit : ℕ) {g last : Globals} → Steps d limit g last → IsLost g → IsLost last
Steps-IsLost d limit stay lost = lost
Steps-IsLost d limit (go s more) lost = Steps-IsLost d limit more (Step-IsLost d limit s lost)

-- If the station gets an address after the status timer has run, then MODE_STA_PAIRED is not shown again,
-- whatever follows: events, timers, ticks, commands and datagrams, which may leave any pairing behind.
pub Steps-is_sta_paired :
    (d : Devices) (limit ip mask gw : ℕ) (g last : Globals)
    → g.status_armed ≡ false
    → Steps d limit (wifi_call_back (stamode_got_ip ip mask gw) g) last
    → is_sta_paired last.current_mode ≡ false
unfolding wifi_call_back is_sta_paired
Steps-is_sta_paired d limit ip mask gw g last e run =
    (Steps-IsLost d limit run (record { timer = e; other = refl })).other
