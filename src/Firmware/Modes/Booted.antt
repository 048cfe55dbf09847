-- ===== src/Firmware/Modes/Booted.antt =====
-- The mode after `espWiFiInit` (src/esp8266/espChatFabric/esp-cf-wifi.c) and the boot.
use dpd_chat_fabric.Prelude.{
  ℕ, ◌≡◌, refl, subst, true, false, ◌||◌, ◌==◌, Outcome, ok, fault, no_fuel, ◌>>=◌, inl, inr,
  Bool-cases, arith,
}
use dpd_chat_fabric.Types.Structs.{Config}
use dpd_chat_fabric.Firmware.Globals.{Sdk, Globals}
use dpd_chat_fabric.Firmware.Wifi.{
  radio_mode, access_point_init, station_init, wifi_init, softap_config, station_config,
}
use dpd_chat_fabric.Firmware.Shell.Commands.{Devices}
use dpd_chat_fabric.Firmware.Modes.{init_modes, Steps}
use dpd_chat_fabric.Firmware.Modes.Shown.{is_sta_paired, waiting, over, Steps-Phase}

-- The predicate holds of the result, if there is one.
data Yields {ℓ} {A : Type ℓ} (P : A → Type 0) : Outcome A → Type ℓ where
  yields : {a : A} → P a → Yields P (ok a)
  no_result : Yields P fault
  no_end : Yields P no_fuel

from_result {ℓ} :
    {A : Type ℓ} {P : A → Type 0} {m : Outcome A} {a : A} → m ≡ ok a → Yields P m → P a
from_result {P} {a} e y = elim (subst (Yields P) e y) [ yields p ↦ p ]

Yields-after {ℓ κ} :
    {A : Type ℓ} {B : Type κ} {P : B → Type 0} (m : Outcome A) (f : A → Outcome B)
    → ((a : A) → Yields P (f a))
    → Yields P (m >>= f)
Yields-after (ok a) f h = h a
Yields-after fault f h = no_result
Yields-after no_fuel f h = no_end

IsUnpaired : Globals → Type 0
IsUnpaired g = is_sta_paired g.current_mode ≡ false

access_point-IsUnpaired : (sdk : Sdk) (g : Globals) → Yields IsUnpaired (access_point_init sdk g)
unfolding access_point_init is_sta_paired IsUnpaired
access_point-IsUnpaired sdk g = Yields-after (softap_config sdk g.config) _ (λ made.
    elim (Bool-cases ((g.config).wifi_ap_dhcps_switch == 1)) [
      | inl e ↦ rw e (yields refl)
      | inr e ↦ rw e (yields refl)
    ])

station-IsUnpaired : (g : Globals) → Yields IsUnpaired (station_init g)
unfolding station_init is_sta_paired IsUnpaired
station-IsUnpaired g = Yields-after (station_config g.config) _ (λ station.
    elim (Bool-cases ((g.config).dhcp_client_switch == 1)) [
      | inl e ↦ rw e (yields refl)
      | inr e ↦ rw e (yields refl)
    ])

both-Yield :
    (m : Outcome Globals) (f : Globals → Outcome Globals)
    → Yields IsUnpaired m
    → ((g : Globals) → IsUnpaired g → Yields IsUnpaired (f g))
    → Yields IsUnpaired (m >>= f)
both-Yield (ok a) f (yields p) h = h a p
both-Yield fault f y h = no_result
both-Yield no_fuel f y h = no_end

-- The radio has one of the three modes.
radio_mode-cases :
    (sdk : Sdk) (config : Config)
    → (radio_mode sdk config == sdk.softap_mode || radio_mode sdk config == sdk.stationap_mode)
      ≡ false
    → (radio_mode sdk config == sdk.station_mode) ≡ true
unfolding radio_mode
radio_mode-cases sdk config h = ground (arith, h)

wifi-IsUnpaired : (sdk : Sdk) (g : Globals) → Yields IsUnpaired (wifi_init sdk g)
unfolding wifi_init IsUnpaired is_sta_paired
wifi-IsUnpaired sdk g =
    let mode : ℕ = radio_mode sdk g.config in
    elim (Bool-cases (mode == sdk.softap_mode || mode == sdk.stationap_mode)) [
      | inl e ↦ elim (Bool-cases (mode == sdk.stationap_mode || mode == sdk.station_mode)) [
        | inl f ↦
            rw (e, f)
              (both-Yield _ _ (access_point-IsUnpaired sdk _)
                (λ served u. both-Yield _ _ (station-IsUnpaired served) (λ joined v. yields v)))
        | inr f ↦ rw (e, f) (both-Yield _ _ (access_point-IsUnpaired sdk _) (λ served u. yields u))
      ]
      | inr e ↦
          let f : (mode == sdk.stationap_mode || mode == sdk.station_mode) ≡ true =
            ground (arith, radio_mode-cases sdk g.config e) in
          rw (e, f) (both-Yield _ _ (station-IsUnpaired _) (λ joined v. yields v))
    ]

booted-IsUnpaired : (sdk : Sdk) (g : Globals) → Yields IsUnpaired (init_modes sdk g)
unfolding init_modes IsUnpaired is_sta_paired
booted-IsUnpaired sdk g = both-Yield _ _ (wifi-IsUnpaired sdk _) (λ set u. yields u)

-- After a boot, whatever follows, MODE_STA_PAIRED is shown only once the status timer has run.
pub init_modes-Steps :
    (sdk : Sdk) (d : Devices) (limit : ℕ) (g booted last : Globals)
    → init_modes sdk g ≡ ok booted
    → Steps d limit booted last
    → is_sta_paired last.current_mode ≡ true
    → last.status_armed ≡ false
unfolding IsUnpaired
init_modes-Steps sdk d limit g booted last e run shown =
    elim (Steps-Phase d limit run (waiting (from_result e (booted-IsUnpaired sdk g)))) [
      | waiting h ↦ absurd (ground (arith, h, shown))
      | over h ↦ h
    ]
