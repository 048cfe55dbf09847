-- ===== src/Firmware/Agreement.antt =====
-- The two versions of `deviceCallBack`: of src/esp8266/user/user_main.c and of src/bin/device.c.
use dpd_chat_fabric.Prelude.{
  ◌≡◌, refl, ap, ◌∙◌, inl, inr, false, List, [], ◌∷◌, map, ◌==◌, Bool-cases,
}
use dpd_chat_fabric.Types.Commands.{action_get, action_set}
use dpd_chat_fabric.Types.Structs.{ChatPacket, Control}
use dpd_chat_fabric.Programs.Device.{visit_control, visit_controls}
use dpd_chat_fabric.Firmware.Outlets.{
  has_function, Outlet, Adc, Board, get_outlet, set_outlet, visit_outlet, visit_outlets,
}

abbrev pub shared_of : Outlet → Control
shared_of o = o.shared

-- Controls that may be set, and that are not read by a function.
abbrev pub ArePlain : List Outlet → Type 0
ArePlain [] = Unit
ArePlain (o ∷ os) =
    ((o.read_only == 1) ≡ false) × (has_function o.read_function ≡ false) × ArePlain os

visit_outlet-visit_control :
    (adc : Adc) (cp : ChatPacket) (o : Outlet) (b : Board)
    → (o.read_only == 1) ≡ false
    → has_function o.read_function ≡ false
    → ◌≡◌ {A = Control × ChatPacket}
        ((visit_outlet adc cp o b).0.shared, (visit_outlet adc cp o b).1.reply)
        (visit_control cp o.shared b.reply)
unfolding visit_outlet get_outlet set_outlet visit_control
visit_outlet-visit_control adc cp o b writable plain =
    elim (Bool-cases ((o.shared).control == cp.action_control)) [
      | inr e ↦ rw e refl
      | inl e ↦ elim (Bool-cases (cp.action == action_get)) [
        | inl get ↦ rw (e, get, plain) refl
        | inr other ↦ elim (Bool-cases (cp.action == action_set)) [
          | inl set ↦ rw (e, other, set, writable) refl
          | inr neither ↦ rw (e, other, neither) refl
        ]
      ]
    ]

-- On controls that may be set and are not read by a function, the firmware leaves the controls and the
-- reply that the program leaves.
pub visit_outlets-visit_controls :
    (adc : Adc) (cp : ChatPacket) (os : List Outlet) (b : Board)
    → ArePlain os
    → ◌≡◌ {A = List Control × ChatPacket}
        (map shared_of (visit_outlets adc cp os b).0, (visit_outlets adc cp os b).1.reply)
        (visit_controls cp (map shared_of os) b.reply)
unfolding visit_outlets visit_controls
visit_outlets-visit_controls adc cp [] b w = refl
visit_outlets-visit_controls adc cp (o ∷ os) b w =
    let one = visit_outlet-visit_control adc cp o b w.0 w.1 in
    let rest = visit_outlets-visit_controls adc cp os (visit_outlet adc cp o b).1 w.2 in
    let Result : Type 0 = List Control × ChatPacket in
    let behind : Control → Result → Result = λ c s. (c ∷ s.0, s.1) in
    let both : Control × ChatPacket → Result =
      λ r. behind r.0 (visit_controls cp (map shared_of os) r.1) in
    ap (behind (visit_outlet adc cp o b).0.shared) rest ∙ ap both one
