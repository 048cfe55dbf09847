-- ===== src/Firmware/Visits.antt =====
-- What one packet does to the pins of the board (src/esp8266/user/user_main.c).
use dpd_chat_fabric.Prelude.{
  ℕ, ◌≤◌, ◌≡◌, ◌≢◌, refl, inl, inr, true, not, ◌&&◌, ◌==◌, Bool-cases, arith,
}
use dpd_chat_fabric.Types.Commands.{action_get, action_set, action_type_boolean}
use dpd_chat_fabric.Types.Structs.{ChatPacket}
use dpd_chat_fabric.Firmware.Outlets.{
  has_function, Outlet, with_value, Adc, Board, get_outlet, set_outlet, visit_outlet,
}
use dpd_chat_fabric.Firmware.Pins.{
  Pins, PinLaws, level_at, IsBit, IsOutlet, IsShown, level_at-own, level_at-other,
}

module _ (w : Pins) (laws : PinLaws w) (before : ℕ → ℕ) (adc : Adc) (cp : ChatPacket)
    (bit : cp.action_value ≤ 1) where
  with_value-IsBit : (o : Outlet) → IsBit o → IsBit (with_value cp.action_value o)
  with_value-IsBit o b = record { value_bit = bit; mask_bit = b.mask_bit; pin = b.pin }

  set_outlet-other :
      (p : ℕ) (o : Outlet) (b : Board)
      → IsOutlet o
      → o.gpio ≢ p
      → level_at w ((set_outlet cp o b).1.outputs) before p ≡ level_at w b.outputs before p
  unfolding set_outlet
  set_outlet-other p o b i n = elim (Bool-cases ((o.shared).type == action_type_boolean)) [
    | inl e ↦
        let boolean : (o.shared).type ≡ action_type_boolean = ground (arith, e) in
        rw e (
          level_at-other w laws before p (with_value cp.action_value o) b.outputs
            (with_value-IsBit o (i.bit boolean)) n)
    | inr e ↦ rw e refl
  ]

  -- What holds of what setting and reading leave holds of what a packet leaves.
  visit_outlet-by :
      (P : Outlet × Board → Type 0) (o : Outlet) (b : Board)
      → P (o, b)
      → P (get_outlet adc cp o b)
      → P (set_outlet cp o b)
      → P (visit_outlet adc cp o b)
  unfolding visit_outlet
  visit_outlet-by P o b kept got set = elim (Bool-cases ((o.shared).control == cp.action_control)) [
    | inr e ↦ rw e kept
    | inl e ↦ elim (Bool-cases (cp.action == action_get)) [
      | inl get ↦ rw (e, get) got
      | inr other ↦ elim (Bool-cases (cp.action == action_set && not (o.read_only == 1))) [
        | inl sets ↦ rw (e, other, sets) set
        | inr neither ↦ rw (e, other, neither) kept
      ]
    ]
  ]

  pub visit_outlet-other :
      (p : ℕ) (o : Outlet) (b : Board)
      → IsOutlet o
      → o.gpio ≢ p
      → level_at w ((visit_outlet adc cp o b).1.outputs) before p ≡ level_at w b.outputs before p
  unfolding get_outlet
  visit_outlet-other p o b i n =
      visit_outlet-by (λ seen. level_at w (seen.1.outputs) before p ≡ level_at w b.outputs before p)
        o b refl refl (set_outlet-other p o b i n)

  pub visit_outlet-gpio : (o : Outlet) (b : Board) → (visit_outlet adc cp o b).0.gpio ≡ o.gpio
  unfolding get_outlet set_outlet
  visit_outlet-gpio o b =
      visit_outlet-by (λ seen. seen.0.gpio ≡ o.gpio) o b refl (ground arith) refl

  get_outlet-IsOutlet : (o : Outlet) (b : Board) → IsOutlet o → IsOutlet (get_outlet adc cp o b).0
  unfolding get_outlet
  get_outlet-IsOutlet o b i = elim (Bool-cases (has_function o.read_function)) [
    | inl e ↦
        rw e (record {
          plain = i.plain;
          bit = λ boolean. absurd (ground (arith, i.plain, e, boolean));
        })
    | inr e ↦ rw e i
  ]

  pub visit_outlet-IsOutlet :
      (o : Outlet) (b : Board) → IsOutlet o → IsOutlet (visit_outlet adc cp o b).0
  unfolding set_outlet
  visit_outlet-IsOutlet o b i =
      visit_outlet-by (λ seen. IsOutlet seen.0) o b i (get_outlet-IsOutlet o b i)
        (record { plain = i.plain; bit = λ boolean. with_value-IsBit o (i.bit boolean) })

  get_outlet-IsShown :
      (o : Outlet) (b : Board)
      → IsOutlet o
      → IsShown w before b.outputs o
      → IsShown w before ((get_outlet adc cp o b).1.outputs) (get_outlet adc cp o b).0
  unfolding get_outlet
  get_outlet-IsShown o b i shown = elim (Bool-cases (has_function o.read_function)) [
    | inl e ↦ rw e (λ boolean. absurd (ground (arith, i.plain, e, boolean)))
    | inr e ↦ rw e shown
  ]

  set_outlet-IsShown :
      (o : Outlet) (b : Board)
      → IsOutlet o
      → IsShown w before ((set_outlet cp o b).1.outputs) (set_outlet cp o b).0
  unfolding set_outlet
  set_outlet-IsShown o b i boolean =
      let e : ((o.shared).type == action_type_boolean) ≡ true = ground (arith, boolean) in
      rw e (
        level_at-own w laws before (with_value cp.action_value o) b.outputs
          (with_value-IsBit o (i.bit boolean)))

  pub visit_outlet-IsShown :
      (o : Outlet) (b : Board)
      → IsOutlet o
      → IsShown w before b.outputs o
      → IsShown w before ((visit_outlet adc cp o b).1.outputs) (visit_outlet adc cp o b).0
  visit_outlet-IsShown o b i shown =
      visit_outlet-by (λ seen. IsShown w before (seen.1.outputs) seen.0) o b shown
        (get_outlet-IsShown o b i shown) (set_outlet-IsShown o b i)
