-- ===== src/Tests/Bits.antt =====
-- Pins that are driven by shifting a value onto them, for the theorems on the firmware's pins.
use dpd_chat_fabric.Prelude.{
  ℕ, zero, suc, ◌-◌, ◌/◌, ◌%◌, ◌≤◌, ◌<◌, ◌≡◌, refl, ap, ◌∙◌, inl, inr, ◌==◌, ltb, if◌then◌else◌,
  Bool-cases, ==_refl, arith,
}
use dpd_chat_fabric.Firmware.Outlets.{Output, gpio16_output_set, gpio_output_set}
use dpd_chat_fabric.Firmware.Pins.{Pins, PinLaws}

-- Bit n of v.
bit_at : ℕ → ℕ → ℕ
bit_at v zero = v % 2
bit_at v (suc n) = bit_at (v / 2) n

bit_at_zero : (n : ℕ) → bit_at 0 n ≡ 0
unfolding bit_at
bit_at_zero zero = refl
bit_at_zero (suc n) = bit_at_zero n

bit_at-past : (v n : ℕ) → v ≤ 1 → 0 < n → bit_at v n ≡ 0
unfolding bit_at
bit_at-past v zero h k = absurd (omega arith)
bit_at-past v (suc n) h k =
    let e : v / 2 ≡ 0 = omega arith in ap (λ r. bit_at r n) e ∙ bit_at_zero n

pub shifted : Output → ℕ → ℕ → ℕ
unfolding bit_at
shifted (gpio16_output_set v) p l = if p == 16 then v % 2 else l
shifted (gpio_output_set q v) p l =
    if p == q then v % 2 else (if ltb p q then l else (if bit_at v (p - q) == 1 then 1 else l))

abbrev pub shifting_pins : Pins
shifting_pins = record { drive = shifted }

pub shifting_pins-PinLaws : PinLaws shifting_pins
unfolding shifted
shifting_pins-PinLaws = record {
  sets_pin16 = λ v l h. omega arith;
  leaves_pin16 = λ v p l n. ground (arith, n);
  sets_pin = λ q v l h k. rw (==_refl q) (omega arith);
  leaves_pin = λ q v p l h k n. elim (Bool-cases (ltb p q)) [
    | inl e ↦ ground (arith, n, e)
    | inr e ↦ ground (arith, n, e, bit_at-past v (p - q) k)
  ];
}
