-- ===== src/Firmware/Pins.antt =====
-- The pins of the board, and what one packet does to them (src/esp8266/user/user_main.c). The calls that
-- drive the pins are Espressif's and a parameter.
use dpd_chat_fabric.Prelude.{
  ℕ, ◌%◌, ◌^◌, ◌≤◌, ◌<◌, ◌≡◌, ◌≢◌, ◌⊎◌, refl, sym, ap, ◌∙◌, inl, inr, false, ◌&&◌, List, [], ◌∷◌,
  ◌==◌, if◌then◌else◌, Bool-cases, arith,
}
use dpd_chat_fabric.Types.Commands.{action_type_boolean}
use dpd_chat_fabric.Firmware.Outlets.{
  has_function, Outlet, Output, gpio16_output_set, gpio_output_set, level, output_of,
}

-- The level of a pin after a call, from the one before.
pub record Pins : Type 0 where
  pub drive : Output → ℕ → ℕ → ℕ

-- With 0 or 1, a call sets its pin and leaves the others. Nothing is said of other values, which the
-- macro GPIO_OUTPUT_SET shifts onto the pins behind its own.
pub record PinLaws (w : Pins) : Type 0 where
  pub sets_pin16 : (v l : ℕ) → v ≤ 1 → w.drive (gpio16_output_set v) 16 l ≡ v
  pub leaves_pin16 : (v p l : ℕ) → p ≢ 16 → w.drive (gpio16_output_set v) p l ≡ l
  pub sets_pin : (q v l : ℕ) → q < 16 → v ≤ 1 → w.drive (gpio_output_set q v) q l ≡ v
  pub leaves_pin : (q v p l : ℕ) → q < 16 → v ≤ 1 → p ≢ q → w.drive (gpio_output_set q v) p l ≡ l

-- The level of a pin after some calls, the last first.
unfoldable pub level_at : Pins → List Output → (ℕ → ℕ) → ℕ → ℕ
level_at w [] before p = before p
level_at w (o ∷ os) before p = w.drive o p (level_at w os before p)

-- A control is on where its value and its mask differ.
unfoldable pub on_or_off : Outlet → ℕ
on_or_off o = if (o.shared).value == o.value_mask then 0 else 1

-- A value and a mask of one bit, on one of the seventeen pins.
pub record IsBit (o : Outlet) : Type 0 where
  pub value_bit : (o.shared).value ≤ 1
  pub mask_bit : o.value_mask ≤ 1
  pub pin : o.gpio ≤ 16

bit-cases : (n : ℕ) → n ≤ 1 → (n ≡ 0) ⊎ (n ≡ 1)
bit-cases n h = ground arith

on_or_off-bit : (o : Outlet) → on_or_off o ≤ 1
unfolding on_or_off
on_or_off-bit o = ground arith

level-on_or_off : (o : Outlet) → IsBit o → level o ≡ on_or_off o
unfolding level on_or_off
level-on_or_off o b = elim (bit-cases (o.shared).value b.value_bit) [
  | inl e ↦ elim (bit-cases o.value_mask b.mask_bit) [
    | inl f ↦ rw (e, f) refl
    | inr f ↦ rw (e, f) refl
  ]
  | inr e ↦ elim (bit-cases o.value_mask b.mask_bit) [
    | inl f ↦ rw (e, f) refl
    | inr f ↦ rw (e, f) refl
  ]
]

module _ (w : Pins) (laws : PinLaws w) where
  drive-own : (o : Outlet) (l : ℕ) → IsBit o → w.drive (output_of o) o.gpio l ≡ on_or_off o
  drive-own o l b = elim (Bool-cases (o.gpio == 16)) [
    | inl e ↦
        let at : o.gpio ≡ 16 = ground arith in
        let bits : level o % 256 ≡ on_or_off o =
          omega (arith, level-on_or_off o b, on_or_off-bit o) in
        rw (e, bits)
          (ap (λ p. w.drive (gpio16_output_set (on_or_off o)) p l) at
            ∙ laws.sets_pin16 (on_or_off o) l (on_or_off-bit o))
    | inr e ↦
        let low : o.gpio < 16 = ground (arith, b.pin) in
        rw (e, level-on_or_off o b) (laws.sets_pin o.gpio (on_or_off o) l low (on_or_off-bit o))
  ]

  drive-other : (o : Outlet) (p l : ℕ) → IsBit o → p ≢ o.gpio → w.drive (output_of o) p l ≡ l
  drive-other o p l b n = elim (Bool-cases (o.gpio == 16)) [
    | inl e ↦ rw e (laws.leaves_pin16 (level o % 256) p l (ground (arith, n)))
    | inr e ↦
        let low : o.gpio < 16 = ground (arith, b.pin) in
        rw (e, level-on_or_off o b)
          (laws.leaves_pin o.gpio (on_or_off o) p l low (on_or_off-bit o) n)
  ]

-- A boolean has bits and a pin, and is not read by a function.
pub record IsOutlet (o : Outlet) : Type 0 where
  pub plain : ((o.shared).type == action_type_boolean && has_function o.read_function) ≡ false
  pub bit : (o.shared).type ≡ action_type_boolean → IsBit o

-- No control of the list is on the pin.
abbrev pub Apart : ℕ → List Outlet → Type 0
Apart p [] = Unit
Apart p (o ∷ os) = (o.gpio ≢ p) × Apart p os

-- Such controls, on pins of their own.
abbrev pub AreOutlets : List Outlet → Type 0
AreOutlets [] = Unit
AreOutlets (o ∷ os) = IsOutlet o × Apart o.gpio os × AreOutlets os

-- Every control that has a pin has bits, so that the start drives no other pin.
abbrev pub StartBits : List Outlet → Type 0
StartBits [] = Unit
StartBits (o ∷ os) = (o.gpio < 2 ^ 31 → IsBit o) × StartBits os

module _ (w : Pins) (before : ℕ → ℕ) where
  -- The pin of a boolean control is high where its value and its mask differ, and else low.
  abbrev pub IsShown : List Output → Outlet → Type 0
  IsShown outputs o =
      (o.shared).type ≡ action_type_boolean → level_at w outputs before o.gpio ≡ on_or_off o

  abbrev pub AllShown : List Output → List Outlet → Type 0
  AllShown outputs [] = Unit
  AllShown outputs (o ∷ os) = IsShown outputs o × AllShown outputs os

module _ (w : Pins) (laws : PinLaws w) (before : ℕ → ℕ) where
  pub level_at-own :
      (o : Outlet) (outputs : List Output)
      → IsBit o
      → level_at w (output_of o ∷ outputs) before o.gpio ≡ on_or_off o
  unfolding level_at
  level_at-own o outputs b = drive-own w laws o (level_at w outputs before o.gpio) b

  pub level_at-other :
      (p : ℕ) (o : Outlet) (outputs : List Output)
      → IsBit o
      → o.gpio ≢ p
      → level_at w (output_of o ∷ outputs) before p ≡ level_at w outputs before p
  unfolding level_at
  level_at-other p o outputs b n =
      drive-other w laws o p (level_at w outputs before p) b (λ e. n (sym e))
