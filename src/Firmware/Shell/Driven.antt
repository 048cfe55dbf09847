-- ===== src/Firmware/Shell/Driven.antt =====
-- The pins after a command of the shell (src/esp8266/shell/shell.c).
use dpd_chat_fabric.Prelude.{
  ℕ, ◌%◌, ◌≤◌, ◌<◌, ◌≡◌, ◌≢◌, refl, ap, ◌∙◌, inl, inr, List, [], ◌∷◌, ◌++◌, length, ok, ◌==◌,
  if◌then◌else◌, Bool-cases, arith,
}
use dpd_chat_fabric.Firmware.Pins.{Pins, PinLaws, level_at}
use dpd_chat_fabric.Firmware.Outlets.{gpio16_output_set}
use dpd_chat_fabric.Firmware.Globals.{Globals}
use dpd_chat_fabric.Firmware.Shell.Commands.{Devices, gpio_command, type_characters}
use dpd_chat_fabric.Firmware.Shell.Typed.{ArePrinted, gpio_line, type_characters-gpio_command}

-- Whether a number is on, as a byte.
abbrev pub byte_on : ℕ → ℕ
byte_on value = if value % 256 == 0 then 0 else 1

byte_on-bit : (value : ℕ) → byte_on value ≤ 1
byte_on-bit value = ground arith

module _ (w : Pins) (laws : PinLaws w) (ch value : ℕ) (low : ch % 256 ≤ 16) where
  gpio_command-own : (l : ℕ) → w.drive (gpio_command ch value) (ch % 256) l ≡ byte_on value
  unfolding gpio_command
  gpio_command-own l = elim (Bool-cases (ch % 256 == 16)) [
    | inl e ↦
        let at : ch % 256 ≡ 16 = ground (arith, e) in
        rw e (
          ap (λ p. w.drive (gpio16_output_set (byte_on value)) p l) at
          ∙ laws.sets_pin16 (byte_on value) l (byte_on-bit value))
    | inr e ↦
        rw e
          (laws.sets_pin (ch % 256) (byte_on value) l (ground (arith, e, low)) (byte_on-bit value))
  ]

  gpio_command-other : (p l : ℕ) → p ≢ ch % 256 → w.drive (gpio_command ch value) p l ≡ l
  unfolding gpio_command
  gpio_command-other p l n = elim (Bool-cases (ch % 256 == 16)) [
    | inl e ↦ rw e (laws.leaves_pin16 (byte_on value) p l (ground (arith, e, n)))
    | inr e ↦ rw e (
        laws.leaves_pin (ch % 256) (byte_on value) p l (ground (arith, e, low)) (byte_on-bit value)
          n)
  ]

-- What is left when the pin has been set: it is high or low, the other pins and globals are as before.
pub record IsDriven (w : Pins) (before : ℕ → ℕ) (pin l : ℕ) (g g' : Globals) : Type 0 where
  pub driven : level_at w g'.outputs before pin ≡ l
  pub other_pins :
      (p : ℕ) → p ≢ pin → level_at w g'.outputs before p ≡ level_at w g.outputs before p
  pub other_globals : record g' { outputs = g.outputs } ≡ g

-- If v and w are printed characters, the line has fewer than 63 characters and v is the number of a pin,
-- up to 16 and modulo 256, typing "gpio v w" and the end of the line into a new shell leaves that pin
-- low if w is a number that 256 divides, and else high, and leaves the other pins and the other globals
-- as they were, where the pins obey calls with 0 and 1.
pub type_characters-gpio :
    (pins : Pins) (before : ℕ → ℕ) (d : Devices) (v w : List ℕ) (g : Globals)
    → PinLaws pins
    → ArePrinted v
    → ArePrinted w
    → length (gpio_line v w) < 63
    → d.atoi v % 256 ≤ 16
    → (g' : Globals) × (type_characters d (gpio_line v w ++ (b'\n' ∷ [])) g ≡ ok g')
      × IsDriven pins before (d.atoi v % 256) (if d.atoi w % 256 == 0 then 0 else 1) g g'
unfolding level_at
type_characters-gpio pins before d v w g laws pv pw short low = (
  record g { outputs = gpio_command (d.atoi v) (d.atoi w) ∷ g.outputs },
  type_characters-gpio_command d v w g pv pw short,
  record {
    driven =
        gpio_command-own pins laws (d.atoi v) (d.atoi w) low
          (level_at pins g.outputs before (d.atoi v % 256));
    other_pins = λ p n.
        gpio_command-other pins laws (d.atoi v) (d.atoi w) low p (level_at pins g.outputs before p)
          n;
    other_globals = refl;
  },
)
