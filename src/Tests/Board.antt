-- ===== src/Tests/Board.antt =====
-- The firmware's controls (src/esp8266/espChatFabric/esp-cf-config.c), and hexadecimal text.
use dpd_chat_fabric.Prelude.{
  ℕ, ◌/◌, ◌%◌, ◌-◌, ◌+◌, ◌≤◌, ◌≡◌, refl, true, Option, none, some, List, [], ◌∷◌, ◌++◌, length, map,
  replicate, ok, arith, ap, ◌*◌,
}
use dpd_chat_fabric.Types.Commands.{action_set}
use dpd_chat_fabric.Types.Structs.{ChatPacket, Control}
use dpd_chat_fabric.Programs.Device.{visit_controls}
use dpd_chat_fabric.Text.{Stdio, StdioLaws, AreBytes, none_left, one_more}
use dpd_chat_fabric.Text.Uuids.{reread, uuid_from_str-uuid_to_str}
use dpd_chat_fabric.Text.Dump.{bin2hex, hex_words, hex_size, bin2hex-hex_words}
use dpd_chat_fabric.Firmware.Outlets.{
  Board, Adc, gpio_output_set, gpio_init_from_config, level, visit_outlets,
}
use dpd_chat_fabric.Firmware.Pins.{AllShown, AreOutlets, StartBits, IsBit}
use dpd_chat_fabric.Tests.Bits.{shifting_pins, shifting_pins-PinLaws}
use dpd_chat_fabric.Firmware.Runs.{runs, started, call_back_on, runs-started}
use dpd_chat_fabric.Firmware.Agreement.{shared_of, visit_outlets-visit_controls}
use dpd_chat_fabric.Firmware.Settings.{top_outlet, bottom_outlet, board_outlets}
use dpd_chat_fabric.Tests.Data.{packet}

abbrev board : Board
board = record { outputs = []; conversions = 0; reply = packet }

abbrev conversions_at : Adc
conversions_at n = 500

abbrev switch_on : ChatPacket
switch_on = record packet { action = action_set; action_control = 1; action_value = 1 }

top_outlet-IsBit : IsBit top_outlet
top_outlet-IsBit = record { value_bit = omega arith; mask_bit = omega arith; pin = omega arith }

bottom_outlet-IsBit : IsBit bottom_outlet
bottom_outlet-IsBit = record { value_bit = omega arith; mask_bit = omega arith; pin = omega arith }

board_outlets-StartBits : StartBits board_outlets
board_outlets-StartBits = (
  (λ pin. top_outlet-IsBit),
  ((λ pin. bottom_outlet-IsBit), ((λ pin. absurd (omega (arith, pin))), tt)),
)

board_outlets-AreOutlets : AreOutlets board_outlets
board_outlets-AreOutlets = (
  record { plain = refl; bit = λ b. top_outlet-IsBit },
  ((λ e. absurd (omega (arith, e))), ((λ e. absurd (omega (arith, e))), tt)),
  (
    record { plain = refl; bit = λ b. bottom_outlet-IsBit },
    ((λ e. absurd (omega (arith, e))), tt),
    (record { plain = refl; bit = λ b. absurd (omega (arith, b)) }, tt, tt),
  ),
)

runs-started_example :
    AllShown shifting_pins
      (λ p. 0)
      ((runs conversions_at ((switch_on, packet) ∷ []) (started board_outlets board)).board).outputs
      (runs conversions_at ((switch_on, packet) ∷ []) (started board_outlets board)).outlets
runs-started_example =
    runs-started shifting_pins (λ p. 0) conversions_at ((switch_on, packet) ∷ []) board_outlets
      board shifting_pins-PinLaws (omega arith, tt) board_outlets-StartBits board_outlets-AreOutlets

-- The pin of the lower outlet is set.
runs-switch_on :
    ((runs conversions_at ((switch_on, packet) ∷ []) (started board_outlets board)).board).outputs
    ≡ gpio_output_set 13 1 ∷ gpio_output_set 13 0 ∷ gpio_output_set 12 0 ∷ []
unfolding runs call_back_on started gpio_init_from_config visit_outlets level
runs-switch_on = refl

visit_outlets-visit_controls_example :
    ◌≡◌ {A = List Control × ChatPacket}
      (
        map shared_of
            (visit_outlets conversions_at switch_on (top_outlet ∷ bottom_outlet ∷ []) board).0,
        (visit_outlets conversions_at switch_on (top_outlet ∷ bottom_outlet ∷ []) board).1.reply,
      )
      (visit_controls switch_on (map shared_of (top_outlet ∷ bottom_outlet ∷ [])) packet)
visit_outlets-visit_controls_example =
    visit_outlets-visit_controls conversions_at switch_on (top_outlet ∷ bottom_outlet ∷ []) board
      (refl, refl, (refl, refl, tt))

-- A `%02x` that prints two digits of base sixteen, from b'A' on for ten.
abbrev open_print : ℕ → List ℕ
open_print b = (b / 16 + 65) ∷ (b % 16 + 65) ∷ []

abbrev open_scan : List ℕ → Option (ℕ × List ℕ)
open_scan (x ∷ y ∷ rest) = some ((x - 65) * 16 + (y - 65), rest)
open_scan _ = none

abbrev open_stdio : Stdio
open_stdio = record { print_hex = open_print; scan_hex = open_scan }

open_stdio-StdioLaws : StdioLaws open_stdio
open_stdio-StdioLaws = record {
  two_digits = λ b h. refl;
  scanned = λ b rest h. ap (λ k. some (k, rest)) (omega arith);
}

bytes_below : AreBytes (1 ∷ 2 ∷ 3 ∷ 4 ∷ 255 ∷ [])
bytes_below = one_more (omega arith) (
    one_more (omega arith)
      (one_more (omega arith) (one_more (omega arith) (one_more (omega arith) none_left))))

bin2hex-hex_words_example :
    (bin2hex open_stdio (1 ∷ 2 ∷ 3 ∷ 4 ∷ 255 ∷ [])
      ≡ ok (
          hex_words open_stdio (1 ∷ 2 ∷ 3 ∷ 4 ∷ 255 ∷ [])
          ++ replicate
              (hex_size 5 + 1 - length (hex_words open_stdio (1 ∷ 2 ∷ 3 ∷ 4 ∷ 255 ∷ [])))
              0))
    × (length (hex_words open_stdio (1 ∷ 2 ∷ 3 ∷ 4 ∷ 255 ∷ [])) ≤ hex_size 5)
bin2hex-hex_words_example =
    bin2hex-hex_words open_stdio (1 ∷ 2 ∷ 3 ∷ 4 ∷ 255 ∷ []) open_stdio-StdioLaws bytes_below

abbrev some_uuid : List ℕ
some_uuid = 0 ∷ 1 ∷ 2 ∷ 3 ∷ 4 ∷ 5 ∷ 6 ∷ 7 ∷ 8 ∷ 9 ∷ 10 ∷ 11 ∷ 12 ∷ 13 ∷ 14 ∷ 255 ∷ []

some_uuid-AreBytes : AreBytes some_uuid
some_uuid-AreBytes = search (AreBytes.one_more, AreBytes.none_left, arith)

uuid_from_str-uuid_to_str_example :
    reread open_stdio (replicate 16 9) (replicate 38 7) 38 some_uuid ≡ ok ((some_uuid, true), true)
uuid_from_str-uuid_to_str_example =
    uuid_from_str-uuid_to_str open_stdio some_uuid (replicate 16 9) (replicate 38 7) 38
      open_stdio-StdioLaws some_uuid-AreBytes refl refl (omega arith) (omega arith)
