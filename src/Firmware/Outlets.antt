-- ===== src/Firmware/Outlets.antt =====
-- The controls of the board, and what packets do with them: `gpioInitFromConfig`, `deviceCallBack` and
-- `adcCallBack` of src/esp8266/user/user_main.c.
use dpd_chat_fabric.Prelude.{
  ℕ, suc, zero, ◌+◌, ◌/◌, ◌%◌, ◌^◌, bit_xor, Bool, true, false, not, ◌&&◌, List, [], ◌∷◌, ltb, ◌==◌,
  if◌then◌else◌, u32,
}
use dpd_chat_fabric.Types.Commands.{action_get, action_set, action_type_boolean}
use dpd_chat_fabric.Types.Structs.{ChatPacket, Control}
use dpd_chat_fabric.Programs.Device.{read_reply}

-- `readFuction`: null, or `adcCallBack`.
pub data ReadFunction : Type 0 where
  no_function adc_call_back : ReadFunction

abbrev pub has_function : ReadFunction → Bool
has_function no_function = false
has_function adc_call_back = true

-- A control with the fields that stay on the device. `gpio` is kept as its bit pattern.
pub record Outlet : Type 0 where
  pub shared : Control
  pub value_mask : ℕ
  pub gpio : ℕ
  pub read_only : ℕ
  pub read_function : ReadFunction

-- A pin that is set, by `gpio16_output_set` or by `GPIO_OUTPUT_SET`.
pub data Output : Type 0 where
  gpio16_output_set : ℕ → Output
  gpio_output_set : ℕ → ℕ → Output

-- The bits that a pin is set to. The call for pin 16 takes a `uint8`.
unfoldable pub level : Outlet → ℕ
level o = bit_xor (o.shared).value o.value_mask

abbrev pub output_of : Outlet → Output
output_of o =
    if o.gpio == 16 then gpio16_output_set (level o % 256) else gpio_output_set o.gpio (level o)

-- `config->controlers[i].gpio >= 0`.
abbrev pub has_pin : Outlet → Bool
has_pin o = ltb o.gpio (2 ^ 31)

-- What was set, the last first.
unfoldable pub gpio_init_from_config : List Outlet → List Output → List Output
gpio_init_from_config [] outputs = outputs
gpio_init_from_config (o ∷ os) outputs =
    gpio_init_from_config os (if has_pin o then output_of o ∷ outputs else outputs)

-- The conversions of the board, by their number.
abbrev pub Adc : Type 0
Adc = ℕ → ℕ

-- The sum of the next n conversions.
unfoldable pub adc_sum : Adc → ℕ → ℕ → ℕ
adc_sum adc zero at = 0
adc_sum adc (suc n) at = adc at + adc_sum adc n (at + 1)

-- `adcCallBack`: the average of twenty conversions, as a `uint16`.
unfoldable pub adc_value : Adc → ℕ → ℕ
unfolding adc_sum
adc_value adc at = u32 (adc_sum adc 20 at) / 20 % 2 ^ 16

-- What a packet changes besides the outlets.
pub record Board : Type 0 where
  pub outputs : List Output
  pub conversions : ℕ
  pub reply : ChatPacket

abbrev pub with_value : ℕ → Outlet → Outlet
with_value v o = record o { shared = record (o.shared) { value = v } }

-- An ACTION_GET: the control is read first, if it has a function for that.
unfoldable pub get_outlet : Adc → ChatPacket → Outlet → Board → Outlet × Board
unfolding adc_value
get_outlet adc cp o b =
    let reads = has_function o.read_function in
    let o' = if reads then with_value (adc_value adc b.conversions) o else o in
    (
      o',
      record b {
        conversions = if reads then b.conversions + 20 else b.conversions;
        reply = read_reply cp o'.shared b.reply;
      },
    )

-- An ACTION_SET: a boolean sets its pin.
unfoldable pub set_outlet : ChatPacket → Outlet → Board → Outlet × Board
set_outlet cp o b =
    let o' = with_value cp.action_value o in
    (
      o',
      record b {
        reply = read_reply cp o'.shared b.reply;
        outputs =
            if (o.shared).type == action_type_boolean then output_of o' ∷ b.outputs else b.outputs;
      },
    )

unfoldable pub visit_outlet : Adc → ChatPacket → Outlet → Board → Outlet × Board
unfolding get_outlet set_outlet
visit_outlet adc cp o b =
    if (o.shared).control == cp.action_control
    then (if cp.action == action_get
        then get_outlet adc cp o b
        else (if cp.action == action_set && not (o.read_only == 1)
            then set_outlet cp o b
            else (o, b)))
    else (o, b)

-- The loop of `deviceCallBack`.
unfoldable pub visit_outlets : Adc → ChatPacket → List Outlet → Board → List Outlet × Board
unfolding visit_outlet
visit_outlets adc cp [] b = ([], b)
visit_outlets adc cp (o ∷ os) b =
    let seen = visit_outlet adc cp o b in
    let rest = visit_outlets adc cp os seen.1 in (seen.0 ∷ rest.0, rest.1)
