-- ===== src/Firmware/Settings.antt =====
-- The controls of a board, as `espCfConfigInit` of src/esp8266/espChatFabric/esp-cf-config.c lists them.
use dpd_chat_fabric.Prelude.{ℕ, ◌-◌, ◌^◌, none, some, List, [], ◌∷◌, length}
use dpd_chat_fabric.Types.Commands.{action_type_boolean, action_type_gauge}
use dpd_chat_fabric.Types.Structs.{Control}
use dpd_chat_fabric.Firmware.Outlets.{Outlet, no_function, adc_call_back}

-- A control with a label of its own length and the value 0.
abbrev pub labelled_control : ℕ → ℕ → ℕ → List ℕ → Control
labelled_control i type high label = record {
  control = i;
  type = type;
  value = 0;
  range_low = 0;
  range_high = high;
  label_length = length label;
  label = some label;
  data_bytes = none;
}

abbrev pub top_outlet : Outlet
top_outlet = record {
  shared =
      labelled_control 0 action_type_boolean 1
        (b'T' ∷ b'o' ∷ b'p' ∷ b' ' ∷ b'O' ∷ b'u' ∷ b't' ∷ b'l' ∷ b'e' ∷ b't' ∷ []);
  value_mask = 0;
  gpio = 12;
  read_only = 0;
  read_function = no_function;
}

abbrev pub bottom_outlet : Outlet
bottom_outlet = record {
  shared = labelled_control 1 action_type_boolean 1 (
      b'B' ∷ b'o' ∷ b't' ∷ b't' ∷ b'o' ∷ b'm' ∷ b' ' ∷ b'O' ∷ b'u' ∷ b't' ∷ b'l' ∷ b'e' ∷ b't'
      ∷ []);
  value_mask = 0;
  gpio = 13;
  read_only = 0;
  read_function = no_function;
}

abbrev pub adc_gauge : Outlet
adc_gauge = record {
  shared = labelled_control 2 action_type_gauge 1024 (b'A' ∷ b'D' ∷ b'C' ∷ []);
  value_mask = 0;
  gpio = 2 ^ 32 - 1;
  read_only = 1;
  read_function = adc_call_back;
}

-- `config.controlers`.
abbrev pub board_outlets : List Outlet
board_outlets = top_outlet ∷ bottom_outlet ∷ adc_gauge ∷ []
