-- ===== src/Tests/Programs.antt =====
-- Instances of the theorems about a first configuration (src/dpdChatFabric/cfConfig.c) and about the
-- controls of a device (src/bin/device.c).
use dpd_chat_fabric.Prelude.{◌≡◌, refl, some, [], ◌∷◌, length, replicate, ok, ◌>>=◌, arith}
use dpd_chat_fabric.Types.Commands.{action_get, action_set, action_read}
use dpd_chat_fabric.Types.Structs.{ChatPacket, Config}
use dpd_chat_fabric.StateMachine.{Machine}
use dpd_chat_fabric.Config.{cf_config_write, cf_config_read}
use dpd_chat_fabric.Config.Init.{Given, cf_config_init}
use dpd_chat_fabric.Config.Init.Stored.{IsGiven, IsFirst, cf_config_init-reload}
use dpd_chat_fabric.Programs.Device.{device_call_back}
use dpd_chat_fabric.Programs.Device.Controls.{here, device_call_back-device_call_back}
use dpd_chat_fabric.Tests.Data.{open_crypto, add_keys, packet, config, machine, lamp}

abbrev given : Given
given = record { hostname = some (104 ∷ 105 ∷ []); uuid = replicate 16 4; random = replicate 32 5 }

given-IsGiven : IsGiven open_crypto given
unfolding add_keys
given-IsGiven = record { name = omega arith; uuid_size = refl; random_size = refl; key_size = refl }

cf_config_init-reload_example :
    (c r : Config) × (cf_config_init open_crypto given (config 1) ≡ ok c)
    × ((cf_config_write c >>= λ str. cf_config_read (config 2) str (length str)) ≡ ok r)
    × IsFirst open_crypto given (config 1) (config 2) r
cf_config_init-reload_example =
    cf_config_init-reload open_crypto given (config 1) (config 2) given-IsGiven refl (omega arith)
      (omega arith)

abbrev one_lamp : Machine
one_lamp = record (machine 1) {
  config = record (config 1) { controlers = lamp ∷ []; num_of_controllers = 1 };
}

abbrev set_lamp : ChatPacket
set_lamp = record packet { action = action_set; action_control = 1; action_value = 9 }

abbrev get_lamp : ChatPacket
get_lamp = record packet { action = action_get; action_control = 1 }

abbrev lamp_reply : ChatPacket
lamp_reply =
    (device_call_back get_lamp
      (record (device_call_back set_lamp one_lamp) { reply = packet })).reply

device_call_back-device_call_back_example :
    (lamp_reply.action ≡ action_read) × (lamp_reply.action_value ≡ 9)
device_call_back-device_call_back_example =
    device_call_back-device_call_back set_lamp get_lamp one_lamp packet refl refl refl
      (here lamp refl) refl (omega arith)
