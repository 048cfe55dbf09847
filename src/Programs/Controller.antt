-- ===== src/Programs/Controller.antt =====
-- `controllerCallBack` of src/bin/controller.c: what a controller learns from the packets of a device.
pub mod Listed
pub mod Fetched
use dpd_chat_fabric.Prelude.{
  ℕ, Bool, ◌&&◌, List, [], ◌∷◌, ◌++◌, take, drop, positive32, ◌==◌, if◌then◌else◌,
}
use dpd_chat_fabric.Types.Commands.{action_read}
use dpd_chat_fabric.Types.Structs.{ChatPacket, Control, Config}
use dpd_chat_fabric.StateMachine.{Machine}

-- One control: an ACTION_READ tells its value.
unfoldable pub learn_control : ChatPacket → Control → Control
learn_control cp c =
    if c.control == cp.action_control
    then (if cp.action == action_read then record c { value = cp.action_value } else c)
    else c

-- `for (i=0; i<config->numOfControllers; i++)`.
unfoldable pub learn_controls : ChatPacket → List Control → List Control
learn_controls cp [] = []
learn_controls cp (c ∷ cs) = learn_control cp c ∷ learn_controls cp cs

-- A packet with controls replaces those of the configuration.
abbrev pub adopt_controls : ChatPacket → Config → Config
adopt_controls cp config =
    let some_controls = positive32 cp.num_of_controllers in
    record config {
      num_of_controllers =
          if some_controls then cp.num_of_controllers else config.num_of_controllers;
      controlers = if some_controls then cp.controlers else config.controlers;
    }

unfoldable pub controller_call_back : ChatPacket → Machine → Machine
unfolding learn_controls
controller_call_back cp m =
    let config = adopt_controls cp m.config in
    let n = if positive32 config.num_of_controllers then config.num_of_controllers else 0 in
    record m {
      config = record config {
        controlers = learn_controls cp (take n config.controlers) ++ drop n config.controlers;
      };
    }
