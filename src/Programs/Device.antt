-- ===== src/Programs/Device.antt =====
-- `deviceCallBack` of src/bin/device.c: what a device does with the packets of a paired controller.
pub mod Controls
use dpd_chat_fabric.Prelude.{
  ℕ, Bool, List, [], ◌∷◌, ◌++◌, take, drop, positive32, ◌==◌, if◌then◌else◌,
}
use dpd_chat_fabric.Types.Commands.{action_get, action_set, action_read}
use dpd_chat_fabric.Types.Structs.{ChatPacket, Control}
use dpd_chat_fabric.StateMachine.{Machine}

-- The reply tells the type and the value of the control.
abbrev pub read_reply : ChatPacket → Control → ChatPacket → ChatPacket
read_reply cp c reply = record reply {
  action = action_read;
  action_control = cp.action_control;
  action_type = c.type;
  action_value = c.value;
  action_length = 0;
}

-- One control, and the reply.
unfoldable pub visit_control : ChatPacket → Control → ChatPacket → Control × ChatPacket
visit_control cp c reply =
    let set = record c { value = cp.action_value } in
    if c.control == cp.action_control
    then (if cp.action == action_get
        then (c, read_reply cp c reply)
        else (if cp.action == action_set then (set, read_reply cp set reply) else (c, reply)))
    else (c, reply)

-- `for (i=0; i<config->numOfControllers; i++)`.
unfoldable pub visit_controls : ChatPacket → List Control → ChatPacket → List Control × ChatPacket
visit_controls cp [] reply = ([], reply)
visit_controls cp (c ∷ cs) reply =
    let seen = visit_control cp c reply in
    let rest = visit_controls cp cs seen.1 in (seen.0 ∷ rest.0, rest.1)

-- The number of controls, as the `int` of the loop's test.
abbrev pub visited_count : Machine → ℕ
visited_count m =
    if positive32 (m.config).num_of_controllers then (m.config).num_of_controllers else 0

-- The device has as many controls as its configuration says.
unfoldable pub device_call_back : ChatPacket → Machine → Machine
unfolding visit_controls
device_call_back cp m =
    let n = visited_count m in
    let seen = visit_controls cp (take n (m.config).controlers) m.reply in
    record m {
      config = record (m.config) { controlers = seen.0 ++ drop n (m.config).controlers };
      reply = seen.1;
    }
