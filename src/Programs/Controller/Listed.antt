-- ===== src/Programs/Controller/Listed.antt =====
-- The controls of a device that its controller asks for (src/bin/controller.c,
-- src/dpdChatFabric/dpdChatFabric.c).
use dpd_chat_fabric.Prelude.{
  ◌≡◌, refl, ap, true, false, some, none, List, [], ◌∷◌, length, take, take_all, take-drop,
  append-nil, ok, ◌>>=◌, positive32, ◌==◌, ==_refl, Bool-cases, inl, inr,
}
use dpd_chat_fabric.Types.Commands.{
  cmd_app_list, cmd_app_list_ack, action_get, action_set, data_packet, error_ok, command_number,
  cmd_send_reply_true, cmd_send_reply_false, state_number, action_read,
}
use dpd_chat_fabric.Types.Structs.{ChatPacket, Control}
use dpd_chat_fabric.Crypto.{Crypto}
use dpd_chat_fabric.StateMachine.{
  Machine, uuid_eq, addressed, address_reply, state_machine, handle_pair, handle_nonce,
  handle_publickey, handle_verify, handle_app, save_pair,
}
use dpd_chat_fabric.Packet.Init.{Dice, chat_packet_init0}
use dpd_chat_fabric.Fabric.Loops.{is_paired}
use dpd_chat_fabric.Fabric.Serve.{Host, Node, respond, send_reply, call_back, to_machine}
use dpd_chat_fabric.Programs.Device.Controls.{drop_all}
use dpd_chat_fabric.Programs.Device.{visit_control, visit_controls, visited_count, device_call_back}
use dpd_chat_fabric.Packet.Encode.{chat_packet_encode}
use dpd_chat_fabric.Programs.Controller.{learn_control, learn_controls, controller_call_back}

-- The packet is for the machine, which is paired.
pub record IsFor (cp : ChatPacket) (node : Node) : Type 0 where
  pub to0 : uuid_eq (cp.to).u0 ((node.config).uuid).u0 ≡ true
  pub to1 : uuid_eq (cp.to).u1 ((node.config).uuid).u1 ≡ true
  pub paired : is_paired node.pair ≡ true

-- The state machine does nothing with a list of controls.
listed_machine :
    (c : Crypto) (cp : ChatPacket) (m : Machine)
    → cp.cmd ≡ cmd_app_list_ack
    → addressed cp m ≡ true
    → state_machine c cp m
      ≡ ok (record (address_reply cp m) { reply_cmd = cmd_send_reply_false; error = error_ok })
unfolding state_machine handle_pair handle_nonce handle_publickey handle_verify handle_app save_pair
listed_machine c cp m e a = rw (a, e, ==_refl (state_number (m.pair).state)) refl

learn_controls_none :
    (cp : ChatPacket) (cs : List Control)
    → (cp.action == action_read) ≡ false
    → learn_controls cp cs ≡ cs
unfolding learn_controls learn_control
learn_controls_none cp [] h = refl
learn_controls_none cp (c ∷ cs) h = elim (Bool-cases (c.control == cp.action_control)) [
  | inl e ↦ rw (e, h) (ap (λ r. c ∷ r) (learn_controls_none cp cs h))
  | inr e ↦ rw e (ap (λ r. c ∷ r) (learn_controls_none cp cs h))
]

learned :
    (cp : ChatPacket) (m : Machine)
    → positive32 cp.num_of_controllers ≡ true
    → cp.num_of_controllers ≡ length cp.controlers
    → (cp.action == action_read) ≡ false
    → controller_call_back cp m ≡ record m {
      config = record (m.config) {
        controlers = cp.controlers;
        num_of_controllers = cp.num_of_controllers;
      };
    }
unfolding controller_call_back
learned cp m some_controls count other =
    rw
      (
        some_controls,
        some_controls,
        take_all cp.num_of_controllers cp.controlers count,
        learn_controls_none cp cp.controlers other,
        count,
        drop_all cp.controlers,
        append-nil cp.controlers,
      )
      refl

-- A controller that is sent a list of controls keeps it, and does not answer.
pub respond_listed :
    (host : Host) (d : Dice) (cp : ChatPacket) (node : Node)
    → host.callback ≡ some controller_call_back
    → cp.cmd ≡ cmd_app_list_ack
    → IsFor cp node
    → positive32 cp.num_of_controllers ≡ true
    → cp.num_of_controllers ≡ length cp.controlers
    → (cp.action == action_read) ≡ false
    → respond host d cp node
      ≡ ok (record {
        node = record node {
          config = record (node.config) {
            controlers = cp.controlers;
            num_of_controllers = cp.num_of_controllers;
          };
        };
        error = error_ok;
        sent = none;
      })
unfolding respond send_reply call_back command_number
respond_listed host d cp node callback e w some_controls count other =
    let m : Machine = to_machine host node (chat_packet_init0 d) in
    let m' : Machine = record (address_reply cp m) {
      reply_cmd = cmd_send_reply_false;
      error = error_ok;
    } in
    rw
      (
        listed_machine host.crypto cp m e (unfold addressed in rw (w.to0, w.to1) refl),
        e,
        w.paired,
        callback,
        learned cp m' some_controls count other,
      )
      refl

visit_controls_none :
    (cp : ChatPacket) (cs : List Control) (r : ChatPacket)
    → (cp.action == action_get) ≡ false
    → (cp.action == action_set) ≡ false
    → visit_controls cp cs r ≡ (cs, r)
unfolding visit_controls visit_control
visit_controls_none cp [] r g s = refl
visit_controls_none cp (c ∷ cs) r g s = elim (Bool-cases (c.control == cp.action_control)) [
  | inl e ↦
      rw (e, g, s)
        (ap (λ (t : List Control × ChatPacket). (c ∷ t.0, t.1)) (visit_controls_none cp cs r g s))
  | inr e ↦
      rw e
        (ap (λ (t : List Control × ChatPacket). (c ∷ t.0, t.1)) (visit_controls_none cp cs r g s))
]

-- A device leaves an action that is neither ACTION_GET nor ACTION_SET alone.
not_visited :
    (cp : ChatPacket) (m : Machine)
    → (cp.action == action_get) ≡ false
    → (cp.action == action_set) ≡ false
    → device_call_back cp m ≡ m
unfolding device_call_back
not_visited cp m g s =
    let n = visited_count m in
    let cs = (m.config).controlers in
    rw (visit_controls_none cp (take n cs) m.reply g s, take-drop n cs) refl

-- The reply of a device to a CMD_APP_LIST.
abbrev pub listing : Dice → ChatPacket → Node → ChatPacket
listing d cp node = record (chat_packet_init0 d) {
  to = cp.from;
  from = (node.config).uuid;
  controlers = (node.config).controlers;
  num_of_controllers = (node.config).num_of_controllers;
  cmd = cmd_app_list_ack;
}

-- What the state machine makes of a CMD_APP_LIST.
listing_machine :
    (c : Crypto) (d : Dice) (cp : ChatPacket) (m : Machine)
    → cp.cmd ≡ cmd_app_list
    → addressed cp m ≡ true
    → is_paired m.pair ≡ true
    → state_machine c cp m
      ≡ ok (record m {
        reply = record (m.reply) {
          to = cp.from;
          from = (m.config).uuid;
          controlers = (m.config).controlers;
          num_of_controllers = (m.config).num_of_controllers;
          cmd = cmd_app_list_ack;
        };
        reply_cmd = cmd_send_reply_true;
        error = error_ok;
      })
unfolding state_machine handle_pair handle_nonce handle_publickey handle_verify handle_app save_pair
listing_machine c d cp m e a paired = rw (a, e, paired, ==_refl (state_number (m.pair).state)) refl

pub respond-listing :
    (host : Host) (d : Dice) (cp : ChatPacket) (node : Node)
    → host.callback ≡ some device_call_back
    → cp.cmd ≡ cmd_app_list
    → IsFor cp node
    → (cp.action == action_get) ≡ false
    → (cp.action == action_set) ≡ false
    → respond host d cp node ≡ (
        chat_packet_encode host.crypto (listing d cp node) node.pair true data_packet >>= λ out.
        ok (record {
          node = record node { pair = out.pair };
          error = error_ok;
          sent = some out.msg;
        }))
unfolding respond send_reply call_back command_number
respond-listing host d cp node callback e w g s =
    let m : Machine = to_machine host node (chat_packet_init0 d) in
    let m' : Machine = record m {
      reply = listing d cp node;
      reply_cmd = cmd_send_reply_true;
      error = error_ok;
    } in
    rw
      (
        listing_machine host.crypto d cp m e (unfold addressed in rw (w.to0, w.to1) refl) w.paired,
        e,
        w.paired,
        callback,
        not_visited cp m' g s,
      )
      refl
