-- ===== src/Programs/Controller/Fetched.antt =====
-- A controller fetches the controls of its device (src/bin/device.c, src/bin/controller.c,
-- src/dpdChatFabric/dpdChatFabric.c, src/dpdChatPacket/dpdChatPacket.c).
use dpd_chat_fabric.Prelude.{
  ℕ, suc, ◌+◌, ◌*◌, ◌≤◌, ◌≡◌, refl, sym, ap, ◌∙◌, true, false, none, some, List, [], ◌∷◌, length,
  map, Outcome, ok, fault, ◌>>=◌, positive32, ◌==◌,
}
use dpd_chat_fabric.Types.Commands.{cmd_app_list, action_get, action_set, action_read, error_ok}
use dpd_chat_fabric.Types.Structs.{ChatPacket, Control}
use dpd_chat_fabric.Crypto.{CryptoLaws}
use dpd_chat_fabric.Packet.Init.{Dice, chat_packet_init0}
use dpd_chat_fabric.Packet.Decode.Controls.{received}
use dpd_chat_fabric.Packet.Decode.Payload.{length-visited_controls}
use dpd_chat_fabric.Packet.Decode.Data.{IsData, data_message, with_data, encode_sent}
use dpd_chat_fabric.Fabric.Connection.{buffersize}
use dpd_chat_fabric.Fabric.Serve.{Host, Node, Served, respond, serve}
use dpd_chat_fabric.Fabric.Message.{env_of, delivered, serve-encode_data}
use dpd_chat_fabric.Programs.Device.{device_call_back}
use dpd_chat_fabric.Programs.Controller.{controller_call_back}
use dpd_chat_fabric.Programs.Controller.Listed.{IsFor, listing, respond-listing, respond_listed}

length-map : (f : Control → Control) (cs : List Control) → length (map f cs) ≡ length cs
length-map f [] = refl
length-map f (c ∷ cs) = ap suc (length-map f cs)

-- The controller serves what the device sends in answer to a packet.
unfoldable pub fetch : Host → Host → Dice → Dice → Dice → ChatPacket → Node → Node → Outcome Served
fetch device controller d d' d'' cp asked asking = do
  answered ← respond device d cp asked
  elim answered.sent [ none ↦ fault | some msg ↦ serve controller d' d'' msg asking ]

-- A device and its controller, which are paired and have each other's uuids and programs.
pub record AreProgrammed (device controller : Host) (cp reply : ChatPacket) (asked asking : Node)
    : Type 0 where
  pub same_crypto : device.crypto ≡ controller.crypto
  pub device_callback : device.callback ≡ some device_call_back
  pub controller_callback : controller.callback ≡ some controller_call_back
  pub for_device : IsFor cp asked
  pub for_controller : IsFor reply asking
  pub no_get : (cp.action == action_get) ≡ false
  pub no_set : (cp.action == action_set) ≡ false

-- A reply to a CMD_APP_LIST carries no action.
no_read :
    (fresh : Control) (controls : List Control) (d d' : Dice) (cp : ChatPacket) (asked : Node)
    → ((with_data fresh controls (listing d cp asked) asked.pair (chat_packet_init0 d')).action
        == action_read)
      ≡ false
unfolding chat_packet_init0
no_read fresh controls d d' cp asked = refl

-- A paired controller that serves the answer of its device to a CMD_APP_LIST has the device's controls,
-- each in fresh memory, and answers nothing, if the device has controls, and the answer without data can
-- be sent to it and fits its buffer.
pub fetch-listing :
    (device controller : Host) (d d' d'' : Dice) (cp : ChatPacket) (asked asking : Node)
    (controls : List Control) (session : List ℕ)
    → CryptoLaws controller.crypto
    → cp.cmd ≡ cmd_app_list
    → AreProgrammed device controller cp (listing d cp asked) asked asking
    → IsData
        (env_of controller asking)
        (listing d cp asked)
        (chat_packet_init0 d')
        controls
        asked.pair
        session
    → positive32 (asked.config).num_of_controllers ≡ true
    → 24 + 9 * length controls ≤ controller.rounds
    → length (data_message controller.crypto (listing d cp asked) controls asked.pair session)
      ≤ buffersize
    → fetch device controller d d' d'' cp asked asking
      ≡ ok (record {
        node = record asking {
          inbox = delivered (listing d cp asked) asking.inbox;
          config = record (asking.config) {
            controlers = map (received controller.fresh) controls;
            num_of_controllers = (asked.config).num_of_controllers;
          };
        };
        error = error_ok;
        sent = none;
      })
unfolding fetch
fetch-listing device controller d d' d'' cp asked asking controls session laws e p w some_controls
      rounds fits =
    let reply : ChatPacket = listing d cp asked in
    let got : ChatPacket =
      with_data controller.fresh controls reply asked.pair (chat_packet_init0 d') in
    let answered =
      respond-listing device d cp asked p.device_callback e p.for_device p.no_get p.no_set in
    let served =
      serve-encode_data controller d' d'' reply controls asked.pair session asking laws rounds w
        fits in
    let encoded =
      encode_sent (env_of controller asking) reply (chat_packet_init0 d') controls asked.pair
        session laws w in
    let asking' : Node = record asking { inbox = delivered reply asking.inbox } in
    let count : (asked.config).num_of_controllers
        ≡ length (map (received controller.fresh) controls) =
      sym (length-visited_controls reply controls (w.message).visited some_controls)
      ∙ sym (length-map (received controller.fresh) controls) in
    let for_controller : IsFor got asking' = record {
      to0 = (p.for_controller).to0;
      to1 = (p.for_controller).to1;
      paired = (p.for_controller).paired;
    } in
    let listed =
      respond_listed controller d'' got asking' p.controller_callback refl for_controller
        (rw some_controls some_controls) (rw some_controls count)
        (no_read controller.fresh controls d d' cp asked) in
    rw (answered, p.same_crypto, encoded)
      ((rw encoded at served) ∙ (listed ∙ rw some_controls refl))
