-- ===== src/Fabric/Loops.antt =====
-- `chatFabric_device` and `chatFabric_controller` of src/dpdChatFabric/dpdChatFabric.c.
pub mod Logged
pub mod Session
pub mod Ending
use dpd_chat_fabric.Prelude.{
  ℕ, zero, suc, Bool, true, false, ◌&&◌, ◌||◌, not, Option, none, some, List, [], ◌∷◌, length,
  Outcome, ok, no_fuel, ◌>>=◌, ◌==◌, if◌then◌else◌,
}
use dpd_chat_fabric.Types.Commands.{
  command_number, cmd_pair_request, cmd_app_list, cmd_config_get, cmd_config_set, cmd_app_message,
  cmd_send_reply_true, state_paired, state_number, PacketType, command_packet, data_packet,
  FabricError, error_ok, error_socket, action_get_config, action_set_config, action_app_list,
}
use dpd_chat_fabric.Types.Structs.{ChatPacket, Pairing, Config}
use dpd_chat_fabric.Packet.Init.{Dice, is_object, chat_packet_init}
use dpd_chat_fabric.Packet.Encode.{Encoded, chat_packet_encode}
use dpd_chat_fabric.Fabric.Connection.{
  Connection, System, is_stream, is_open_socket, consetup, receive, no_socket, no_datagram,
  datagram, send, write_channel, close_stream,
}
use dpd_chat_fabric.Fabric.Serve.{MsgBuffer, Node, Host, Served, serve}

-- `chatFabricAction`, less `action_data`, which the function does not copy.
pub record Action : Type 0 where
  pub action : ℕ
  pub action_control : ℕ
  pub action_type : ℕ
  pub action_value : ℕ
  pub action_length : ℕ

abbrev pub is_paired : Pairing → Bool
is_paired p = state_number p.state == state_number state_paired

abbrev pub is_ok : FabricError → Bool
is_ok error_ok = true
is_ok _ = false

-- The state of a call, and the error that it returns.
pub record Ended (W : Type 0) : Type 0 where
  pub error : FabricError
  pub node : Node
  pub connection : Connection
  pub world : W

-- The packet of `chatFabric_controller`, from the action and `config->msg`.
unfoldable pub request_packet : Dice → Node → Action → List ℕ → Outcome ChatPacket
unfolding command_number
request_packet d node a message =
    let init = chat_packet_init d node.config node.pair in
    let reply = command_number cmd_send_reply_true in
    if not (is_paired node.pair) then init cmd_pair_request [] 0 0 else (do
      cp ←
          (if a.action == action_app_list
            then init cmd_app_list [] 0 reply
            else (if a.action == action_get_config
                then init cmd_config_get [] 0 reply
                else (if a.action == action_set_config
                    then init cmd_config_set (node.inbox).msg (node.inbox).length reply
                    else init cmd_app_message message (length message) reply)))
      ok (record cp {
        action = a.action;
        action_control = a.action_control;
        action_type = a.action_type;
        action_value = a.action_value;
        action_length = a.action_length;
      }))

-- The packet in the clear before the pairing, and encrypted after it.
unfoldable pub encode_request : Host → Node → ChatPacket → Outcome Encoded
encode_request host node cp =
    if is_paired node.pair
    then chat_packet_encode host.crypto cp node.pair true data_packet
    else chat_packet_encode host.crypto cp node.pair false command_packet

-- A configuration that is sent is freed.
abbrev pub free_sent : Action → Node → Node
free_sent a node =
    if is_paired node.pair && a.action == action_set_config
    then record node { inbox = record (node.inbox) { msg = []; length = 0 } }
    else node

module _ {W : Type 0} (system : System W) (host : Host) where
  -- After the bytes have been received.
  unfoldable pub deliver : List ℕ → Node → Connection → W → Outcome (Ended W)
  deliver received node c w = do
    let first = system.arc4random w
    let second = system.arc4random first.1
    served ← serve host first.0 second.0 received node
    let w' : W = elim served.sent [
      | none ↦ second.1
      | some msg ↦ (write_channel system c msg second.1).1
    ]
    let closed = if is_paired (served.node).pair then close_stream system c w' else (c, w')
    ok (record {
      error = served.error;
      node = served.node;
      connection = closed.0;
      world = closed.1;
    })

  unfoldable pub device : Node → Connection → W → Outcome (Ended W)
  unfolding deliver
  device node c w = do
    let node' = record node { inbox = record (node.inbox) { length = 0 } }
    let set_up =
        if not (is_open_socket c.socket) || (not (is_open_socket c.accepted_socket) && c.bind == 1)
        then consetup system c w
        else (c, w)
    let got = receive system 3 set_up.0 set_up.1
    if not (is_open_socket (set_up.0).socket)
        then ok
            (record { error = error_socket; node = node'; connection = set_up.0; world = set_up.1 })
        else elim got.0 [
          | no_socket ↦ ok (record {
            error = error_socket;
            node = node';
            connection = (got.1).0;
            world = (got.1).1;
          })
          | no_datagram ↦
              ok (record {
                error = error_ok;
                node = node';
                connection = (got.1).0;
                world = (got.1).1;
              })
          | datagram x ↦ deliver x node' (got.1).0 (got.1).1
        ]

  -- `do { ... } while ( (e == ERROR_OK) && (pair->state != STATE_PAIRED) )`, with a number of rounds.
  unfoldable pub device_loop : ℕ → Node → Connection → W → Outcome (Ended W)
  unfolding device
  device_loop zero node c w = no_fuel
  device_loop (suc fuel) node c w = do
    r ← device node c w
    let rest = device_loop fuel r.node r.connection r.world
    if is_ok r.error && not (is_paired (r.node).pair) then rest else ok r

  unfoldable pub controller : ℕ → Action → List ℕ → Node → Connection → W → Outcome (Ended W)
  unfolding device_loop
  controller fuel a message node c w = do
    let set_up = consetup system c w
    if not (is_open_socket (set_up.0).socket)
        then ok
            (record { error = error_socket; node = node; connection = set_up.0; world = set_up.1 })
        else (do
          let drawn = system.arc4random set_up.1
          cp ← request_packet drawn.0 node a message
          out ← encode_request host (free_sent a node) cp
          let node' = record (free_sent a node) { pair = out.pair }
          let sent = send system 3 set_up.0 out.msg drawn.1
          if sent.0
              then device_loop fuel node' (sent.1).0 (sent.1).1
              else ok (record {
                error = error_socket;
                node = node';
                connection = (sent.1).0;
                world = (sent.1).1;
              }))
