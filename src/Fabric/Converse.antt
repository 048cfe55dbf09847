-- ===== src/Fabric/Converse.antt =====
-- Two machines that serve each other's datagrams (src/dpdChatFabric/dpdChatFabric.c): a pairing over
-- the wire, from the bytes of CMD_PAIR_REQUEST to STATE_PAIRED on both sides.
pub mod Flights
pub mod Goods
pub mod Keys
pub mod Paired
use dpd_chat_fabric.Prelude.{
  ℕ, zero, suc, ◌+◌, ◌≤◌, ◌<◌, ◌^◌, ◌≡◌, refl, sym, ap, ◌∙◌, true, false, Bool, not, ◌&&◌, Option,
  some, none, List, [], ◌∷◌, length, Outcome, ok, no_fuel, ◌>>=◌, ◌==◌, if◌then◌else◌, arith,
}
use dpd_chat_fabric.Types.Commands.{
  Command, cmd_send_reply_true, cmd_send_reply_false, command_number, error_ok, PacketType,
  command_packet, publickey_packet, nonce_packet, data_packet,
}
use dpd_chat_fabric.Types.Structs.{ChatPacket, Pairing}
use dpd_chat_fabric.Crypto.{Crypto, CryptoLaws}
use dpd_chat_fabric.Packet.Init.{Dice, IsDice, chat_packet_init0}
use dpd_chat_fabric.StateMachine.{
  Machine, Turn, handle_pair, save_pair, addressed, address_reply, is_open, state_machine,
}
use dpd_chat_fabric.StateMachine.Handshake.{heard}
use dpd_chat_fabric.Fabric.Serve.{
  Host, Node, Served, serve, respond, send_reply, call_back, to_machine, from_machine, reply_type,
  is_for_callback,
}
use dpd_chat_fabric.Fabric.Wire.{
  wire_bytes, carried, IsSent, AgreesOn, emptied, encode_wire, serve-wire_bytes,
}

-- x receives a datagram; if it sends a reply, then y receives it, and so on. The k-th serving from the
-- end draws the random numbers `dice k`.
unfoldable pub converse :
    Host → (ℕ → Dice × Dice) → ℕ → List ℕ → Node → Node → Outcome (Node × Node)
converse host dice zero msg x y = no_fuel
converse host dice (suc n) msg x y = do
  served ← serve host (dice n).0 (dice n).1 msg x
  elim served.sent [
    | none ↦ ok (served.node, y)
    | some reply ↦ converse host dice n reply y served.node
  ]

-- A packet on its way: its kind, the packet and the pairing that it was made from, the machine that is
-- to receive it, and the machine that sent it.
pub record Flight : Type 0 where
  pub type : PacketType
  pub sent : ChatPacket
  pub pair : Pairing
  pub receiver : Node
  pub sender : Node

abbrev pub Good : Flight → Type 0
Good f = IsSent f.sent f.pair f.type

module _ (host : Host) where
  -- What the state machine makes of a packet, when it is to be answered.
  pub answered :
      (d : Dice) (cp : ChatPacket) (node : Node) (t : Turn) (m : Machine)
      → CryptoLaws host.crypto
      → (not (addressed cp (to_machine host node (chat_packet_init0 d))) && not (is_open cp.cmd))
        ≡ false
      → handle_pair host.crypto cp cp.cmd
          (address_reply cp (to_machine host node (chat_packet_init0 d)))
        ≡ ok t
      → save_pair (node.pair).state t.machine ≡ ok m
      → t.retval ≡ cmd_send_reply_true
      → is_for_callback cp.cmd ≡ false
      → IsSent m.reply m.pair (reply_type (m.reply).cmd)
      → respond host d cp node
        ≡ ok (record {
          node = from_machine node m;
          error = error_ok;
          sent = some (wire_bytes host.crypto (reply_type (m.reply).cmd) m.reply m.pair);
        })
  unfolding respond call_back send_reply command_number
  answered d cp node t m laws h e s r b w =
      let o = encode_wire host.crypto (reply_type (m.reply).cmd) m.reply m.pair laws w in
      rw
        (
          heard host.crypto cp (to_machine host node (chat_packet_init0 d)) h,
          e,
          s,
          r,
          b,
          (o.1).0,
          ((o.1).1).0,
          ((o.1).1).1,
        )
        refl

  silenced :
      (d : Dice) (cp : ChatPacket) (node : Node) (t : Turn) (m : Machine)
      → (not (addressed cp (to_machine host node (chat_packet_init0 d))) && not (is_open cp.cmd))
        ≡ false
      → handle_pair host.crypto cp cp.cmd
          (address_reply cp (to_machine host node (chat_packet_init0 d)))
        ≡ ok t
      → save_pair (node.pair).state t.machine ≡ ok m
      → t.retval ≡ cmd_send_reply_false
      → is_for_callback cp.cmd ≡ false
      → respond host d cp node
        ≡ ok (record { node = from_machine node m; error = error_ok; sent = none })
  unfolding respond call_back send_reply command_number
  silenced d cp node t m h e s r b =
      rw (heard host.crypto cp (to_machine host node (chat_packet_init0 d)) h, e, s, r, b) refl

  unfoldable pub run : (ℕ → Dice × Dice) → ℕ → Flight → Outcome (Node × Node)
  run dice n f =
      converse host dice n (wire_bytes host.crypto f.type f.sent f.pair) f.receiver f.sender

  -- The packet that the receiver decodes, and the machine that it is handed to.
  abbrev pub heard_packet : Dice → Flight → ChatPacket
  heard_packet d f = carried f.type f.sent f.pair (chat_packet_init0 d)

  abbrev pub hearer : Dice → Flight → Machine
  hearer d f = to_machine host (emptied f.receiver) (chat_packet_init0 d)

  -- The next packet on its way.
  abbrev pub flies_on : Flight → Machine → Flight
  flies_on f m = record {
    type = reply_type (m.reply).cmd;
    sent = m.reply;
    pair = m.pair;
    receiver = f.sender;
    sender = from_machine (emptied f.receiver) m;
  }

  pub step :
      (dice : ℕ → Dice × Dice) (n : ℕ) (f : Flight) (t : Turn) (m : Machine)
      → CryptoLaws host.crypto
      → 14 ≤ host.rounds
      → ((k : ℕ) → IsDice (dice k).0 × IsDice (dice k).1)
      → Good f
      → AgreesOn f.type (f.receiver).pair f.pair
      → (not (addressed (heard_packet (dice n).0 f) (hearer (dice n).1 f))
          && not (is_open (heard_packet (dice n).0 f).cmd))
        ≡ false
      → handle_pair host.crypto
          (heard_packet (dice n).0 f)
          (heard_packet (dice n).0 f).cmd
          (address_reply (heard_packet (dice n).0 f) (hearer (dice n).1 f))
        ≡ ok t
      → save_pair ((f.receiver).pair).state t.machine ≡ ok m
      → t.retval ≡ cmd_send_reply_true
      → is_for_callback (heard_packet (dice n).0 f).cmd ≡ false
      → Good (flies_on f m)
      → run dice (suc n) f ≡ run dice n (flies_on f m)
  unfolding converse run
  step dice n f t m laws rounds fair good agrees h e s r b good' =
      rw
        (
          serve-wire_bytes host (dice n).0 (dice n).1 f.type f.sent f.pair f.receiver laws
              (fair n).0 rounds good agrees,
          answered (dice n).1 (heard_packet (dice n).0 f) (emptied f.receiver) t m laws h e s r b
              good',
        )
        refl

  pub stop :
      (dice : ℕ → Dice × Dice) (n : ℕ) (f : Flight) (t : Turn) (m : Machine)
      → CryptoLaws host.crypto
      → 14 ≤ host.rounds
      → ((k : ℕ) → IsDice (dice k).0 × IsDice (dice k).1)
      → Good f
      → AgreesOn f.type (f.receiver).pair f.pair
      → (not (addressed (heard_packet (dice n).0 f) (hearer (dice n).1 f))
          && not (is_open (heard_packet (dice n).0 f).cmd))
        ≡ false
      → handle_pair host.crypto
          (heard_packet (dice n).0 f)
          (heard_packet (dice n).0 f).cmd
          (address_reply (heard_packet (dice n).0 f) (hearer (dice n).1 f))
        ≡ ok t
      → save_pair ((f.receiver).pair).state t.machine ≡ ok m
      → t.retval ≡ cmd_send_reply_false
      → is_for_callback (heard_packet (dice n).0 f).cmd ≡ false
      → run dice (suc n) f ≡ ok (from_machine (emptied f.receiver) m, f.sender)
  unfolding converse run
  stop dice n f t m laws rounds fair good agrees h e s r b =
      rw
        (
          serve-wire_bytes host (dice n).0 (dice n).1 f.type f.sent f.pair f.receiver laws
              (fair n).0 rounds good agrees,
          silenced (dice n).1 (heard_packet (dice n).0 f) (emptied f.receiver) t m h e s r b,
        )
        refl
