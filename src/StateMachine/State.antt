-- ===== src/StateMachine/State.antt =====
-- The state that `stateMachine` of src/dpdChatFabric/dpdChatFabric.c works on, and its answers, with
-- the comparison of uuids of src/uuid/uuuid2.c.
use dpd_chat_fabric.Prelude.{ℕ, Bool, true, false, ◌&&◌, List, [], ◌∷◌, ◌==◌}
use dpd_chat_fabric.Types.Commands.{
  Command, cmd_send_reply_false, cmd_send_reply_true, PairState, state_number, FabricError,
}
use dpd_chat_fabric.Types.Structs.{ChatPacket, Pairing, Config, Uuid}

-- `uuuid2_eq` and `uuuid2_copy` of src/uuid/uuuid2.c.
unfoldable pub uuid_eq : Uuid → Uuid → Bool
uuid_eq [] [] = true
uuid_eq [] (b ∷ bs) = false
uuid_eq (a ∷ as') [] = false
uuid_eq (a ∷ as') (b ∷ bs) = a == b && uuid_eq as' bs

abbrev pub uuid_copy : Uuid → Uuid → Uuid
uuid_copy from to = from

-- The two files that the machine writes: whether `fopen` succeeds, and what they hold.
pub record Files : Type 0 where
  pub config_opens : Bool
  pub pair_opens : Bool
  pub config_file : List ℕ
  pub pair_file : List ℕ

-- What the function is given by reference.
pub record Machine : Type 0 where
  pub config : Config
  pub pair : Pairing
  pub reply : ChatPacket
  pub reply_cmd : Command
  pub error : FabricError
  pub files : Files

-- A machine with the value of `RETVAL`.
pub record Turn : Type 0 where
  pub machine : Machine
  pub retval : Command

abbrev pub state_is : Machine → PairState → Bool
state_is m s = state_number (m.pair).state == state_number s

abbrev pub answer : Machine → Pairing → ChatPacket → Turn
answer m pair reply = record {
  machine = record m { pair = pair; reply = reply };
  retval = cmd_send_reply_true;
}

abbrev pub silent : Machine → Turn
silent m = record { machine = m; retval = cmd_send_reply_false }

-- The pairing with the sender's uuids.
abbrev pub adopt : ChatPacket → Pairing → Pairing
adopt cp p = record p {
  uuid = record {
    u0 = uuid_copy (cp.from).u0 (p.uuid).u0;
    u1 = uuid_copy (cp.from).u1 (p.uuid).u1;
  };
}
