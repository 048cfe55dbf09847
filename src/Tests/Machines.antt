-- ===== src/Tests/Machines.antt =====
-- The theorems on `stateMachine` at two sample machines.
use dpd_chat_fabric.Prelude.{◌≡◌, ◌⊎◌, refl, replicate, ok, arith}
use dpd_chat_fabric.Types.Commands.{
  cmd_nonce_ack, error_invaild_dest, cmd_pair_request, cmd_fail, cmd_send_reply_true, error_ok,
  state_paired, state_number,
}
use dpd_chat_fabric.PairFile.RoundTrip.{IsStorable}
use dpd_chat_fabric.Types.Structs.{ChatPacket}
use dpd_chat_fabric.StateMachine.{
  Machine, state_machine, adopt, handle_pair, save_pair, addressed, uuid_eq,
}
use dpd_chat_fabric.StateMachine.Steps.{Edge, state_machine-Edge}
use dpd_chat_fabric.StateMachine.Addressed.{IsHeard, state_machine-IsHeard}
use dpd_chat_fabric.StateMachine.Paired.{state_machine_paired}
use dpd_chat_fabric.StateMachine.Handshake.{
  exchange, Ends, fresh, paired_with, opening, exchange-paired, exchange-same_key,
}
use dpd_chat_fabric.Tests.Data.{
  uuids, open_crypto, packet, pairing, machine, add_keys, add_keys-add_keys,
}

stored_1 : IsStorable (paired_with open_crypto (machine 1) (machine 2))
stored_1 = record {
  u0_size = refl;
  u1_size = refl;
  publickey_size = refl;
  nonce_size = refl;
  mynonce_size = refl;
  serial_word = omega arith;
  key_flag = omega arith;
  nonce_flag = omega arith;
}

stored_2 : IsStorable (paired_with open_crypto (machine 2) (machine 1))
stored_2 = record {
  u0_size = refl;
  u1_size = refl;
  publickey_size = refl;
  nonce_size = refl;
  mynonce_size = refl;
  serial_word = omega arith;
  key_flag = omega arith;
  nonce_flag = omega arith;
}

exchange-paired_example :
    Ends
      (exchange open_crypto 10 (opening (machine 1) packet) (fresh (machine 2)) (fresh (machine 1)))
      (paired_with open_crypto (machine 1) (machine 2))
      (paired_with open_crypto (machine 2) (machine 1))
exchange-paired_example =
    exchange-paired open_crypto packet (machine 1) (machine 2) stored_1 stored_2

public_key_1 : replicate 32 10 ≡ open_crypto.curve25519_donna (replicate 32 1) (replicate 32 9)
unfolding add_keys
public_key_1 = refl

public_key_2 : replicate 32 11 ≡ open_crypto.curve25519_donna (replicate 32 2) (replicate 32 9)
unfolding add_keys
public_key_2 = refl

exchange-same_key_example :
    (r : Machine × Machine) × ((exchange open_crypto 10
          (opening (machine 1) packet)
          (fresh (machine 2))
          (fresh (machine 1))
        ≡ ok r)
      × ((((r.0).pair).sharedkey ≡ ((r.1).pair).sharedkey)
          × ((((r.0).pair).state ≡ state_paired) × (((r.1).pair).state ≡ state_paired))))
exchange-same_key_example =
    exchange-same_key open_crypto (replicate 32 9) packet (machine 1) (machine 2)
      (λ s t. add_keys-add_keys s t (replicate 32 9)) public_key_1 public_key_2 stored_1 stored_2

-- A paired machine, and what a CMD_PAIR_REQUEST makes of it.
abbrev paired : Machine
paired = record (machine 1) { pair = record pairing { state = state_paired } }

abbrev requested : Machine
requested = record paired {
  pair = adopt packet paired.pair;
  reply = record packet {
    to = packet.from;
    from = (paired.config).uuid;
    flags = 0;
    cmd = cmd_fail;
  };
  reply_cmd = cmd_send_reply_true;
  error = error_ok;
}

requested_run : state_machine open_crypto packet paired ≡ ok requested
unfolding state_machine handle_pair save_pair addressed uuid_eq state_number
requested_run = refl

state_machine_paired_example :
    (requested.pair ≡ paired.pair)
    ⊎ ((packet.cmd ≡ cmd_pair_request) × (requested.pair ≡ adopt packet paired.pair))
state_machine_paired_example =
    state_machine_paired open_crypto packet paired requested refl requested_run

state_machine-Edge_example : Edge cmd_pair_request state_paired state_paired
state_machine-Edge_example = state_machine-Edge open_crypto packet paired requested requested_run

-- A packet for another machine.
abbrev stray : ChatPacket
stray = record packet { cmd = cmd_nonce_ack; to = uuids 3 }

stray_run :
    state_machine open_crypto stray paired ≡ ok (record paired { error = error_invaild_dest })
unfolding state_machine addressed uuid_eq
stray_run = refl

state_machine-IsHeard_example : IsHeard stray paired (record paired { error = error_invaild_dest })
state_machine-IsHeard_example =
    state_machine-IsHeard open_crypto stray paired (record paired { error = error_invaild_dest })
      stray_run
