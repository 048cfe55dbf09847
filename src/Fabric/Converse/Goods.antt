-- ===== src/Fabric/Converse/Goods.antt =====
-- The packets of a pairing survive the wire (src/dpdChatPacket/dpdChatPacket.c).
use dpd_chat_fabric.Prelude.{ℕ, ◌<◌, ◌^◌, ◌≡◌, refl, ap, ◌∙◌, length, arith}
use dpd_chat_fabric.Types.Commands.{Command, command_number}
use dpd_chat_fabric.Types.Structs.{ChatPacket}
use dpd_chat_fabric.Crypto.{Crypto}
use dpd_chat_fabric.Packet.Init.{Dice, IsDice, chat_packet_init0}
use dpd_chat_fabric.Packet.Decode.Header.{IsSendable}
use dpd_chat_fabric.Fabric.Serve.{Node}
use dpd_chat_fabric.Fabric.Wire.{command_sent, publickey_sent, nonce_sent}
use dpd_chat_fabric.Packet.Init.Laws.{padding_length-HasPadding}
use dpd_chat_fabric.Fabric.Converse.{Good}
use dpd_chat_fabric.Fabric.Converse.Flights.{
  IsMember, reply, requested, acknowledged, key_of_y, key_of_x, keys_known, nonce_wanted,
  nonce_of_y, nonce_of_x, nonces_known,
}

sendable :
    (cp : ChatPacket) (x y : Node)
    → IsMember x
    → IsMember y
    → cp.to ≡ (y.config).uuid
    → cp.from ≡ (x.config).uuid
    → command_number cp.cmd < 2 ^ 32
    → cp.serial < 2 ^ 32
    → cp.flags < 2 ^ 32
    → IsSendable cp
sendable cp x y mx my to from c s f = record {
  uuids_fit = record {
    to0 = ap (λ u. length u.u0) to ∙ my.u0_size;
    to1 = ap (λ u. length u.u1) to ∙ my.u1_size;
    from0 = ap (λ u. length u.u0) from ∙ mx.u0_size;
    from1 = ap (λ u. length u.u1) from ∙ mx.u1_size;
  };
  cmd_fits = c;
  serial_fits = s;
  flags_fit = f;
}

pub reply-IsSendable :
    (d : Dice) (c : Command) (flags : ℕ) (x y : Node)
    → IsMember x
    → IsMember y
    → command_number c < 2 ^ 32
    → flags < 2 ^ 32
    → IsSendable (reply d c flags x y)
unfolding chat_packet_init0
reply-IsSendable d c flags x y mx my h f = sendable _ x y mx my refl refl h (omega arith) f

module _ (k : Crypto) (d : Dice) (x y : Node) (mx : IsMember x) (my : IsMember y) where
  pub requested-Good : Good (requested k d x y)
  unfolding requested command_number
  requested-Good = command_sent (reply-IsSendable d _ _ y x my mx (omega arith) (omega arith))

  pub acknowledged-Good : Good (acknowledged k d x y)
  unfolding acknowledged command_number
  acknowledged-Good = command_sent (reply-IsSendable d _ _ x y mx my (omega arith) (omega arith))

  pub key_of_y-Good : Good (key_of_y k d x y)
  unfolding key_of_y command_number chat_packet_init0
  key_of_y-Good =
      publickey_sent (sendable _ y x my mx refl refl (omega arith) (omega arith) (omega arith))
        my.publickey_size

  pub key_of_x-Good : Good (key_of_x k d x y)
  unfolding key_of_x command_number chat_packet_init0
  key_of_x-Good =
      publickey_sent (sendable _ x y mx my refl refl (omega arith) (omega arith) (omega arith))
        mx.publickey_size

  pub keys_known-Good : Good (keys_known k d x y)
  unfolding keys_known command_number
  keys_known-Good = command_sent (reply-IsSendable d _ _ y x my mx (omega arith) (omega arith))

  pub nonce_wanted-Good : Good (nonce_wanted k d x y)
  unfolding nonce_wanted command_number
  nonce_wanted-Good = command_sent (reply-IsSendable d _ _ x y mx my (omega arith) (omega arith))

  pub nonce_of_y-Good : IsDice d → Good (nonce_of_y k d x y)
  unfolding nonce_of_y command_number chat_packet_init0
  nonce_of_y-Good fair = nonce_sent (record {
    sendable = sendable _ y x my mx refl refl (omega arith) (omega arith) (omega arith);
    padding =
        padding_length-HasPadding d.envelope d.envelope_padding fair.envelope_below
          fair.envelope_fits;
    mynonce_size = my.mynonce_size;
  })

  pub nonce_of_x-Good : IsDice d → Good (nonce_of_x k d x y)
  unfolding nonce_of_x command_number chat_packet_init0
  nonce_of_x-Good fair = nonce_sent (record {
    sendable = sendable _ x y mx my refl refl (omega arith) (omega arith) (omega arith);
    padding =
        padding_length-HasPadding d.envelope d.envelope_padding fair.envelope_below
          fair.envelope_fits;
    mynonce_size = mx.mynonce_size;
  })

  pub nonces_known-Good : Good (nonces_known k d x y)
  unfolding nonces_known command_number
  nonces_known-Good = command_sent (reply-IsSendable d _ _ y x my mx (omega arith) (omega arith))
