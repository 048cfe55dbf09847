-- ===== src/Fabric/Converse/Paired.antt =====
-- A pairing over the wire, from the bytes of CMD_PAIR_REQUEST to the saved pairings
-- (src/dpdChatFabric/dpdChatFabric.c).
use dpd_chat_fabric.Prelude.{ℕ, ◌≤◌, ◌≡◌, refl, sym, ◌∙◌, ok, arith}
use dpd_chat_fabric.Types.Commands.{cmd_pair_request, state_nonce_setup, state_number}
use dpd_chat_fabric.Types.Structs.{ChatPacket}
use dpd_chat_fabric.Crypto.{Crypto, CryptoLaws}
use dpd_chat_fabric.Packet.Init.{Dice, IsDice}
use dpd_chat_fabric.Packet.Decode.Header.{IsSendable, command_bytes}
use dpd_chat_fabric.StateMachine.{handle_pair, handle_nonce, nonce_send}
use dpd_chat_fabric.StateMachine.Handshake.{mine, save_pair_lem}
use dpd_chat_fabric.Fabric.Serve.{Host, Node}
use dpd_chat_fabric.Fabric.Wire.{command_sent}
use dpd_chat_fabric.PairFile.RoundTrip.{IsStorable, cf_pair_write-bytes}
use dpd_chat_fabric.Fabric.Converse.{Good, run, step, stop, converse}
use dpd_chat_fabric.Fabric.Converse.Flights.{
  paired_nodes, saved_node, IsMember, fresh, first, nonce_of_x, nonces_known,
}
use dpd_chat_fabric.Fabric.Converse.Goods.{
  requested-Good, acknowledged-Good, key_of_y-Good, key_of_x-Good, keys_known-Good,
  nonce_wanted-Good, nonce_of_y-Good, nonce_of_x-Good, nonces_known-Good,
}
use dpd_chat_fabric.Fabric.Converse.Keys.{
  made, request_step, acknowledged_step, key_of_y_step, key_of_x_step, keys_known_step,
  nonce_wanted_step, nonce_of_y_step, nonce_of_x_step,
}

IsMember-IsStorable :
    (k : Crypto) (x y : Node) → IsMember x → IsMember y → IsStorable (paired_nodes k x y)
IsMember-IsStorable k x y mx my = record {
  u0_size = my.u0_size;
  u1_size = my.u1_size;
  publickey_size = my.publickey_size;
  nonce_size = my.mynonce_size;
  mynonce_size = mx.mynonce_size;
  serial_word = mx.serial_word;
  key_flag = omega arith;
  nonce_flag = omega arith;
}

-- What two machines need to be paired over the wire: the sizes of what they send, a decoder with
-- fourteen rounds, random numbers in range, a null nonce in common, and a curve that commutes on their
-- keys as a Diffie-Hellman exchange needs.
pub record CanPair (host : Host) (dice : ℕ → Dice × Dice) (x y : Node) : Type 0 where
  pub laws : CryptoLaws host.crypto
  pub rounds : 14 ≤ host.rounds
  pub fair : (k : ℕ) → IsDice (dice k).0 × IsDice (dice k).1
  pub member_x : IsMember x
  pub member_y : IsMember y
  pub same_null : (x.pair).nullnonce ≡ (y.pair).nullnonce
  pub same_key :
      (host.crypto).curve25519_donna (x.config).privatekey (y.config).publickey
      ≡ (host.crypto).curve25519_donna (y.config).privatekey (x.config).publickey

module _ (host : Host) (dice : ℕ → Dice × Dice) (x y : Node) (can : CanPair host dice x y) where
  -- The ninth datagram: y is paired.
  nonces_known_step :
      run host dice 2 (made host dice can.laws can.rounds can.fair x y 2 nonce_of_x)
      ≡ run host dice 1 (made host dice can.laws can.rounds can.fair x y 1 nonces_known)
  unfolding nonce_of_x nonces_known handle_pair handle_nonce nonce_send state_number
  nonces_known_step =
      let p = paired_nodes host.crypto y x in
      step host dice 1 (nonce_of_x host.crypto (dice 2).1 x y) _ _ can.laws can.rounds can.fair
        (nonce_of_x-Good host.crypto (dice 2).1 x y can.member_x can.member_y (can.fair 2).1)
        (sym can.same_key, sym can.same_null) (mine _ _ refl) refl
        (save_pair_lem state_nonce_setup _ _ refl refl
          (cf_pair_write-bytes p (IsMember-IsStorable host.crypto y x can.member_y can.member_x)))
        refl refl (nonces_known-Good host.crypto (dice 1).1 x y can.member_x can.member_y)

  -- The tenth: x is paired, and sends nothing.
  last_datagram :
      run host dice 1 (nonces_known host.crypto (dice 1).1 x y)
      ≡ ok
          (saved_node x (paired_nodes host.crypto x y), saved_node y (paired_nodes host.crypto y x))
  unfolding nonces_known handle_pair handle_nonce state_number
  last_datagram =
      let p = paired_nodes host.crypto x y in
      stop host dice 0 (nonces_known host.crypto (dice 1).1 x y) _ _ can.laws can.rounds can.fair
        (nonces_known-Good host.crypto (dice 1).1 x y can.member_x can.member_y) tt (mine _ _ refl)
        refl
        (save_pair_lem state_nonce_setup _ _ refl refl
          (cf_pair_write-bytes p (IsMember-IsStorable host.crypto x y can.member_x can.member_y)))
        refl refl

  all_datagrams :
      (cp : ChatPacket)
      → Good (first cp x y)
      → run host dice 10 (first cp x y)
        ≡ ok (
          saved_node x (paired_nodes host.crypto x y),
          saved_node y (paired_nodes host.crypto y x),
        )
  all_datagrams cp w =
      let k = host.crypto in
      let mx = can.member_x in
      let my = can.member_y in
      let fair = can.fair in
      let g1 = requested-Good k (dice 9).1 x y mx my in
      let g2 = acknowledged-Good k (dice 8).1 x y mx my in
      let g3 = key_of_y-Good k (dice 7).1 x y mx my in
      let g4 = key_of_x-Good k (dice 6).1 x y mx my in
      let g5 = keys_known-Good k (dice 5).1 x y mx my in
      let g6 = nonce_wanted-Good k (dice 4).1 x y mx my in
      let g7 = nonce_of_y-Good k (dice 3).1 x y mx my (fair 3).1 in
      let g8 = nonce_of_x-Good k (dice 2).1 x y mx my (fair 2).1 in
      request_step host dice can.laws can.rounds fair x y cp w g1
      ∙ (acknowledged_step host dice can.laws can.rounds fair x y g1 g2
          ∙ (key_of_y_step host dice can.laws can.rounds fair x y g2 g3
              ∙ (key_of_x_step host dice can.laws can.rounds fair x y g3 g4
                  ∙ (keys_known_step host dice can.laws can.rounds fair x y g4 g5
                      ∙ (nonce_wanted_step host dice can.laws can.rounds fair x y g5 g6
                          ∙ (nonce_of_y_step host dice can.laws can.rounds fair x y g6 g7
                              ∙ (nonce_of_x_step host dice can.laws can.rounds fair x y g7 g8
                                    can.same_key can.same_null
                                  ∙ (nonces_known_step ∙ last_datagram))))))))

  -- Two machines that have not been paired and serve each other's datagrams, from the bytes of a
  -- CMD_PAIR_REQUEST of x on, are both paired and have both saved their pairings after ten datagrams:
  -- each has the other's uuids, key and nonce, and the shared key from its own secret and the other's
  -- key; nothing else of them has changed, but for an empty inbox and the note that there is a pairing.
  pub converse-paired :
      (cp : ChatPacket)
      → IsSendable (record cp { cmd = cmd_pair_request; from = (x.config).uuid })
      → converse host dice 10
          (command_bytes (record cp { cmd = cmd_pair_request; from = (x.config).uuid }))
          (fresh y)
          (fresh x)
        ≡ ok (
          saved_node x (paired_nodes host.crypto x y),
          saved_node y (paired_nodes host.crypto y x),
        )
  unfolding first run
  converse-paired cp w = all_datagrams cp (command_sent w)
