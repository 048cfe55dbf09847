-- ===== src/Fabric/Converse/Keys.antt =====
-- The first eight datagrams of a pairing: uuids, keys, and the nonce of y
-- (src/dpdChatFabric/dpdChatFabric.c).
use dpd_chat_fabric.Prelude.{ℕ, ◌≤◌, ◌≡◌, refl}
use dpd_chat_fabric.Types.Commands.{state_number}
use dpd_chat_fabric.Types.Structs.{ChatPacket}
use dpd_chat_fabric.Crypto.{Crypto, CryptoLaws}
use dpd_chat_fabric.Packet.Init.{Dice, IsDice}
use dpd_chat_fabric.StateMachine.{
  handle_pair, handle_nonce, handle_publickey, publickey_request, publickey_ack, publickey_send,
  nonce_request, nonce_send, save_pair,
}
use dpd_chat_fabric.StateMachine.Handshake.{mine, opened}
use dpd_chat_fabric.Fabric.Serve.{Host, Node}
use dpd_chat_fabric.Fabric.Converse.{Flight, Good, run, step}
use dpd_chat_fabric.Fabric.Converse.Flights.{
  first, requested, acknowledged, key_of_y, key_of_x, keys_known, nonce_wanted, nonce_of_y,
  nonce_of_x,
}

module _ (host : Host) (dice : ℕ → Dice × Dice) (laws : CryptoLaws host.crypto)
    (rounds : 14 ≤ host.rounds) (fair : (k : ℕ) → IsDice (dice k).0 × IsDice (dice k).1)
    (x y : Node) where
  -- The n-th packet from the end is made with the dice of that serving.
  abbrev pub made : ℕ → (Crypto → Dice → Node → Node → Flight) → Flight
  made n f = f host.crypto (dice n).1 x y

  pub request_step :
      (cp : ChatPacket)
      → Good (first cp x y)
      → Good (made 9 requested)
      → run host dice 10 (first cp x y) ≡ run host dice 9 (made 9 requested)
  unfolding first requested handle_pair save_pair state_number
  request_step cp g g' =
      step host dice 9 (first cp x y) _ _ laws rounds fair g tt (opened _) refl refl refl refl g'

  pub acknowledged_step :
      Good (made 9 requested)
      → Good (made 8 acknowledged)
      → run host dice 9 (made 9 requested) ≡ run host dice 8 (made 8 acknowledged)
  unfolding requested acknowledged handle_pair save_pair state_number
  acknowledged_step g g' =
      step host dice 8 (made 9 requested) _ _ laws rounds fair g tt (mine _ _ refl) refl refl refl
        refl g'

  pub key_of_y_step :
      Good (made 8 acknowledged)
      → Good (made 7 key_of_y)
      → run host dice 8 (made 8 acknowledged) ≡ run host dice 7 (made 7 key_of_y)
  unfolding acknowledged key_of_y handle_pair handle_nonce handle_publickey publickey_request
      save_pair state_number
  key_of_y_step g g' =
      step host dice 7 (made 8 acknowledged) _ _ laws rounds fair g tt (mine _ _ refl) refl refl
        refl refl g'

  pub key_of_x_step :
      Good (made 7 key_of_y)
      → Good (made 6 key_of_x)
      → run host dice 7 (made 7 key_of_y) ≡ run host dice 6 (made 6 key_of_x)
  unfolding key_of_y key_of_x handle_pair handle_nonce handle_publickey publickey_send save_pair
      state_number
  key_of_x_step g g' =
      step host dice 6 (made 7 key_of_y) _ _ laws rounds fair g tt (mine _ _ refl) refl refl refl
        refl g'

  pub keys_known_step :
      Good (made 6 key_of_x)
      → Good (made 5 keys_known)
      → run host dice 6 (made 6 key_of_x) ≡ run host dice 5 (made 5 keys_known)
  unfolding key_of_x keys_known handle_pair handle_nonce handle_publickey publickey_send save_pair
      state_number
  keys_known_step g g' =
      step host dice 5 (made 6 key_of_x) _ _ laws rounds fair g tt (mine _ _ refl) refl refl refl
        refl g'

  pub nonce_wanted_step :
      Good (made 5 keys_known)
      → Good (made 4 nonce_wanted)
      → run host dice 5 (made 5 keys_known) ≡ run host dice 4 (made 4 nonce_wanted)
  unfolding keys_known nonce_wanted handle_pair handle_nonce handle_publickey publickey_request
      publickey_ack save_pair state_number
  nonce_wanted_step g g' =
      step host dice 4 (made 5 keys_known) _ _ laws rounds fair g tt (mine _ _ refl) refl refl refl
        refl g'

  pub nonce_of_y_step :
      Good (made 4 nonce_wanted)
      → Good (made 3 nonce_of_y)
      → run host dice 4 (made 4 nonce_wanted) ≡ run host dice 3 (made 3 nonce_of_y)
  unfolding nonce_wanted nonce_of_y handle_pair handle_nonce nonce_request save_pair state_number
  nonce_of_y_step g g' =
      step host dice 3 (made 4 nonce_wanted) _ _ laws rounds fair g tt (mine _ _ refl) refl refl
        refl refl g'

  pub nonce_of_x_step :
      Good (made 3 nonce_of_y)
      → Good (made 2 nonce_of_x)
      → (host.crypto).curve25519_donna (x.config).privatekey (y.config).publickey
        ≡ (host.crypto).curve25519_donna (y.config).privatekey (x.config).publickey
      → (x.pair).nullnonce ≡ (y.pair).nullnonce
      → run host dice 3 (made 3 nonce_of_y) ≡ run host dice 2 (made 2 nonce_of_x)
  unfolding nonce_of_y nonce_of_x handle_pair handle_nonce nonce_send save_pair state_number
  nonce_of_x_step g g' key null =
      step host dice 2 (made 3 nonce_of_y) _ _ laws rounds fair g (key, null) (mine _ _ refl) refl
        refl refl refl g'
