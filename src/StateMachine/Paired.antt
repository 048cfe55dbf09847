-- ===== src/StateMachine/Paired.antt =====
-- What a packet can do to a pairing that is paired (src/dpdChatFabric/dpdChatFabric.c).
use dpd_chat_fabric.Prelude.{
  Holds, Holds->>=, Holds-eq_ok, Bool-cases, ◌≡◌, ◌⊎◌, inl, inr, refl, sym, subst, Outcome, ok,
  fault, no_fuel, not, ◌&&◌,
}
use dpd_chat_fabric.Types.Commands.{
  Command, cmd_hello, cmd_hello_ack, cmd_pair_request, cmd_pair_request_ack, cmd_pair_request_reset,
  cmd_nonce_request, cmd_nonce_send, cmd_nonce_ack, cmd_nonce_reset, cmd_publickey_send,
  cmd_publickey_request, cmd_publickey_ack, cmd_publickey_reset, cmd_verify_syn, cmd_verify_synack,
  cmd_verify_ack, state_paired, state_number,
}
use dpd_chat_fabric.Types.Structs.{ChatPacket, Pairing}
use dpd_chat_fabric.Crypto.{Crypto}
use dpd_chat_fabric.StateMachine.{
  Machine, Turn, adopt, handle_verify, publickey_request, publickey_ack, publickey_send,
  nonce_request, nonce_send, handle_publickey, handle_nonce, handle_pair, save_pair, state_machine,
  addressed, is_open, address_reply,
}
use dpd_chat_fabric.StateMachine.Steps.{KeepsPair, KeepsTurn, save_pair_pair, handle_app_pair}

abbrev IsPaired : Machine → Type 0
IsPaired m = (m.pair).state ≡ state_paired

handle_verify_paired :
    (cp : ChatPacket) (c : Command) (m : Machine)
    → IsPaired m
    → Holds (KeepsTurn m) (handle_verify cp c m)
unfolding handle_verify state_number
handle_verify_paired cp cmd_verify_syn m h = rw h refl
handle_verify_paired cp cmd_verify_synack m h = rw h refl
handle_verify_paired cp cmd_verify_ack m h = rw h refl
handle_verify_paired cp c m h = handle_app_pair cp c m

handle_publickey_paired :
    (k : Crypto) (cp : ChatPacket) (c : Command) (m : Machine)
    → IsPaired m
    → Holds (KeepsTurn m) (handle_publickey k cp c m)
unfolding handle_publickey publickey_request publickey_ack publickey_send state_number
handle_publickey_paired k cp cmd_publickey_ack m h = rw h refl
handle_publickey_paired k cp cmd_publickey_request m h = rw h refl
handle_publickey_paired k cp cmd_publickey_send m h = rw h refl
handle_publickey_paired k cp cmd_publickey_reset m h = refl
handle_publickey_paired k cp c m h = handle_verify_paired cp c m h

handle_nonce_paired :
    (k : Crypto) (cp : ChatPacket) (c : Command) (m : Machine)
    → IsPaired m
    → Holds (KeepsTurn m) (handle_nonce k cp c m)
unfolding handle_nonce nonce_request nonce_send state_number
handle_nonce_paired k cp cmd_nonce_request m h = rw h refl
handle_nonce_paired k cp cmd_nonce_ack m h = rw h refl
handle_nonce_paired k cp cmd_nonce_send m h = rw h refl
handle_nonce_paired k cp cmd_nonce_reset m h = refl
handle_nonce_paired k cp c m h = handle_publickey_paired k cp c m h

-- The pairing is left as it was, but for the uuids after a CMD_PAIR_REQUEST.
abbrev pub Settles : ChatPacket → Command → Machine → Pairing → Type 0
Settles cp c m p = (p ≡ m.pair) ⊎ ((c ≡ cmd_pair_request) × (p ≡ adopt cp m.pair))

abbrev SettlesTurn : ChatPacket → Command → Machine → Turn → Type 0
SettlesTurn cp c m t = Settles cp c m (t.machine).pair

kept :
    (cp : ChatPacket) (c : Command) (m : Machine) (o : Outcome Turn)
    → Holds (KeepsTurn m) o
    → Holds (SettlesTurn cp c m) o
kept cp c m (ok t) e = inl e
kept cp c m fault e = tt
kept cp c m no_fuel e = tt

handle_pair_paired :
    (k : Crypto) (cp : ChatPacket) (c : Command) (m : Machine)
    → IsPaired m
    → Holds (SettlesTurn cp c m) (handle_pair k cp c m)
unfolding handle_pair state_number
handle_pair_paired k cp cmd_pair_request_reset m h = rw h (inl refl)
handle_pair_paired k cp cmd_hello m h = inl refl
handle_pair_paired k cp cmd_hello_ack m h = inl refl
handle_pair_paired k cp cmd_pair_request m h = rw h (inr (refl, refl))
handle_pair_paired k cp cmd_pair_request_ack m h = rw h (inl refl)
handle_pair_paired k cp c m h = kept cp c m (handle_nonce k cp c m) (handle_nonce_paired k cp c m h)

abbrev SettlesMachine : ChatPacket → Machine → Machine → Type 0
SettlesMachine cp m m' = Settles cp cp.cmd m m'.pair

state_machine_settles :
    (k : Crypto) (cp : ChatPacket) (m : Machine)
    → IsPaired m
    → Holds (SettlesMachine cp m) (state_machine k cp m)
unfolding state_machine
state_machine_settles k cp m h = elim (Bool-cases (not (addressed cp m) && not (is_open cp.cmd))) [
  | inl e ↦ rw e (inl refl)
  | inr e ↦ rw e (
      Holds->>= (SettlesMachine cp m) (handle_pair k cp cp.cmd (address_reply cp m)) _ λ t et.
        Holds->>= (SettlesMachine cp m) (save_pair (m.pair).state t.machine) _ λ m'' em.
          subst (λ p. Settles cp cp.cmd m p)
            (sym (Holds-eq_ok (KeepsPair t.machine) _ (save_pair_pair _ t.machine) em))
            (Holds-eq_ok (SettlesTurn cp cp.cmd m) _
              (handle_pair_paired k cp cp.cmd (address_reply cp m) h) et))
]

-- Once a pairing is paired, no packet for which `stateMachine` returns changes its state, its keys, its
-- nonces or its serial: it stays as it is, but for the uuids of the peer, which a CMD_PAIR_REQUEST
-- replaces by the sender's.
pub state_machine_paired :
    (k : Crypto) (cp : ChatPacket) (m m' : Machine)
    → (m.pair).state ≡ state_paired
    → state_machine k cp m ≡ ok m'
    → (m'.pair ≡ m.pair) ⊎ ((cp.cmd ≡ cmd_pair_request) × (m'.pair ≡ adopt cp m.pair))
state_machine_paired k cp m m' p h =
    Holds-eq_ok (SettlesMachine cp m) (state_machine k cp m) (state_machine_settles k cp m p) h
