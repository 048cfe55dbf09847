-- ===== src/StateMachine/Steps.antt =====
-- Which moves of the pairing's state `state_machine` makes (src/dpdChatFabric/dpdChatFabric.c).
use dpd_chat_fabric.Prelude.{
  Holds, Holds->>=, Holds-eq_ok, Bool-cases, ◌≡◌, ◌≢◌, inl, inr, refl, sym, subst, Outcome, ok,
  fault, no_fuel, ◌>>=◌, ◌==◌, not, ◌&&◌, arith,
}
use dpd_chat_fabric.Types.Commands.{
  Command, cmd_config_get, cmd_config_set, cmd_app_message, cmd_app_message_ack, cmd_app_register,
  cmd_app_list, cmd_app_list_ack, cmd_pair_request, cmd_pair_request_ack, cmd_pair_request_reset,
  cmd_nonce_request, cmd_nonce_send, cmd_nonce_ack, cmd_nonce_reset, cmd_publickey_reset, cmd_hello,
  cmd_hello_ack, cmd_publickey_send, cmd_publickey_request, cmd_publickey_ack, cmd_verify_syn,
  cmd_verify_synack, cmd_verify_ack, PairState, state_unconfigured, state_publickey_setup,
  state_nonce_setup, state_configured, state_configured_syn, state_configured_synack, state_paired,
  state_number, error_ok,
}
use dpd_chat_fabric.Types.Structs.{ChatPacket}
use dpd_chat_fabric.Crypto.{Crypto}
use dpd_chat_fabric.Config.{cf_config_read, create_config_string, cf_config_write}
use dpd_chat_fabric.PairFile.{cf_pair_write}
use dpd_chat_fabric.StateMachine.{
  Machine, Turn, handle_config, handle_app, handle_verify, publickey_request, publickey_ack,
  publickey_send, nonce_request, nonce_send, handle_publickey, handle_nonce, handle_pair, save_pair,
  state_machine, addressed, is_open, address_reply, silent,
}

-- The three states of the verification.
pub data IsConfigured : PairState → Type 0 where
  plain : IsConfigured state_configured
  after_syn : IsConfigured state_configured_syn
  after_synack : IsConfigured state_configured_synack

-- The diagram: what a command does to the state.
pub data Edge : Command → PairState → PairState → Type 0 where
  stay : {c : Command} {s : PairState} → Edge c s s
  request : Edge cmd_pair_request state_unconfigured state_publickey_setup
  request_ack : Edge cmd_pair_request_ack state_unconfigured state_publickey_setup
  reset : {s : PairState} → s ≢ state_paired → Edge cmd_pair_request_reset s state_unconfigured
  key_ack : Edge cmd_publickey_ack state_publickey_setup state_nonce_setup
  key : Edge cmd_publickey_send state_publickey_setup state_nonce_setup
  no_key : Edge cmd_nonce_request state_nonce_setup state_unconfigured
  nonce_ack : Edge cmd_nonce_ack state_nonce_setup state_paired
  nonce : Edge cmd_nonce_send state_nonce_setup state_paired
  syn : {s : PairState} → IsConfigured s → Edge cmd_verify_syn s state_configured_syn
  synack : {s : PairState} → IsConfigured s → Edge cmd_verify_synack s state_configured_synack
  ack : {s : PairState} → IsConfigured s → Edge cmd_verify_ack s state_paired

abbrev pub KeepsPair : Machine → Machine → Type 0
KeepsPair m m' = m'.pair ≡ m.pair

pub save_pair_pair : (s : PairState) (m : Machine) → Holds (KeepsPair m) (save_pair s m)
unfolding save_pair state_number
save_pair_pair s m = elim (Bool-cases (state_number s == state_number (m.pair).state)) [
  | inl e ↦ rw e refl
  | inr e ↦ rw e (elim (Bool-cases (state_number (m.pair).state == 7)) [
    | inl p ↦ rw p (elim (Bool-cases (m.files).pair_opens) [
      | inl o ↦ rw o (Holds->>= (KeepsPair m) (cf_pair_write m.pair) _ (λ w e. refl))
      | inr o ↦ rw o refl
    ])
    | inr p ↦ rw p refl
  ])
]

abbrev pub KeepsTurn : Machine → Turn → Type 0
KeepsTurn m t = KeepsPair m t.machine

handle_config_pair :
    (cp : ChatPacket) (c : Command) (m : Machine) → Holds (KeepsTurn m) (handle_config cp c m)
unfolding handle_config
handle_config_pair cp cmd_config_get m =
    Holds->>= (KeepsTurn m) (create_config_string m.config) _ (λ w e. refl)
handle_config_pair cp cmd_config_set m =
    Holds->>= (KeepsTurn m) (cf_config_read m.config cp.payload _) _
      λ r e. Holds->>= (KeepsTurn m) (cf_config_write r) _ (λ w e. refl)
handle_config_pair cp _ m = refl

pub handle_app_pair :
    (cp : ChatPacket) (c : Command) (m : Machine) → Holds (KeepsTurn m) (handle_app cp c m)
unfolding handle_app state_number
handle_app_pair cp cmd_app_message m = elim (Bool-cases (state_number (m.pair).state == 7)) [
  | inl e ↦ rw e refl
  | inr e ↦ rw e refl
]
handle_app_pair cp cmd_app_list m = elim (Bool-cases (state_number (m.pair).state == 7)) [
  | inl e ↦ rw e refl
  | inr e ↦ rw e refl
]
handle_app_pair cp cmd_app_message_ack m = refl
handle_app_pair cp cmd_app_register m = refl
handle_app_pair cp cmd_app_list_ack m = refl
handle_app_pair cp c m = handle_config_pair cp c m

-- A turn moves the state along an edge.
abbrev Moves : Command → PairState → Turn → Type 0
Moves c s t = Edge c s ((t.machine).pair).state

ruleset edges = (
  stay, request, request_ack, reset, key_ack, key, no_key, nonce_ack, nonce, syn, synack, ack,
  plain, after_syn, after_synack,
)

publickey_edges :
    (c : Crypto) (cp : ChatPacket) (m : Machine)
    → Moves cmd_publickey_ack (m.pair).state (publickey_request (publickey_ack m))
      × Moves cmd_publickey_request (m.pair).state (publickey_request (silent m))
      × Moves cmd_publickey_send (m.pair).state (publickey_send c cp m)
unfolding publickey_request publickey_ack publickey_send state_number
publickey_edges c cp m = (grind (arith, edges), grind (arith, edges), grind (arith, edges))

nonce_edges :
    (cp : ChatPacket) (m : Machine)
    → Moves cmd_nonce_request (m.pair).state (nonce_request m)
      × Moves cmd_nonce_send (m.pair).state (nonce_send cp m)
unfolding nonce_request nonce_send state_number
nonce_edges cp m = (grind (arith, edges), grind (arith, edges))

still :
    (c : Command) (m : Machine) (o : Outcome Turn)
    → Holds (KeepsTurn m) o
    → Holds (Moves c (m.pair).state) o
still c m (ok t) e = subst (λ p. Edge c (m.pair).state p.state) (sym e) stay
still c m fault e = tt
still c m no_fuel e = tt

handle_verify_edge :
    (cp : ChatPacket) (c : Command) (m : Machine)
    → Holds (Moves c (m.pair).state) (handle_verify cp c m)
unfolding handle_verify state_number
handle_verify_edge cp cmd_verify_syn m = grind (arith, edges)
handle_verify_edge cp cmd_verify_synack m = grind (arith, edges)
handle_verify_edge cp cmd_verify_ack m = grind (arith, edges)
handle_verify_edge cp c m = still c m (handle_app cp c m) (handle_app_pair cp c m)

handle_publickey_edge :
    (k : Crypto) (cp : ChatPacket) (c : Command) (m : Machine)
    → Holds (Moves c (m.pair).state) (handle_publickey k cp c m)
unfolding handle_publickey
handle_publickey_edge k cp cmd_publickey_ack m = (publickey_edges k cp m).0
handle_publickey_edge k cp cmd_publickey_request m = (publickey_edges k cp m).1
handle_publickey_edge k cp cmd_publickey_send m = (publickey_edges k cp m).2
handle_publickey_edge k cp cmd_publickey_reset m = stay
handle_publickey_edge k cp c m = handle_verify_edge cp c m

handle_nonce_edge :
    (k : Crypto) (cp : ChatPacket) (c : Command) (m : Machine)
    → Holds (Moves c (m.pair).state) (handle_nonce k cp c m)
unfolding handle_nonce state_number
handle_nonce_edge k cp cmd_nonce_request m = (nonce_edges cp m).0
handle_nonce_edge k cp cmd_nonce_ack m = grind (arith, edges)
handle_nonce_edge k cp cmd_nonce_send m = (nonce_edges cp m).1
handle_nonce_edge k cp cmd_nonce_reset m = stay
handle_nonce_edge k cp c m = handle_publickey_edge k cp c m

handle_pair_edge :
    (k : Crypto) (cp : ChatPacket) (c : Command) (m : Machine)
    → Holds (Moves c (m.pair).state) (handle_pair k cp c m)
unfolding handle_pair state_number
handle_pair_edge k cp cmd_pair_request_reset m = grind (arith, edges)
handle_pair_edge k cp cmd_hello m = stay
handle_pair_edge k cp cmd_hello_ack m = stay
handle_pair_edge k cp cmd_pair_request m = grind (arith, edges)
handle_pair_edge k cp cmd_pair_request_ack m = grind (arith, edges)
handle_pair_edge k cp c m = handle_nonce_edge k cp c m

abbrev Follows : ChatPacket → Machine → Machine → Type 0
Follows cp m m' = Edge cp.cmd (m.pair).state (m'.pair).state

finish_edge :
    (k : Crypto) (cp : ChatPacket) (m : Machine) (t : Turn)
    → handle_pair k cp cp.cmd (address_reply cp m) ≡ ok t
    → Holds (Follows cp m) (
        save_pair (m.pair).state t.machine >>= λ m'.
        ok (record m' { reply_cmd = t.retval; error = error_ok }))
finish_edge k cp m t e = Holds->>= (Follows cp m) (save_pair (m.pair).state t.machine) _ λ m'' e''.
    let kept = Holds-eq_ok (KeepsPair t.machine) _ (save_pair_pair _ t.machine) e'' in
    subst (λ p. Edge cp.cmd (m.pair).state p.state) (sym kept)
      (Holds-eq_ok (Moves cp.cmd (m.pair).state) _
        (handle_pair_edge k cp cp.cmd (address_reply cp m)) e)

state_machine-Follows :
    (k : Crypto) (cp : ChatPacket) (m : Machine) → Holds (Follows cp m) (state_machine k cp m)
unfolding state_machine
state_machine-Follows k cp m = elim (Bool-cases (not (addressed cp m) && not (is_open cp.cmd))) [
  | inl e ↦ rw e stay
  | inr e ↦ rw e (
      Holds->>= (Follows cp m) (handle_pair k cp cp.cmd (address_reply cp m)) _
        (finish_edge k cp m))
]

-- Whatever packet arrives, in whatever state, where `stateMachine` returns without leaving its buffers
-- the state of the pairing has stayed or followed an edge of the diagram for that command.
pub state_machine-Edge :
    (k : Crypto) (cp : ChatPacket) (m m' : Machine)
    → state_machine k cp m ≡ ok m'
    → Edge cp.cmd (m.pair).state (m'.pair).state
state_machine-Edge k cp m m' h =
    Holds-eq_ok (Follows cp m) (state_machine k cp m) (state_machine-Follows k cp m) h
