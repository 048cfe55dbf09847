-- ===== src/StateMachine/Addressed.antt =====
-- Which packets `stateMachine` answers (src/dpdChatFabric/dpdChatFabric.c).
use dpd_chat_fabric.Prelude.{
  ◌≡◌, inl, inr, refl, ap, true, false, not, ◌&&◌, ==_refl, [], ◌∷◌, Bool-cases, ok, Holds,
  Holds->>=, Holds-eq_ok, arith,
}
use dpd_chat_fabric.Types.Commands.{
  Command, cmd_hello, cmd_hello_ack, cmd_pair_request, error_ok, error_invaild_dest,
}
use dpd_chat_fabric.Types.Structs.{ChatPacket, Uuid}
use dpd_chat_fabric.Crypto.{Crypto}
use dpd_chat_fabric.StateMachine.{
  Machine, handle_pair, uuid_eq, addressed, is_open, address_reply, save_pair, state_machine,
}

-- The packet is for the machine: it was sent to both of the machine's uuids, or it is a CMD_HELLO, a
-- CMD_HELLO_ACK or a CMD_PAIR_REQUEST.
pub data IsFor (m : Machine) (cp : ChatPacket) : Type 0 where
  to_both_uuids : (cp.to).u0 ≡ ((m.config).uuid).u0 → (cp.to).u1 ≡ ((m.config).uuid).u1 → IsFor m cp
  is_hello : cp.cmd ≡ cmd_hello → IsFor m cp
  is_hello_ack : cp.cmd ≡ cmd_hello_ack → IsFor m cp
  is_pair_request : cp.cmd ≡ cmd_pair_request → IsFor m cp

uuid_eq-true : (u v : Uuid) → uuid_eq u v ≡ true → u ≡ v
unfolding uuid_eq
uuid_eq-true [] [] h = refl
uuid_eq-true [] (b ∷ v) h = absurd (ground (arith, h))
uuid_eq-true (a ∷ u) [] h = absurd (ground (arith, h))
uuid_eq-true (a ∷ u) (b ∷ v) h =
    let first : a ≡ b = ground (arith, h) in
    let rest : u ≡ v = uuid_eq-true u v (ground (arith, h)) in λ i. first i ∷ rest i

uuid_eq_refl : (u : Uuid) → uuid_eq u u ≡ true
unfolding uuid_eq
uuid_eq_refl [] = refl
uuid_eq_refl (a ∷ u) = rw (==_refl a) (uuid_eq_refl u)

is_open-IsFor :
    (m : Machine) (cp : ChatPacket) (c : Command) → cp.cmd ≡ c → is_open c ≡ true → IsFor m cp
is_open-IsFor m cp cmd_hello e h = is_hello e
is_open-IsFor m cp cmd_hello_ack e h = is_hello_ack e
is_open-IsFor m cp cmd_pair_request e h = is_pair_request e
is_open-IsFor m cp _ e h = absurd (ground (arith, h))

heard_lem :
    (m : Machine) (cp : ChatPacket)
    → (not (addressed cp m) && not (is_open cp.cmd)) ≡ false
    → IsFor m cp
unfolding addressed
heard_lem m cp h = elim (Bool-cases (is_open cp.cmd)) [
  | inl e ↦ is_open-IsFor m cp cp.cmd refl e
  | inr e ↦
      to_both_uuids (uuid_eq-true (cp.to).u0 ((m.config).uuid).u0 (ground (arith, h, e)))
        (uuid_eq-true (cp.to).u1 ((m.config).uuid).u1 (ground (arith, h, e)))
]

IsFor-not_heard :
    (m : Machine) (cp : ChatPacket)
    → (not (addressed cp m) && not (is_open cp.cmd)) ≡ true
    → ¬ IsFor m cp
unfolding addressed
IsFor-not_heard m cp h (to_both_uuids p q) =
    let e : uuid_eq (cp.to).u0 ((m.config).uuid).u0 ≡ true =
      rw p (uuid_eq_refl ((m.config).uuid).u0) in
    let f : uuid_eq (cp.to).u1 ((m.config).uuid).u1 ≡ true =
      rw q (uuid_eq_refl ((m.config).uuid).u1) in
    ground (arith, h, e, f)
IsFor-not_heard m cp h (is_hello e) = ground (arith, h, ap is_open e)
IsFor-not_heard m cp h (is_hello_ack e) = ground (arith, h, ap is_open e)
IsFor-not_heard m cp h (is_pair_request e) = ground (arith, h, ap is_open e)

-- The packet was for the machine and is answered, or it was not and nothing but the error has changed.
pub data IsHeard (cp : ChatPacket) (m m' : Machine) : Type 0 where
  heard : IsFor m cp → m'.error ≡ error_ok → IsHeard cp m m'
  not_heard : ¬ IsFor m cp → m' ≡ record m { error = error_invaild_dest } → IsHeard cp m m'

answered_or_kept :
    (k : Crypto) (cp : ChatPacket) (m : Machine) → Holds (IsHeard cp m) (state_machine k cp m)
unfolding state_machine
answered_or_kept k cp m = elim (Bool-cases (not (addressed cp m) && not (is_open cp.cmd))) [
  | inl e ↦ rw e (not_heard (IsFor-not_heard m cp e) refl)
  | inr e ↦ rw e (
      Holds->>= (IsHeard cp m) (handle_pair k cp cp.cmd (address_reply cp m)) _ λ t et.
        Holds->>= (IsHeard cp m) (save_pair (m.pair).state t.machine) _
          λ m'' em. heard (heard_lem m cp e) refl)
]

-- Where `stateMachine` returns on a packet that was sent to both of the machine's uuids, or is a
-- CMD_HELLO, a CMD_HELLO_ACK or a CMD_PAIR_REQUEST, it has reported ERROR_OK, and on any other packet
-- it has changed nothing of the configuration, the pairing, the reply, the reply's command and the
-- files, only the error.
pub state_machine-IsHeard :
    (k : Crypto) (cp : ChatPacket) (m m' : Machine) → state_machine k cp m ≡ ok m' → IsHeard cp m m'
state_machine-IsHeard k cp m m' h =
    Holds-eq_ok (IsHeard cp m) (state_machine k cp m) (answered_or_kept k cp m) h
