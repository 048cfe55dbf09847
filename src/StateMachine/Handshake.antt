-- ===== src/StateMachine/Handshake.antt =====
-- Two machines that answer each other (src/dpdChatFabric/dpdChatFabric.c): a pairing from
-- CMD_PAIR_REQUEST to STATE_PAIRED on both sides.
use dpd_chat_fabric.Prelude.{
  ℕ, zero, suc, ◌≡◌, refl, sym, ap, ◌∙◌, Bool, true, false, List, [], ◌∷◌, Outcome, ok, no_fuel,
  ◌>>=◌, ◌==◌, ==_refl, if◌then◌else◌, not, ◌&&◌, Bool-cases, inl, inr,
}
use dpd_chat_fabric.Types.Commands.{
  error_ok, cmd_pair_request, cmd_nonce_send, cmd_send_reply_true, cmd_send_reply_false,
  state_nonce_setup, command_number, PairState, state_unconfigured, state_paired, state_number,
}
use dpd_chat_fabric.Types.Structs.{ChatPacket, Pairing, Uuid}
use dpd_chat_fabric.Crypto.{Crypto}
use dpd_chat_fabric.PairFile.{cf_pair_write}
use dpd_chat_fabric.PairFile.RoundTrip.{IsStorable, cf_pair_write-bytes}
use dpd_chat_fabric.StateMachine.{
  uuid_eq, Machine, Turn, is_open, handle_pair, handle_nonce, handle_publickey, publickey_request,
  publickey_ack, publickey_send, nonce_request, nonce_send, addressed, address_reply, save_pair,
  state_machine,
}

-- x receives a packet; if it is to reply, then y receives the reply, and so on.
unfoldable pub exchange : Crypto → ℕ → ChatPacket → Machine → Machine → Outcome (Machine × Machine)
exchange k zero cp x y = no_fuel
exchange k (suc n) cp x y = do
  x' ← state_machine k cp x
  let rest = exchange k n x'.reply y x'
  if command_number x'.reply_cmd == command_number cmd_send_reply_true then rest else ok (x', y)

-- A machine before its first pairing.
abbrev pub fresh : Machine → Machine
fresh m = record m {
  pair = record (m.pair) { state = state_unconfigured; has_public_key = 0; has_nonce = 0 };
}

-- The pairing of x with y: the uuids, the key and the nonce of y, and the shared key.
abbrev pub paired_with : Crypto → Machine → Machine → Pairing
paired_with k x y = record (x.pair) {
  state = state_paired;
  has_public_key = 1;
  has_nonce = 1;
  uuid = (y.config).uuid;
  publickey = (y.config).publickey;
  nonce = (y.pair).mynonce;
  sharedkey = k.curve25519_donna (x.config).privatekey (y.config).publickey;
}

uuid_eq_refl : (u : Uuid) → uuid_eq u u ≡ true
unfolding uuid_eq
uuid_eq_refl [] = refl
uuid_eq_refl (b ∷ bs) = rw (==_refl b, uuid_eq_refl bs) refl

-- The packet that opens the pairing.
abbrev pub opening : Machine → ChatPacket → ChatPacket
opening x cp = record cp { cmd = cmd_pair_request; from = (x.config).uuid }

pub heard :
    (k : Crypto) (cp : ChatPacket) (m : Machine)
    → (not (addressed cp m) && not (is_open cp.cmd)) ≡ false
    → state_machine k cp m ≡ (
        handle_pair k cp cp.cmd (address_reply cp m) >>= λ t.
        save_pair (m.pair).state t.machine >>= λ m'.
        ok (record m' { reply_cmd = t.retval; error = error_ok }))
unfolding state_machine
heard k cp m h = rw h refl

-- One delivery that is answered.
answered :
    (k : Crypto) (n : ℕ) (cp : ChatPacket) (x x' y : Machine) (t : Turn)
    → (not (addressed cp x) && not (is_open cp.cmd)) ≡ false
    → handle_pair k cp cp.cmd (address_reply cp x) ≡ ok t
    → save_pair (x.pair).state t.machine ≡ ok x'
    → t.retval ≡ cmd_send_reply_true
    → exchange k (suc n) cp x y
      ≡ exchange k n x'.reply y (record x' { reply_cmd = cmd_send_reply_true; error = error_ok })
unfolding exchange command_number
answered k n cp x x' y t h e s r = rw (heard k cp x h, e, s, r) refl

-- A delivery to the machine itself.
to_me : (cp : ChatPacket) (m : Machine) → cp.to ≡ (m.config).uuid → addressed cp m ≡ true
unfolding addressed
to_me cp m e = rw (e, uuid_eq_refl ((m.config).uuid).u0, uuid_eq_refl ((m.config).uuid).u1) refl

pub mine :
    (cp : ChatPacket) (m : Machine)
    → cp.to ≡ (m.config).uuid
    → (not (addressed cp m) && not (is_open cp.cmd)) ≡ false
mine cp m e = rw (to_me cp m e) refl

pub opened : (b : Bool) → (not b && not true) ≡ false
opened true = refl
opened false = refl

-- A machine whose new pairing has been saved.
abbrev saved : Machine → List ℕ → Machine
saved m w = record m {
  config = record (m.config) { has_pairs = 1 };
  files = record (m.files) { pair_file = if (m.files).pair_opens then w else (m.files).pair_file };
}

pub save_pair_lem :
    (s : PairState) (m : Machine) (w : List ℕ)
    → (state_number s == state_number (m.pair).state) ≡ false
    → (state_number (m.pair).state == state_number state_paired) ≡ true
    → cf_pair_write m.pair ≡ ok w
    → save_pair s m ≡ ok (saved m w)
unfolding save_pair state_number
save_pair_lem s m w d p e = elim (Bool-cases (m.files).pair_opens) [
  | inl o ↦ rw (d, p, o, e) refl
  | inr o ↦ rw (d, p, o) refl
]

-- One delivery that is not answered.
silenced :
    (k : Crypto) (n : ℕ) (cp : ChatPacket) (x x' y : Machine) (t : Turn)
    → (not (addressed cp x) && not (is_open cp.cmd)) ≡ false
    → handle_pair k cp cp.cmd (address_reply cp x) ≡ ok t
    → save_pair (x.pair).state t.machine ≡ ok x'
    → t.retval ≡ cmd_send_reply_false
    → exchange k (suc n) cp x y
      ≡ ok (record x' { reply_cmd = cmd_send_reply_false; error = error_ok }, y)
unfolding exchange command_number
silenced k n cp x x' y t h e s r = rw (heard k cp x h, e, s, r) refl

-- A run that ends with two pairings.
abbrev pub Ends : Outcome (Machine × Machine) → Pairing → Pairing → Type 0
Ends run p q = (r : Machine × Machine) × ((run ≡ ok r) × (((r.0).pair ≡ p) × ((r.1).pair ≡ q)))

abbrev waiting : Machine → Machine
waiting m = record m { pair = record (m.pair) { state = state_nonce_setup } }

abbrev done : Pairing → Pairing
done p = record p { state = state_paired }

abbrev told : ChatPacket → Pairing → Pairing
told cp p = record p { state = state_paired; nonce = cp.nonce; has_nonce = 1 }

-- The last two deliveries: p learns the nonce of q, which has that of p already.
nonces :
    (k : Crypto) (n : ℕ) (cp : ChatPacket) (p q : Machine)
    → IsStorable (told cp p.pair)
    → IsStorable (done q.pair)
    → Ends
        (exchange k
          (suc (suc n))
          (record cp {
            cmd = cmd_nonce_send;
            flags = 1;
            to = (p.config).uuid;
            from = (q.config).uuid;
          })
          (waiting p)
          (waiting q))
        (done q.pair)
        (told cp p.pair)
unfolding handle_pair handle_nonce nonce_send state_number
nonces k n cp p q sp sq = (
  _,
  (
    answered k (suc n) _ (waiting p) _ (waiting q) _ (mine _ _ refl) refl
          (save_pair_lem state_nonce_setup _ _ refl refl (cf_pair_write-bytes (told cp p.pair) sp))
          refl
        ∙ silenced k n _ (waiting q) _ _ _ (mine _ _ refl) refl
            (save_pair_lem state_nonce_setup _ _ refl refl (cf_pair_write-bytes (done q.pair) sq))
            refl,
    (refl, refl),
  ),
)

-- A machine that has the other's key, and is to learn or has learnt its nonce.
abbrev keyed : Crypto → Machine → Machine → ℕ → List ℕ → Machine
keyed k m other has_nonce nonce = record m {
  pair = record (paired_with k m other) {
    state = state_nonce_setup;
    has_nonce = has_nonce;
    nonce = nonce;
  };
  reply = record (m.reply) {
    cmd = cmd_nonce_send;
    flags = has_nonce;
    nonce = (m.pair).mynonce;
    publickey = (m.config).publickey;
    to = (other.config).uuid;
    from = (m.config).uuid;
  };
  reply_cmd = cmd_send_reply_true;
  error = error_ok;
}

-- The first eight deliveries: uuids, keys, and the nonce of y.
keys :
    (k : Crypto) (cp : ChatPacket) (x y : Machine)
    → exchange k 10 (opening x cp) (fresh y) (fresh x)
      ≡ exchange k 2
          (keyed k x y 1 (y.pair).mynonce).reply
          (keyed k y x 0 (y.pair).nonce)
          (keyed k x y 1 (y.pair).mynonce)
unfolding handle_pair handle_nonce handle_publickey publickey_request publickey_ack publickey_send
    nonce_request nonce_send save_pair state_number
keys k cp x y =
    answered k 9 (opening x cp) (fresh y) _ (fresh x) _
      (opened (addressed (opening x cp) (fresh y))) refl refl refl
    ∙ (answered k 8 _ _ _ _ _ (mine _ _ refl) refl refl refl
        ∙ (answered k 7 _ _ _ _ _ (mine _ _ refl) refl refl refl
            ∙ (answered k 6 _ _ _ _ _ (mine _ _ refl) refl refl refl
                ∙ (answered k 5 _ _ _ _ _ (mine _ _ refl) refl refl refl
                    ∙ (answered k 4 _ _ _ _ _ (mine _ _ refl) refl refl refl
                        ∙ (answered k 3 _ _ _ _ _ (mine _ _ refl) refl refl refl
                            ∙ answered k 2 _ _ _ _ _ (mine _ _ refl) refl refl refl))))))

-- Two machines that have not been paired and answer each other after a CMD_PAIR_REQUEST of x are both
-- paired after ten deliveries: each has the other's uuids, key and nonce, and the shared key from its
-- own secret and the other's key. The pairings are of the sizes that the file of a pairing stores.
pub exchange-paired :
    (k : Crypto) (cp : ChatPacket) (x y : Machine)
    → IsStorable (paired_with k x y)
    → IsStorable (paired_with k y x)
    → Ends
        (exchange k 10 (opening x cp) (fresh y) (fresh x))
        (paired_with k x y)
        (paired_with k y x)
exchange-paired k cp x y sx sy =
    let p = keyed k y x 0 (y.pair).nonce in
    let q = keyed k x y 1 (y.pair).mynonce in
    let e = nonces k 0 q.reply p q sy sx in (e.0, (keys k cp x y ∙ (e.1).0, (e.1).1))

-- If moreover each public key is made from the secret with the same base point, and the curve commutes
-- on that point as a Diffie-Hellman exchange needs, then both machines hold the same shared key.
pub exchange-same_key :
    (k : Crypto) (base : List ℕ) (cp : ChatPacket) (x y : Machine)
    → ((s t : List ℕ)
        → k.curve25519_donna s (k.curve25519_donna t base)
          ≡ k.curve25519_donna t (k.curve25519_donna s base))
    → (x.config).publickey ≡ k.curve25519_donna (x.config).privatekey base
    → (y.config).publickey ≡ k.curve25519_donna (y.config).privatekey base
    → IsStorable (paired_with k x y)
    → IsStorable (paired_with k y x)
    → (r : Machine × Machine) × ((exchange k 10 (opening x cp) (fresh y) (fresh x) ≡ ok r)
        × ((((r.0).pair).sharedkey ≡ ((r.1).pair).sharedkey)
            × ((((r.0).pair).state ≡ state_paired) × (((r.1).pair).state ≡ state_paired))))
exchange-same_key k base cp x y commutes ex ey sx sy =
    let e = exchange-paired k cp x y sx sy in
    let a = ((e.1).1).0 in
    let b = ((e.1).1).1 in
    (
      e.0,
      (
        (e.1).0,
        (
          ap (λ p. p.sharedkey) a
              ∙ (ap (k.curve25519_donna (x.config).privatekey) ey
                  ∙ (commutes (x.config).privatekey (y.config).privatekey
                      ∙ (ap (k.curve25519_donna (y.config).privatekey) (sym ex)
                          ∙ sym (ap (λ p. p.sharedkey) b)))),
          (ap (λ p. p.state) a, ap (λ p. p.state) b),
        ),
      ),
    )
