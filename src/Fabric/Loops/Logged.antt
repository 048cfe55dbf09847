-- ===== src/Fabric/Loops/Logged.antt =====
-- A system whose messages are logged, for the calls of src/dpdChatFabric/dpdChatFabric.c.
use dpd_chat_fabric.Prelude.{
  ℕ, zero, suc, ◌≡◌, refl, ◌∙◌, sym, subst, ◌⊎◌, true, none, some, List, ◌∷◌, if◌then◌else◌, inl,
  inr, Bool-cases, arith,
}
use dpd_chat_fabric.Fabric.Connection.{
  Connection, System, is_stream, is_open_socket, channel, open_socket, consetup, reconnect, receive,
  datagram, write_channel, read_channel, close_stream, send,
}

-- At most n copies of a message are put in front of a list.
pub data Copies (msg : List ℕ) : ℕ → List (List ℕ) → List (List ℕ) → Type 0 where
  none_more : {n : ℕ} {l : List (List ℕ)} → Copies msg n l l
  copy : {n : ℕ} {l l' : List (List ℕ)} → Copies msg n (msg ∷ l) l' → Copies msg (suc n) l l'

one_try_more :
    {msg : List ℕ} {n : ℕ} {l l' : List (List ℕ)} → Copies msg n l l' → Copies msg (suc n) l l'
one_try_more none_more = none_more
one_try_more (copy c) = copy (one_try_more c)

module _ {W : Type 0} (system : System W) where
  -- What is written is put in front of a list.
  abbrev pub logged : System (W × List (List ℕ))
  logged = record {
    socket = λ w. let r = system.socket w.0 in (r.0, (r.1, w.1));
    accept = λ s w. let r = system.accept s w.0 in (r.0, (r.1, w.1));
    setsockopt = λ s w. (system.setsockopt s w.0, w.1);
    bind = λ s w. (system.bind s w.0, w.1);
    listen = λ s w. (system.listen s w.0, w.1);
    connect = λ s w. (system.connect s w.0, w.1);
    close = λ s w. (system.close s w.0, w.1);
    read = λ s w. let r = system.read s w.0 in (r.0, (r.1, w.1));
    write = λ s msg w. let r = system.write s msg w.0 in (r.0, (r.1, msg ∷ w.1));
    arc4random = λ w. let r = system.arc4random w.0 in (r.0, (r.1, w.1));
  }

  open_socket-logged : (c : Connection) (w : W × List (List ℕ)) → (open_socket logged c w).1.1 ≡ w.1
  unfolding open_socket
  open_socket-logged c w = ground arith

  pub consetup-logged : (c : Connection) (w : W × List (List ℕ)) → (consetup logged c w).1.1 ≡ w.1
  unfolding consetup
  consetup-logged c w = ground (arith, open_socket-logged c w)

  reconnect-logged : (c : Connection) (w : W × List (List ℕ)) → (reconnect logged c w).1.1 ≡ w.1
  unfolding reconnect
  reconnect-logged c w =
      elim c.socket
        as (λ s.
          (consetup logged (record c { socket = none; accepted_socket = none })
            (elim s [ none ↦ w | some t ↦ if is_stream c then logged.close t w else w ])).1.1
          ≡ w.1) [
            | none ↦ consetup-logged (record c { socket = none; accepted_socket = none }) w
            | some t ↦
                consetup-logged (record c { socket = none; accepted_socket = none })
                  (if is_stream c then logged.close t w else w)
                ∙ ground arith
          ]

  pub close_stream-logged :
      (c : Connection) (w : W × List (List ℕ)) → (close_stream logged c w).1.1 ≡ w.1
  unfolding close_stream
  close_stream-logged c w = ground arith

  read_channel-logged :
      (c : Connection) (w : W × List (List ℕ)) → (read_channel logged c w).1.1 ≡ w.1
  read_channel-logged c w = ground arith

  pub receive-logged :
      (retry : ℕ) (c : Connection) (w : W × List (List ℕ)) → (receive logged retry c w).1.1.1 ≡ w.1
  unfolding receive
  receive-logged zero c w = refl
  receive-logged (suc retry) c w =
      let r = read_channel logged c w in
      let again = reconnect logged c r.1 in
      ground (
        arith,
        read_channel-logged c w,
        reconnect-logged c r.1,
        receive-logged retry again.0 again.1,
      )

  -- A datagram comes from a channel, on which the reply is written.
  pub receive-channel :
      (retry : ℕ) (c : Connection) (w : W × List (List ℕ)) (x : List ℕ)
      → (receive logged retry c w).0 ≡ datagram x
      → is_open_socket (channel (receive logged retry c w).1.0) ≡ true
  unfolding receive
  receive-channel zero c w x e = absurd (ground (arith, e))
  receive-channel (suc retry) c w x e =
      let r = read_channel logged c w in
      let again = reconnect logged c r.1 in
      ground (arith, e, receive-channel retry again.0 again.1 x)

  pub write_channel-logged :
      (c : Connection) (msg : List ℕ) (w : W × List (List ℕ))
      → is_open_socket (channel c) ≡ true
      → (write_channel logged c msg w).1.1 ≡ msg ∷ w.1
  write_channel-logged c msg w h = ground (arith, h)

  write_channel-cases :
      (c : Connection) (msg : List ℕ) (w : W × List (List ℕ))
      → ((write_channel logged c msg w).1.1 ≡ w.1)
        ⊎ ((write_channel logged c msg w).1.1 ≡ msg ∷ w.1)
  write_channel-cases c msg w = elim (Bool-cases (is_open_socket (channel c))) [
    | inl e ↦ inr (write_channel-logged c msg w e)
    | inr e ↦ inl (ground (arith, e))
  ]

  send-cases :
      (retry : ℕ) (c : Connection) (msg : List ℕ) (w : W × List (List ℕ))
      → ((send logged (suc retry) c msg w).1.1.1 ≡ (write_channel logged c msg w).1.1)
        ⊎ ((send logged (suc retry) c msg w).1.1.1
            ≡ (send logged retry
                (reconnect logged c (write_channel logged c msg w).1).0
                msg
                (reconnect logged c (write_channel logged c msg w).1).1).1.1.1)
  unfolding send
  send-cases retry c msg w =
      let r = write_channel logged c msg w in ground (arith, reconnect-logged c r.1)

  pub send-logged :
      (retry : ℕ) (c : Connection) (msg : List ℕ) (w : W × List (List ℕ))
      → Copies msg retry w.1 (send logged retry c msg w).1.1.1
  unfolding send
  send-logged zero c msg w = none_more
  send-logged (suc retry) c msg w =
      let r = write_channel logged c msg w in
      let again = reconnect logged c r.1 in
      let rest : Copies msg retry r.1.1 (send logged retry again.0 msg again.1).1.1.1 =
        subst (λ l. Copies msg retry l (send logged retry again.0 msg again.1).1.1.1)
          (reconnect-logged c r.1) (send-logged retry again.0 msg again.1) in
      let after_write : Copies msg retry r.1.1 (send logged (suc retry) c msg w).1.1.1 =
        elim (send-cases retry c msg w) [
          | inl e ↦ subst (Copies msg retry r.1.1) (sym e) none_more
          | inr e ↦ subst (Copies msg retry r.1.1) (sym e) rest
        ] in
      elim (write_channel-cases c msg w) [
        | inl e ↦
            one_try_more (
              subst (λ l. Copies msg retry l (send logged (suc retry) c msg w).1.1.1) e after_write)
        | inr e ↦
            copy (
              subst (λ l. Copies msg retry l (send logged (suc retry) c msg w).1.1.1) e after_write)
      ]
