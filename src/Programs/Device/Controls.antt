-- ===== src/Programs/Device/Controls.antt =====
-- A control of the device that is set and asked for (src/bin/device.c).
use dpd_chat_fabric.Prelude.{
  ℕ, suc, ◌<◌, ◌^◌, ◌≡◌, inl, inr, refl, sym, ap, ◌∙◌, List, [], ◌∷◌, length, drop, take_all,
  append-nil, positive32, ◌==◌, ==_refl, if◌then◌else◌, Bool-cases, arith,
}
use dpd_chat_fabric.Types.Commands.{action_get, action_set, action_read}
use dpd_chat_fabric.Types.Structs.{ChatPacket, Control}
use dpd_chat_fabric.StateMachine.{Machine}
use dpd_chat_fabric.Programs.Device.{visit_control, visit_controls, device_call_back}

-- One of the controls has the number k.
pub data HasControl (k : ℕ) : List Control → Type 0 where
  here : {cs : List Control} (c : Control) → c.control ≡ k → HasControl k (c ∷ cs)
  there : {cs : List Control} (c : Control) → HasControl k cs → HasControl k (c ∷ cs)

-- A reply that tells the value v.
abbrev Tells : ℕ → ChatPacket → Type 0
Tells v reply = (reply.action ≡ action_read) × (reply.action_value ≡ v)

module _ (set get : ChatPacket) (s : set.action ≡ action_set) (g : get.action ≡ action_get)
    (same : get.action_control ≡ set.action_control) where
  -- After the control has been visited for both packets.
  after : Control → ChatPacket → ChatPacket → ChatPacket
  after c r r' = (visit_control get (visit_control set c r).0 r').1

  visited :
      (c : Control) (r r' : ChatPacket)
      → c.control ≡ set.action_control
      → Tells set.action_value (after c r r')
  unfolding after visit_control
  visited c r r' e =
      rw (same, e, ==_refl set.action_control, s, ==_refl set.action_control, g) (refl, refl)

  passed :
      (c : Control) (r r' : ChatPacket)
      → Tells set.action_value r'
      → Tells set.action_value (after c r r')
  unfolding after visit_control
  passed c r r' t = elim (Bool-cases (c.control == set.action_control)) [
    | inl e ↦ rw (same, e, s, g, e) (refl, refl)
    | inr e ↦ rw (same, e, e) t
  ]

  kept :
      (cs : List Control) (r r' : ChatPacket)
      → Tells set.action_value r'
      → Tells set.action_value (visit_controls get (visit_controls set cs r).0 r').1
  unfolding visit_controls after
  kept [] r r' t = t
  kept (c ∷ cs) r r' t = kept cs (visit_control set c r).1 (after c r r') (passed c r r' t)

  found :
      (cs : List Control) (r r' : ChatPacket)
      → HasControl set.action_control cs
      → Tells set.action_value (visit_controls get (visit_controls set cs r).0 r').1
  unfolding visit_controls after
  found [] r r' h = elim h [ ]
  found (c ∷ cs) r r' (here _ e) =
      kept cs (visit_control set c r).1 (after c r r') (visited c r r' e)
  found (c ∷ cs) r r' (there _ h) = found cs (visit_control set c r).1 (after c r r') h

length-visit_controls :
    (cp : ChatPacket) (cs : List Control) (r : ChatPacket)
    → length (visit_controls cp cs r).0 ≡ length cs
unfolding visit_controls
length-visit_controls cp [] r = refl
length-visit_controls cp (c ∷ cs) r = ap suc (length-visit_controls cp cs (visit_control cp c r).1)

abbrev IsCounted : Machine → Type 0
IsCounted m =
    ((m.config).num_of_controllers ≡ length (m.config).controlers)
    × ((m.config).num_of_controllers < 2 ^ 31)

whole_count : (n : ℕ) → n < 2 ^ 31 → (if positive32 n then n else 0) ≡ n
whole_count n h = ground arith

pub drop_all : (cs : List Control) → drop (length cs) cs ≡ []
drop_all [] = refl
drop_all (c ∷ cs) = drop_all cs

-- All controls are visited.
all_visited :
    (cp : ChatPacket) (m : Machine)
    → IsCounted m
    → device_call_back cp m ≡ record m {
      config = record (m.config) {
        controlers = (visit_controls cp (m.config).controlers m.reply).0;
      };
      reply = (visit_controls cp (m.config).controlers m.reply).1;
    }
unfolding device_call_back
all_visited cp m w =
    let cs = (m.config).controlers in
    rw
      (
        whole_count (m.config).num_of_controllers w.1,
        w.0,
        take_all (length cs) cs refl,
        drop_all cs,
        append-nil (visit_controls cp cs m.reply).0,
      )
      refl

-- The value that a control was set to is the one that a later ACTION_GET is told, whatever replies the
-- two are written into, if the device has the control.
pub device_call_back-device_call_back :
    (set get : ChatPacket) (m : Machine) (reply : ChatPacket)
    → set.action ≡ action_set
    → get.action ≡ action_get
    → get.action_control ≡ set.action_control
    → HasControl set.action_control (m.config).controlers
    → (m.config).num_of_controllers ≡ length (m.config).controlers
    → (m.config).num_of_controllers < 2 ^ 31
    → let told = (device_call_back get (record (device_call_back set m) { reply = reply })).reply in
      (told.action ≡ action_read) × (told.action_value ≡ set.action_value)
device_call_back-device_call_back set get m reply s g same h n small =
    let cs = (m.config).controlers in
    rw
      (
        all_visited set m (n, small),
        all_visited get
            (record m {
              config = record (m.config) { controlers = (visit_controls set cs m.reply).0 };
              reply = reply;
            })
            (n ∙ sym (length-visit_controls set cs m.reply), small),
      )
      (found set get s g same cs m.reply reply h)
