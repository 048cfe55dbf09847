-- ===== src/Firmware/Runs.antt =====
-- The board from its start on, under any packets (src/esp8266/user/user_main.c).
use dpd_chat_fabric.Prelude.{
  ◌^◌, ◌≡◌, ◌<◌, ◌≤◌, ltb→lt, arith, ℕ, refl, sym, ◌∙◌, inl, inr, List, [], ◌∷◌, lt→ltb, Bool-cases,
}
use dpd_chat_fabric.Types.Structs.{ChatPacket}
use dpd_chat_fabric.Firmware.Outlets.{
  Outlet, Output, output_of, has_pin, gpio_init_from_config, Adc, Board, visit_outlet,
  visit_outlets,
}
use dpd_chat_fabric.Firmware.Pins.{
  Pins, PinLaws, level_at, IsOutlet, IsBit, Apart, AreOutlets, StartBits, IsShown, AllShown,
  level_at-own, level_at-other,
}
use dpd_chat_fabric.Firmware.Visits.{
  visit_outlet-other, visit_outlet-gpio, visit_outlet-IsOutlet, visit_outlet-IsShown,
}

-- The controls and the rest of the board.
pub record Device : Type 0 where
  pub outlets : List Outlet
  pub board : Board

-- `deviceCallBack`, with a new reply.
unfoldable pub call_back_on : Adc → ChatPacket → ChatPacket → Device → Device
call_back_on adc cp reply d =
    let seen = visit_outlets adc cp d.outlets (record (d.board) { reply = reply }) in
    record { outlets = seen.0; board = seen.1 }

-- Packets, each with the reply that is filled for it.
unfoldable pub runs : Adc → List (ChatPacket × ChatPacket) → Device → Device
unfolding call_back_on
runs adc [] d = d
runs adc ((cp, reply) ∷ packets) d = runs adc packets (call_back_on adc cp reply d)

-- The board when `gpioInitFromConfig` has run.
unfoldable pub started : List Outlet → Board → Device
started os b = record {
  outlets = os;
  board = record b { outputs = gpio_init_from_config os b.outputs };
}

-- Packets that set 0 or 1.
abbrev pub SetBits : List (ChatPacket × ChatPacket) → Type 0
SetBits [] = Unit
SetBits ((cp, reply) ∷ packets) = (cp.action_value ≤ 1) × SetBits packets

module _ (w : Pins) (laws : PinLaws w) (before : ℕ → ℕ) where
  init-other :
      (p : ℕ) (os : List Outlet) (outputs : List Output)
      → StartBits os
      → Apart p os
      → level_at w (gpio_init_from_config os outputs) before p ≡ level_at w outputs before p
  unfolding gpio_init_from_config
  init-other p [] outputs b a = refl
  init-other p (o ∷ os) outputs b a = elim (Bool-cases (has_pin o)) [
    | inl e ↦ rw e (
        init-other p os (output_of o ∷ outputs) b.1 a.1
        ∙ level_at-other w laws before p o outputs (b.0 (ltb→lt o.gpio (2 ^ 31) e)) a.0)
    | inr e ↦ rw e (init-other p os outputs b.1 a.1)
  ]

  init-AllShown :
      (os : List Outlet) (outputs : List Output)
      → StartBits os
      → AreOutlets os
      → AllShown w before (gpio_init_from_config os outputs) os
  unfolding gpio_init_from_config
  init-AllShown [] outputs b i = tt
  init-AllShown (o ∷ os) outputs b i = (first, init-AllShown os _ b.1 i.2)
    where
      first : IsShown w before (gpio_init_from_config (o ∷ os) outputs) o
      first boolean =
          let bit : IsBit o = (i.0).bit boolean in
          let pin : o.gpio < 2 ^ 31 = omega (arith, bit.pin) in
          rw (lt→ltb o.gpio (2 ^ 31) pin) (
            init-other o.gpio os (output_of o ∷ outputs) b.1 i.1
            ∙ level_at-own w laws before o outputs bit)

  module _ (adc : Adc) (cp : ChatPacket) (bit : cp.action_value ≤ 1) where
    same_gpio : (o : Outlet) (b : Board) → (visit_outlet adc cp o b).0.gpio ≡ o.gpio
    same_gpio = visit_outlet-gpio w laws before adc cp bit

    Apart-visit_outlets :
        (p : ℕ) (os : List Outlet) (b : Board) → Apart p os → Apart p (visit_outlets adc cp os b).0
    unfolding visit_outlets
    Apart-visit_outlets p [] b a = tt
    Apart-visit_outlets p (o ∷ os) b a = (
      λ e. a.0 (sym (same_gpio o b) ∙ e),
      Apart-visit_outlets p os (visit_outlet adc cp o b).1 a.1,
    )

    visit_outlets-AreOutlets :
        (os : List Outlet) (b : Board) → AreOutlets os → AreOutlets (visit_outlets adc cp os b).0
    unfolding visit_outlets
    visit_outlets-AreOutlets [] b i = tt
    visit_outlets-AreOutlets (o ∷ os) b i =
        let b' : Board = (visit_outlet adc cp o b).1 in
        (
          visit_outlet-IsOutlet w laws before adc cp bit o b i.0,
          rw (same_gpio o b) (Apart-visit_outlets o.gpio os b' i.1),
          visit_outlets-AreOutlets os b' i.2,
        )

    visit_outlets-other :
        (p : ℕ) (os : List Outlet) (b : Board)
        → AreOutlets os
        → Apart p os
        → level_at w ((visit_outlets adc cp os b).1.outputs) before p
          ≡ level_at w b.outputs before p
    unfolding visit_outlets
    visit_outlets-other p [] b i a = refl
    visit_outlets-other p (o ∷ os) b i a =
        visit_outlets-other p os (visit_outlet adc cp o b).1 i.2 a.1
        ∙ visit_outlet-other w laws before adc cp bit p o b i.0 a.0

    -- The controls that come later are shown as before.
    visit_outlet-AllShown :
        (o : Outlet) (b : Board) (os : List Outlet)
        → IsOutlet o
        → Apart o.gpio os
        → AllShown w before b.outputs os
        → AllShown w before ((visit_outlet adc cp o b).1.outputs) os
    visit_outlet-AllShown o b [] i a h = tt
    visit_outlet-AllShown o b (x ∷ xs) i a h = (
      λ boolean.
          visit_outlet-other w laws before adc cp bit x.gpio o b i (λ e. a.0 (sym e)) ∙ h.0 boolean,
      visit_outlet-AllShown o b xs i a.1 h.1,
    )

    visit_outlets-AllShown :
        (os : List Outlet) (b : Board)
        → AreOutlets os
        → AllShown w before b.outputs os
        → AllShown w before ((visit_outlets adc cp os b).1.outputs) (visit_outlets adc cp os b).0
    unfolding visit_outlets
    visit_outlets-AllShown [] b i h = tt
    visit_outlets-AllShown (o ∷ os) b i h =
        let b' : Board = (visit_outlet adc cp o b).1 in
        let o' : Outlet = (visit_outlet adc cp o b).0 in
        let apart : Apart o'.gpio os = rw (same_gpio o b) i.1 in
        (
          λ boolean.
              visit_outlets-other o'.gpio os b' i.2 apart
              ∙ visit_outlet-IsShown w laws before adc cp bit o b i.0 h.0 boolean,
          visit_outlets-AllShown os b' i.2 (visit_outlet-AllShown o b os i.0 i.1 h.1),
        )

  runs-AllShown :
      (adc : Adc) (packets : List (ChatPacket × ChatPacket)) (d : Device)
      → SetBits packets
      → AreOutlets d.outlets
      → AllShown w before (d.board).outputs d.outlets
      → AllShown w before ((runs adc packets d).board).outputs (runs adc packets d).outlets
  unfolding runs
  runs-AllShown adc [] d z i h = h
  runs-AllShown adc ((cp, reply) ∷ packets) d z i h =
      let b : Board = record (d.board) { reply = reply } in
      runs-AllShown adc packets (call_back_on adc cp reply d) z.1
        (unfold call_back_on in visit_outlets-AreOutlets adc cp z.0 d.outlets b i)
        (unfold call_back_on in visit_outlets-AllShown adc cp z.0 d.outlets b i h)

-- From the start of the board on, and after any packets with the values 0 and 1, the pin of every boolean
-- control is high if the control's value and its mask differ, and else low. The pins obey calls with 0
-- and 1, every control that has a pin starts with a value and a mask of 0 or 1 and a pin up to 16, the
-- controls have pins of their own, and no boolean is read by a function.
pub runs-started :
    (w : Pins) (before : ℕ → ℕ) (adc : Adc) (packets : List (ChatPacket × ChatPacket))
    (os : List Outlet) (b : Board)
    → PinLaws w
    → SetBits packets
    → StartBits os
    → AreOutlets os
    → AllShown w before
        ((runs adc packets (started os b)).board).outputs
        (runs adc packets (started os b)).outlets
unfolding started
runs-started w before adc packets os b laws z s i =
    runs-AllShown w laws before adc packets (started os b) z i
      (init-AllShown w laws before os b.outputs s i)
