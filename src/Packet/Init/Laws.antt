-- ===== src/Packet/Init/Laws.antt =====
-- The packets that `chatPacket_init0` and `chatPacket_init` make (src/dpdChatPacket/dpdChatPacket.c).
use dpd_chat_fabric.Prelude.{
  ℕ, zero, suc, ◌+◌, ◌<◌, ◌≡◌, refl, subst, Bool, true, false, List, length, ltb, ◌==◌, arith,
  if◌then◌else◌, Bool-cases, inl, inr,
}
use dpd_chat_fabric.Packet.Init.{padding_length}
use dpd_chat_fabric.Packet.Encode.{high_nibble, low_nibble}
use dpd_chat_fabric.Packet.Decode.Padding.{HasPadding}

all_below : ℕ → (ℕ → Bool) → Bool
all_below zero p = true
all_below (suc n) p = if p n then all_below n p else false

at_each : (n d : ℕ) (p : ℕ → Bool) → all_below n p ≡ true → d < n → p d ≡ true
unfolding all_below
at_each zero d p h lt = elim lt [ ]
at_each (suc n) d p h lt = elim (Bool-cases (p n)) [
  | inl e ↦ elim (Bool-cases (d == n)) [
    | inl same ↦ subst (λ k. p k ≡ true) {x = n} (ground arith) e
    | inr other ↦ at_each n d p (rewrite_at e h) (ground arith)
  ]
  | inr e ↦ ground arith
]
  where
    rewrite_at : p n ≡ true → all_below (suc n) p ≡ true → all_below n p ≡ true
    rewrite_at e h = ground arith

-- The two parts of the padding, as the byte spells them.
both_parts : ℕ → Bool
both_parts d =
    let n = padding_length d in
    if ltb 0 (high_nibble n)
    then (if ltb 0 (low_nibble n) then high_nibble n + low_nibble n == 16 else false)
    else false

both : (d : ℕ) → d < 15 → both_parts d ≡ true
unfolding all_below both_parts padding_length
both d h = at_each 15 d both_parts refl h

parts :
    (n : ℕ)
    → (if ltb 0 (high_nibble n)
        then (if ltb 0 (low_nibble n) then high_nibble n + low_nibble n == 16 else false)
        else false)
      ≡ true
    → (0 < high_nibble n) × ((0 < low_nibble n) × (high_nibble n + low_nibble n ≡ 16))
parts n h = ground arith

-- A padding that was drawn is sent in two parts.
pub padding_length-HasPadding :
    (d : ℕ) (p : List ℕ) → d < 15 → length p ≡ 16 → HasPadding (padding_length d) p
padding_length-HasPadding d p h e =
    let c = parts (padding_length d) (unfold both_parts in both d h) in
    record { high = c.0; low = (c.1).0; split = (c.1).1; fits = e }
