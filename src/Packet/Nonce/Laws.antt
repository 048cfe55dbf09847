-- ===== src/Packet/Nonce/Laws.antt =====
-- What `chatPacket_calcNonce` computes, and that it gives each message a nonce of its own
-- (src/dpdChatPacket/dpdChatPacket.c).
use dpd_chat_fabric.Prelude.{
  ℕ, ◌+◌, ◌*◌, ◌/◌, ◌%◌, ◌^◌, ◌<◌, ◌≡◌, ◌≢◌, sym, ap, ◌∙◌, List, [], ◌∷◌, ◌++◌, Outcome, ok, read,
  write, be32, of_be32, of_be32-be32, u32, arith,
}
use dpd_chat_fabric.Packet.Nonce.{calc_nonce}

-- Four bytes read as a word and written back are the same bytes.
be32-of_be32 :
    (a b c d : ℕ)
    → a < 256
    → b < 256
    → c < 256
    → d < 256
    → be32 (of_be32 (a ∷ b ∷ c ∷ d ∷ [])) ≡ a ∷ b ∷ c ∷ d ∷ []
unfolding be32 of_be32
be32-of_be32 a b c d ha hb hc hd =
    let e1 : (((a * 256 + b) * 256 + c) * 256 + d) / 2 ^ 24 % 256 ≡ a = omega arith in
    let e2 : (((a * 256 + b) * 256 + c) * 256 + d) / 2 ^ 16 % 256 ≡ b = omega arith in
    let e3 : (((a * 256 + b) * 256 + c) * 256 + d) / 2 ^ 8 % 256 ≡ c = omega arith in
    let e4 : (((a * 256 + b) * 256 + c) * 256 + d) % 256 ≡ d = omega arith in
    λ i. e1 i ∷ e2 i ∷ e3 i ∷ e4 i ∷ []

-- On eight numbers, of which the first four are bytes: those four are kept, and the serial is added to
-- the last four as a 32-bit word.
calc_nonce_lem :
    (serial a b c d e f g h : ℕ)
    → a < 256
    → b < 256
    → c < 256
    → d < 256
    → calc_nonce serial (a ∷ b ∷ c ∷ d ∷ e ∷ f ∷ g ∷ h ∷ [])
      ≡ ok (a ∷ b ∷ c ∷ d ∷ be32 (u32 (of_be32 (e ∷ f ∷ g ∷ h ∷ []) + serial)))
unfolding calc_nonce read write be32
calc_nonce_lem serial a b c d e f g h ha hb hc hd =
    ap (λ r. ok (r ++ be32 (u32 (of_be32 (e ∷ f ∷ g ∷ h ∷ []) + serial))))
      (be32-of_be32 a b c d ha hb hc hd)

sums_lem : (w s t : ℕ) → s < 2 ^ 32 → t < 2 ^ 32 → u32 (w + s) ≡ u32 (w + t) → s ≡ t
sums_lem w s t hs ht e = omega arith

-- The last word of an eight-byte nonce.
abbrev last_word : Outcome (List ℕ) → ℕ
last_word (ok (a ∷ b ∷ c ∷ d ∷ rest)) = of_be32 rest
last_word _ = 0

calc_nonce-injective :
    (s t a b c d e f g h : ℕ)
    → a < 256
    → b < 256
    → c < 256
    → d < 256
    → s < 2 ^ 32
    → t < 2 ^ 32
    → calc_nonce s (a ∷ b ∷ c ∷ d ∷ e ∷ f ∷ g ∷ h ∷ [])
      ≡ calc_nonce t (a ∷ b ∷ c ∷ d ∷ e ∷ f ∷ g ∷ h ∷ [])
    → s ≡ t
calc_nonce-injective s t a b c d e f g h ha hb hc hd hs ht same =
    let w : ℕ = of_be32 (e ∷ f ∷ g ∷ h ∷ []) in
    let words : of_be32 (be32 (u32 (w + s))) ≡ of_be32 (be32 (u32 (w + t))) = ap last_word (
      sym (calc_nonce_lem s a b c d e f g h ha hb hc hd)
      ∙ (same ∙ calc_nonce_lem t a b c d e f g h ha hb hc hd)) in
    let sums : u32 (w + s) ≡ u32 (w + t) =
      sym (of_be32-be32 (u32 (w + s)) (omega arith))
      ∙ (words ∙ of_be32-be32 (u32 (w + t)) (omega arith)) in
    sums_lem w s t hs ht sums

-- Under one session nonce of eight bytes, messages with different serials, which are 32-bit words, have
-- different nonces.
pub calc_nonce-ne :
    (s t a b c d e f g h : ℕ)
    → a < 256
    → b < 256
    → c < 256
    → d < 256
    → s < 2 ^ 32
    → t < 2 ^ 32
    → s ≢ t
    → calc_nonce s (a ∷ b ∷ c ∷ d ∷ e ∷ f ∷ g ∷ h ∷ [])
      ≢ calc_nonce t (a ∷ b ∷ c ∷ d ∷ e ∷ f ∷ g ∷ h ∷ [])
calc_nonce-ne s t a b c d e f g h ha hb hc hd hs ht n same =
    n (calc_nonce-injective s t a b c d e f g h ha hb hc hd hs ht same)
