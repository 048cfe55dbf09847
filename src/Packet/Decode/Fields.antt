-- ===== src/Packet/Decode/Fields.antt =====
-- `chatPacket_decode` on the fields that `chatPacket_encode` wrote
-- (src/dpdChatPacket/dpdChatPacket.c): one round of the loop for each.
use dpd_chat_fabric.Prelude.{
  ℕ, suc, ◌+◌, ◌-◌, ◌≤◌, ◌<◌, ◌≡◌, refl, sym, ap, ◌∙◌, subst, true, List, [], ◌∷◌, ◌++◌, length,
  Outcome, ok, ◌>>=◌, read_at, lt→ltb, le→ltb, arith, append_assoc, length-append,
}
use dpd_chat_fabric.Types.Tags.{packet_tag}
use dpd_chat_fabric.Types.Structs.{ChatPacket}
use dpd_chat_fabric.TagEncoder.{Call}
use dpd_chat_fabric.TagEncoder.Fill.{tag_of, body, bytes}
use dpd_chat_fabric.Packet.Decode.{
  DecodeEnv, Cursor, Decoded, Round, next, return, Nested, decode_header_tag, decode_loop, start,
}

abbrev pub at : Cursor → ℕ → Cursor
at s i = record s { i = i }

-- What the loop does with the outcome of a case.
abbrev pub continue : (Cursor → Outcome Decoded) → Round → Outcome Decoded
continue loop (next s) = loop s
continue loop (return d) = ok d

-- One round at a tag.
pub open_round :
    (env : DecodeEnv) (fuel n tag i : ℕ) (before rest : List ℕ) (s : Cursor)
    → i ≡ length before
    → i < n
    → decode_loop env (suc fuel) (before ++ (tag ∷ rest)) n (at s i) ≡ (
        decode_header_tag env
          (λ d m q. decode_loop env fuel d m (start q))
          (before ++ (tag ∷ rest))
          (packet_tag tag)
          (at s (i + 1))
        >>= continue (decode_loop env fuel (before ++ (tag ∷ rest)) n))
unfolding decode_loop
open_round env fuel n tag i before rest s ei lt =
    rw (lt→ltb i n lt, decode_loop) (rw (read_at before (tag ∷ []) rest i 1 ei refl) refl)

module _ (env : DecodeEnv) (n : ℕ) where
  -- At the contents of a call, the case of its tag moves behind them and applies f to the packet.
  abbrev pub Reads : Call → Cursor → Cursor → Type 0
  Reads c s s' =
      (nested : Nested) (before after : List ℕ) (i : ℕ)
      → i ≡ length before
      → decode_header_tag env nested (before ++ (body c ++ after)) (packet_tag (tag_of c)) (at s i)
        ≡ ok (next (at s' (i + length (body c))))

  -- Calls that are all read back, from a cursor to another one.
  pub data AllRead : List Call → Cursor → Cursor → Type 0 where
    none_left : {s : Cursor} → AllRead [] s s
    one_more :
        {cs : List Call} {s s' s'' : Cursor} (c : Call)
        → Reads c s s'
        → AllRead cs s' s''
        → AllRead (c ∷ cs) s s''

  pub round :
      (c : Call) (before after : List ℕ) (s s' : Cursor) (i fuel : ℕ)
      → Reads c s s'
      → i ≡ length before
      → i < n
      → decode_loop env (suc fuel) (before ++ (tag_of c ∷ (body c ++ after))) n (at s i)
        ≡ decode_loop env fuel
            (before ++ (tag_of c ∷ (body c ++ after)))
            n
            (at s' (i + suc (length (body c))))
  round c before after s s' i fuel reads ei lt =
      open_round env fuel n (tag_of c) i before (body c ++ after) s ei lt
      ∙ rw at_body (
          ap (λ k. decode_loop env fuel (before ++ (tag_of c ∷ (body c ++ after))) n (at s' k))
            {x = i + 1 + length (body c)} (omega arith))
    where
      nested : Nested
      nested d m q = decode_loop env fuel d m (start q)

      at_body :
          decode_header_tag env nested
            (before ++ (tag_of c ∷ (body c ++ after)))
            (packet_tag (tag_of c))
            (at s (i + 1))
          ≡ ok (next (at s' (i + 1 + length (body c))))
      at_body =
          subst
            (λ b.
              decode_header_tag env nested b (packet_tag (tag_of c)) (at s (i + 1))
              ≡ ok (next (at s' (i + 1 + length (body c)))))
            (append_assoc before (tag_of c ∷ []) (body c ++ after))
            (reads nested (before ++ (tag_of c ∷ [])) after (i + 1)
              (omega (arith, length-append before (tag_of c ∷ []))))

  -- The bytes of calls that are all read back take one round each, and the index ends behind them.
  pub decode_loop-bytes :
      {cs : List Call} {s s' : Cursor}
      → AllRead cs s s'
      → (before after : List ℕ) (i fuel : ℕ) → i ≡ length before
      → i + length (bytes cs) ≤ n
      → decode_loop env (length cs + fuel) (before ++ (bytes cs ++ after)) n (at s i)
        ≡ decode_loop env fuel (before ++ (bytes cs ++ after)) n (at s' (i + length (bytes cs)))
  unfolding bytes
  decode_loop-bytes {s = s} none_left before after i fuel ei h =
      ap (λ k. decode_loop env k (before ++ after) n (at s i)) {x = 0 + fuel} (omega arith)
      ∙ ap (λ j. decode_loop env fuel (before ++ after) n (at s j)) {x = i} (omega arith)
  decode_loop-bytes (one_more {cs} {s} {s'} {s''} c reads more) before after i fuel ei h =
      subst
        (λ b.
          decode_loop env (suc (length cs) + fuel) b n (at s i)
          ≡ decode_loop env fuel b n (at s'' (i + length (tag_of c ∷ (body c ++ bytes cs)))))
        (ap (λ r. before ++ (tag_of c ∷ r)) (sym (append_assoc (body c) (bytes cs) after)))
        (ap (λ k. decode_loop env k b₁ n (at s i)) {x = suc (length cs) + fuel}
            {y = suc (length cs + fuel)} (omega arith)
          ∙ (round c before (bytes cs ++ after) s s' i (length cs + fuel) reads ei
                (omega (arith, length-append (body c) (bytes cs)))
              ∙ subst
                  (λ b.
                    decode_loop env (length cs + fuel) b n (at s' (i + suc (length (body c))))
                    ≡ end b (i + length (tag_of c ∷ (body c ++ bytes cs))))
                  (append_assoc before (tag_of c ∷ body c) (bytes cs ++ after))
                  (decode_loop-bytes more (before ++ (tag_of c ∷ body c)) after
                      (i + suc (length (body c))) fuel
                      (omega (arith, length-append before (tag_of c ∷ body c)))
                      (omega (arith, length-append (body c) (bytes cs)))
                    ∙ ap (end ((before ++ (tag_of c ∷ body c)) ++ (bytes cs ++ after)))
                        {x = i + suc (length (body c)) + length (bytes cs)}
                        (omega (arith, length-append (body c) (bytes cs))))))
    where
      b₁ : List ℕ
      b₁ = before ++ (tag_of c ∷ (body c ++ (bytes cs ++ after)))

      end : List ℕ → ℕ → Outcome Decoded
      end b j = decode_loop env fuel b n (at s'' j)

pub decode_loop_end :
    (env : DecodeEnv) (fuel n : ℕ) (b : List ℕ) (s : Cursor)
    → n ≤ s.i
    → decode_loop env (suc fuel) b n s ≡ ok (record { cp = s.cp; accepted = true })
unfolding decode_loop
decode_loop_end env fuel n b s h = rw (le→ltb s.i n h, decode_loop) refl

-- After the bytes of calls that are all read back, and whatever follows them.
pub decode_loop_after :
    (env : DecodeEnv) (n : ℕ) {cs : List Call} (cp : ChatPacket) (s' : Cursor)
    → AllRead env n cs (start cp) s'
    → (after : List ℕ) (fuel rest : ℕ) → fuel ≡ length cs + rest
    → length (bytes cs) ≤ n
    → decode_loop env fuel (bytes cs ++ after) n (start cp)
      ≡ decode_loop env rest (bytes cs ++ after) n (at s' (length (bytes cs)))
decode_loop_after env n {cs} cp s' r after fuel rest e h =
    ap (λ k. decode_loop env k (bytes cs ++ after) n (start cp)) e
    ∙ (decode_loop-bytes env n r [] after 0 rest refl (omega arith)
        ∙ ap (λ k. decode_loop env rest (bytes cs ++ after) n (at s' k)) {x = 0 + length (bytes cs)}
            (omega arith))

-- A buffer that begins with calls that are read back, up to the length that is announced, is accepted,
-- and the packet is changed by each of them in turn.
pub decode_loop_all :
    (env : DecodeEnv) {cs : List Call} (cp : ChatPacket) (s' : Cursor) (n : ℕ)
    → AllRead env n cs (start cp) s'
    → (after : List ℕ) (fuel : ℕ) → n ≡ length (bytes cs)
    → length cs < fuel
    → decode_loop env fuel (bytes cs ++ after) n (start cp)
      ≡ ok (record { cp = s'.cp; accepted = true })
decode_loop_all env {cs} cp s' n r after fuel e h =
    decode_loop_after env n cp s' r after fuel (suc (fuel - suc (length cs))) (omega arith)
      (omega arith)
    ∙ decode_loop_end env (fuel - suc (length cs)) n (bytes cs ++ after) (at s' (length (bytes cs)))
        (omega arith)
