-- ===== src/TagReader/Laws.antt =====
-- Reading back what the encoder wrote, and the end of the loop.
use dpd_chat_fabric.Prelude.{
  ℕ, zero, suc, ◌+◌, ◌-◌, ◌≤◌, ◌<◌, ◌≡◌, ◌≢◌, refl, sym, ap, ◌∙◌, subst, Option, List, [], ◌∷◌,
  ◌++◌, length, get_or, Outcome, ok, fault, no_fuel, ◌>>=◌, read, read_at, ltb, lt→ltb, le→ltb,
  replicate, arith, append_assoc, length-append, append-nil, length-read, read-cases, Bool-cases,
  inl, inr,
}
use dpd_chat_fabric.Types.Tags.{ConfigTag, config_tag}
use dpd_chat_fabric.TagEncoder.{Call, data8}
use dpd_chat_fabric.TagEncoder.Fill.{tag_of, body, bytes}
use dpd_chat_fabric.TagReader.{Reader, copy_field, set_filesize, tag_loop}

module _ {S : Type 0} (cases : List ℕ → Option ConfigTag → Reader S → Outcome (Reader S))
    (n : ℕ) where
  -- In a string of size n: at the contents of a call, the case of its tag moves behind them and applies f.
  abbrev pub Reads : Call → (S → S) → Type 0
  Reads c f =
      (before after : List ℕ) (s : S) (i : ℕ)
      → i ≡ length before
      → cases (before ++ (body c ++ after)) (config_tag (tag_of c))
          (record { target = s; i = i; filesize = n })
        ≡ ok (record { target = f s; i = i + length (body c); filesize = n })

  -- Calls that are all read back, with what each does.
  pub data AllRead : List Call → (S → S) → Type 0 where
    none_left : AllRead [] (λ s. s)
    one_more :
        {cs : List Call} {g : S → S} (c : Call) (f : S → S)
        → Reads c f
        → AllRead cs g
        → AllRead (c ∷ cs) (λ s. g (f s))

  -- One round at a call.
  pub round :
      (c : Call) (f : S → S) (before after : List ℕ) (s : S) (i fuel : ℕ)
      → Reads c f
      → i ≡ length before
      → i < n
      → tag_loop cases
          (suc fuel)
          (before ++ (tag_of c ∷ (body c ++ after)))
          (record { target = s; i = i; filesize = n })
        ≡ tag_loop cases fuel
            (before ++ (tag_of c ∷ (body c ++ after)))
            (record { target = f s; i = i + suc (length (body c)); filesize = n })
  unfolding tag_loop
  round c f before after s i fuel reads ei lt =
      rw (lt→ltb i n lt, tag_loop)
        (rw (read_at before (tag_of c ∷ []) (body c ++ after) i 1 ei refl) (
          rw at_body (
            ap
              (λ k.
                tag_loop cases fuel (before ++ (tag_of c ∷ (body c ++ after)))
                  (record { target = f s; i = k; filesize = n }))
              {x = i + 1 + length (body c)} (omega arith))))
    where
      at_body :
          cases
            (before ++ (tag_of c ∷ (body c ++ after)))
            (config_tag (tag_of c))
            (record { target = s; i = i + 1; filesize = n })
          ≡ ok (record { target = f s; i = i + 1 + length (body c); filesize = n })
      at_body =
          subst
            (λ str.
              cases str (config_tag (tag_of c)) (record { target = s; i = i + 1; filesize = n })
              ≡ ok (record { target = f s; i = i + 1 + length (body c); filesize = n }))
            (append_assoc before (tag_of c ∷ []) (body c ++ after))
            (reads (before ++ (tag_of c ∷ [])) after s (i + 1)
              (omega (arith, length-append before (tag_of c ∷ []))))

  -- The bytes of calls that are all read back take one round each, and the index ends behind them.
  pub tag_loop-bytes :
      {cs : List Call} {f : S → S}
      → AllRead cs f
      → (before after : List ℕ) (s : S) (i fuel : ℕ) → i ≡ length before
      → i + length (bytes cs) ≤ n
      → tag_loop cases
          (length cs + fuel)
          (before ++ (bytes cs ++ after))
          (record { target = s; i = i; filesize = n })
        ≡ tag_loop cases fuel
            (before ++ (bytes cs ++ after))
            (record { target = f s; i = i + length (bytes cs); filesize = n })
  unfolding bytes
  tag_loop-bytes none_left before after s i fuel ei h =
      ap (λ k. tag_loop cases k (before ++ after) (record { target = s; i = i; filesize = n }))
        {x = 0 + fuel} (omega arith)
      ∙ ap (λ j. tag_loop cases fuel (before ++ after) (record { target = s; i = j; filesize = n }))
          {x = i} (omega arith)
  tag_loop-bytes (one_more {cs} {g} c f reads more) before after s i fuel ei h =
      subst
        (λ str.
          tag_loop cases (suc (length cs) + fuel) str (record { target = s; i = i; filesize = n })
          ≡ tag_loop cases fuel str (record {
            target = g (f s);
            i = i + length (tag_of c ∷ (body c ++ bytes cs));
            filesize = n;
          }))
        (ap (λ r. before ++ (tag_of c ∷ r)) (sym (append_assoc (body c) (bytes cs) after)))
        (ap (λ k. tag_loop cases k str₁ (record { target = s; i = i; filesize = n }))
            {x = suc (length cs) + fuel} {y = suc (length cs + fuel)} (omega arith)
          ∙ (round c f before (bytes cs ++ after) s i (length cs + fuel) reads ei
                (omega (arith, length-append (body c) (bytes cs)))
              ∙ subst
                  (λ str.
                    tag_loop cases (length cs + fuel) str
                      (record { target = f s; i = i + suc (length (body c)); filesize = n })
                    ≡ at str (i + length (tag_of c ∷ (body c ++ bytes cs))))
                  (append_assoc before (tag_of c ∷ body c) (bytes cs ++ after))
                  (tag_loop-bytes more (before ++ (tag_of c ∷ body c)) after (f s)
                      (i + suc (length (body c))) fuel
                      (omega (arith, length-append before (tag_of c ∷ body c)))
                      (omega (arith, length-append (body c) (bytes cs)))
                    ∙ ap (at ((before ++ (tag_of c ∷ body c)) ++ (bytes cs ++ after)))
                        {x = i + suc (length (body c)) + length (bytes cs)}
                        (omega (arith, length-append (body c) (bytes cs))))))
    where
      str₁ : List ℕ
      str₁ = before ++ (tag_of c ∷ (body c ++ (bytes cs ++ after)))

      at : List ℕ → ℕ → Outcome (Reader S)
      at str j = tag_loop cases fuel str (record { target = g (f s); i = j; filesize = n })

-- Every call has a byte at least.
pub length-le-bytes : (cs : List Call) → length cs ≤ length (bytes cs)
unfolding bytes
length-le-bytes [] = omega arith
length-le-bytes (c ∷ cs) = omega (arith, length-le-bytes cs, length-append (body c) (bytes cs))

module _ {S : Type 0} (cases : List ℕ → Option ConfigTag → Reader S → Outcome (Reader S)) where
  -- At the end of the string the loop ends.
  pub tag_loop_end :
      (fuel : ℕ) (str : List ℕ) (r : Reader S)
      → r.filesize ≤ r.i
      → tag_loop cases (suc fuel) str r ≡ ok r
  unfolding tag_loop
  tag_loop_end fuel str r h = rw (le→ltb r.i r.filesize h, tag_loop)

  -- A string that is the bytes of calls is read to its end.
  pub tag_loop_all :
      {cs : List Call} {f : S → S} (n : ℕ)
      → AllRead cases n cs f
      → (s : S) → length (bytes cs) ≡ n
      → tag_loop cases (suc n) (bytes cs) (record { target = s; i = 0; filesize = n })
        ≡ ok (record { target = f s; i = length (bytes cs); filesize = n })
  tag_loop_all {cs} {f} n all s e =
      let le = length-le-bytes cs in
      ap (λ k. tag_loop cases k (bytes cs) (record { target = s; i = 0; filesize = n }))
        {y = length cs + suc (n - length cs)} (omega arith)
      ∙ (ap
            (λ str.
              tag_loop cases (length cs + suc (n - length cs)) str
                (record { target = s; i = 0; filesize = n }))
            (sym (append-nil (bytes cs)))
          ∙ (tag_loop-bytes cases n all [] [] s 0 (suc (n - length cs)) refl (omega arith)
              ∙ (tag_loop_end (n - length cs) (bytes cs ++ []) _ (omega arith)
                  ∙ ap (λ k. ok (record { target = f s; i = k; filesize = n }))
                      {x = 0 + length (bytes cs)} (omega arith))))

-- A copying case reads a call whose contents have the size that it copies.
pub copy_field-Reads :
    {S : Type 0} (cases : List ℕ → Option ConfigTag → Reader S → Outcome (Reader S)) (m : ℕ)
    (c : Call) (n : ℕ) (store : List ℕ → S → S)
    → ((str : List ℕ) (r : Reader S)
        → cases str (config_tag (tag_of c)) r ≡ copy_field n store str r)
    → n ≡ length (body c)
    → Reads cases m c (store (body c))
unfolding copy_field
copy_field-Reads cases m c n store at size before after s i ei =
    at (before ++ (body c ++ after)) (record { target = s; i = i; filesize = m })
    ∙ rw (read_at before (body c) after i n ei size)
        (ap (λ k. ok (record { target = store (body c) s; i = i + k; filesize = m })) size)

-- A case never moves the index back, and comes to an end.
abbrev pub Advances : {S : Type 0} → ℕ → Outcome (Reader S) → Type 0
Advances i (ok r) = i ≤ r.i
Advances i fault = Unit {0}
Advances i no_fuel = ⊥

pub copy_field-Advances :
    {S : Type 0} (n : ℕ) (store : List ℕ → S → S) (str : List ℕ) (r : Reader S)
    → Advances r.i (copy_field n store str r)
unfolding copy_field read
copy_field-Advances n store str r = ground arith

pub set_filesize-Advances :
    {S : Type 0} (str : List ℕ) (r : Reader S) → Advances r.i (set_filesize str r)
unfolding set_filesize read
set_filesize-Advances str r = ground arith

module _ {S : Type 0} (cases : List ℕ → Option ConfigTag → Reader S → Outcome (Reader S)) where
  -- The rest of a round, behind the case, with the loop on the remaining fuel.
  resume-ne-no_fuel :
      (i : ℕ) (o : Outcome (Reader S)) (k : Reader S → Outcome (Reader S))
      → Advances i o
      → ((r : Reader S) → i ≤ r.i → k r ≢ no_fuel)
      → (o >>= k) ≢ no_fuel
  resume-ne-no_fuel i (ok r) k a h = h r a
  resume-ne-no_fuel i fault k a h = λ e. cc
  resume-ne-no_fuel i no_fuel k a h = absurd a

  -- With more fuel than there are bytes ahead the loop ends, or touches memory outside the object.
  pub tag_loop-ne-no_fuel :
      ((str : List ℕ) (t : Option ConfigTag) (r : Reader S) → Advances r.i (cases str t r))
      → (fuel : ℕ) (str : List ℕ) (r : Reader S) → 0 < fuel
      → length str < fuel + r.i
      → tag_loop cases fuel str r ≢ no_fuel
  unfolding tag_loop
  tag_loop-ne-no_fuel adv zero str r pos h = absurd (omega arith)
  tag_loop-ne-no_fuel adv (suc fuel) str r pos h = elim (Bool-cases (ltb r.i r.filesize)) [
    | inr e ↦ rw (e, tag_loop) (λ p. cc)
    | inl e ↦
        rw (e, tag_loop)
          (elim (read-cases str r.i 1) [
            | inr f ↦ rw f (λ p. cc)
            | inl (x, f) ↦ rw f (
                resume-ne-no_fuel (r.i + 1) _ _ (adv str (config_tag (get_or x 0 0)) _) λ r' le.
                  tag_loop-ne-no_fuel adv fuel str r' (omega (arith, length-read str r.i 1 f))
                    (omega (arith, length-read str r.i 1 f)))
          ])
  ]

pub bind-ne-no_fuel {ℓ κ} :
    {A : Type ℓ} {B : Type κ} (m : Outcome A) (f : A → Outcome B)
    → m ≢ no_fuel
    → ((a : A) → f a ≢ no_fuel)
    → (m >>= f) ≢ no_fuel
bind-ne-no_fuel (ok a) f h k = k a
bind-ne-no_fuel fault f h k = λ e. cc
bind-ne-no_fuel no_fuel f h k = absurd (h refl)

-- Two stretches of calls that are read back.
pub AllRead-append :
    {S : Type 0} (cases : List ℕ → Option ConfigTag → Reader S → Outcome (Reader S)) (n : ℕ)
    {cs ds : List Call} {f g : S → S}
    → AllRead cases n cs f
    → AllRead cases n ds g
    → AllRead cases n (cs ++ ds) (λ s. g (f s))
AllRead-append cases n none_left rest = rest
AllRead-append cases n (one_more c f reads more) rest =
    one_more c f reads (AllRead-append cases n more rest)

-- A byte with no tag, as a call.
abbrev pub zero_byte : Call
zero_byte = data8 0 [] 0

pub AllRead-zeros :
    {S : Type 0} (cases : List ℕ → Option ConfigTag → Reader S → Outcome (Reader S)) (n k : ℕ)
    → Reads cases n zero_byte (λ s. s)
    → AllRead cases n (replicate k zero_byte) (λ s. s)
AllRead-zeros cases n zero z = none_left
AllRead-zeros cases n (suc k) z = one_more zero_byte (λ s. s) z (AllRead-zeros cases n k z)
