-- ===== src/Text/Dump.antt =====
-- `util_bin2hex` and `hex2int` of src/util/util.c.
use dpd_chat_fabric.Prelude.{
  ℕ, suc, ◌+◌, ◌-◌, ◌*◌, ◌/◌, ◌%◌, ◌≤◌, ◌<◌, ◌≡◌, ◌≢◌, refl, sym, ap, ◌∙◌, true, false, ◌&&◌, List,
  [], ◌∷◌, ◌++◌, append_assoc, append-nil, length, length-append, replicate, Outcome, ok, ◌>>=◌,
  write, write_at, calloc, ltb, leb, ◌==◌, if◌then◌else◌, arith,
}
use dpd_chat_fabric.Text.{Stdio, StdioLaws, AreBytes, none_left, one_more}

-- The bytes from number i on are printed from index z on, each with a zero behind it, and a space
-- after each fourth byte.
unfoldable pub hex_loop : Stdio → List ℕ → ℕ → ℕ → List ℕ → Outcome (List ℕ)
hex_loop io [] i z buffer = ok buffer
hex_loop io (x ∷ xs) i z buffer = do
  let spaced = ltb 0 i && (i + 1) % 4 == 0
  printed ← write buffer z (io.print_hex x ++ (0 ∷ []))
  padded ← (if spaced then write printed (z + 2) (b' ' ∷ 0 ∷ []) else ok printed)
  hex_loop io xs (i + 1) (if spaced then z + 3 else z + 2) padded

-- `l`, the characters of n bytes.
abbrev pub hex_size : ℕ → ℕ
hex_size n = n / 4 + n * 2 + (if ltb 0 (n % 4) then 1 else 0)

-- `_utilbuffer`, when it is printed.
unfoldable pub bin2hex : Stdio → List ℕ → Outcome (List ℕ)
unfolding hex_loop
bin2hex io x = hex_loop io x 0 0 (calloc (hex_size (length x) + 1))

-- A digit, as an `unsigned char`.
unfoldable pub hex2int : ℕ → ℕ
hex2int c = if leb b'0' c && leb c b'9' then (c + 256 - b'0') % 256 else (c + 256 - b'A' + 10) % 256

unfoldable pub digits : Stdio → List ℕ → List ℕ
digits io [] = []
digits io (x ∷ xs) = io.print_hex x ++ digits io xs

-- The text: the digits of four bytes make a word with a space behind it.
unfoldable pub hex_words : Stdio → List ℕ → List ℕ
unfolding digits
hex_words io (a ∷ b ∷ c ∷ d ∷ xs) = digits io (a ∷ b ∷ c ∷ d ∷ []) ++ (b' ' ∷ hex_words io xs)
hex_words io short = digits io short

-- A buffer with text at its front and zeros behind it.
abbrev filled : List ℕ → ℕ → List ℕ
filled text k = text ++ replicate k 0

write_text :
    (text x : List ℕ) (z k : ℕ)
    → z ≡ length text
    → length x < k
    → write (filled text k) z (x ++ (0 ∷ [])) ≡ ok (filled (text ++ x) (k - length x))
write_text text x z k e h =
    write_at text (x ++ (0 ∷ [])) 0 z k e (omega (arith, length-append x (0 ∷ [])))
    ∙ ap ok (
        ap (λ n. (text ++ (x ++ (0 ∷ []))) ++ replicate n 0) {y = k - suc (length x)}
          (omega (arith, length-append x (0 ∷ [])))
        ∙ ap (λ r. r ++ replicate (k - suc (length x)) 0) (sym (append_assoc text x (0 ∷ [])))
        ∙ append_assoc (text ++ x) (0 ∷ []) (replicate (k - suc (length x)) 0)
        ∙ ap (λ n. (text ++ x) ++ replicate n 0) {x = suc (k - suc (length x))} (omega arith))

module _ (io : Stdio) (laws : StdioLaws io) where
  -- A byte that no space follows.
  plain_step :
      (x : ℕ) (xs text : List ℕ) (i z k : ℕ)
      → x < 256
      → (ltb 0 i && (i + 1) % 4 == 0) ≡ false
      → z ≡ length text
      → 2 < k
      → hex_loop io (x ∷ xs) i z (filled text k)
        ≡ hex_loop io xs (i + 1) (z + 2) (filled (text ++ io.print_hex x) (k - 2))
  unfolding hex_loop
  plain_step x xs text i z k byte plain e h =
      rw
        (
          plain,
          write_text text (io.print_hex x) z k e (omega (arith, laws.two_digits x byte)),
          laws.two_digits x byte,
        )
        refl

  -- A byte with a space behind it.
  spaced_step :
      (x : ℕ) (xs text : List ℕ) (i z k : ℕ)
      → x < 256
      → (ltb 0 i && (i + 1) % 4 == 0) ≡ true
      → z ≡ length text
      → 3 < k
      → hex_loop io (x ∷ xs) i z (filled text k)
        ≡ hex_loop io xs (i + 1) (z + 3) (filled ((text ++ io.print_hex x) ++ (b' ' ∷ [])) (k - 3))
  unfolding hex_loop
  spaced_step x xs text i z k byte spaced e h =
      let two = laws.two_digits x byte in
      rw
        (
          spaced,
          write_text text (io.print_hex x) z k e (omega (arith, two)),
          two,
          write_text (text ++ io.print_hex x) (b' ' ∷ []) (z + 2) (k - 2)
              (omega (arith, two, length-append text (io.print_hex x))) (omega arith),
        )
        (ap
          (λ n. hex_loop io xs (i + 1) (z + 3) (filled ((text ++ io.print_hex x) ++ (b' ' ∷ [])) n))
          {x = k - 2 - 1} (omega arith))

  no_space : (i : ℕ) → (i + 1) % 4 ≢ 0 → (ltb 0 i && (i + 1) % 4 == 0) ≡ false
  no_space i h = ground arith

  a_space : (i : ℕ) → i % 4 ≡ 3 → (ltb 0 i && (i + 1) % 4 == 0) ≡ true
  a_space i h = ground arith

  length-digits : {xs : List ℕ} → AreBytes xs → length (digits io xs) ≡ 2 * length xs
  unfolding digits
  length-digits none_left = refl
  length-digits (one_more {b = x} {bs = xs} p r) =
      omega
        (arith, length-append (io.print_hex x) (digits io xs), laws.two_digits x p, length-digits r)

  -- Bytes that no space follows.
  plain_steps :
      {ys : List ℕ}
      → AreBytes ys
      → (xs text : List ℕ) (i z k : ℕ) → i % 4 + length ys < 4
      → z ≡ length text
      → 2 * length ys < k
      → hex_loop io (ys ++ xs) i z (filled text k)
        ≡ hex_loop io xs
            (i + length ys)
            (z + 2 * length ys)
            (filled (text ++ digits io ys) (k - 2 * length ys))
  unfolding digits
  plain_steps none_left xs text i z k m e h =
      let same : text ≡ text ++ [] = sym (append-nil text) in
      let ei : i ≡ i + 0 = omega arith in
      let ez : z ≡ z + 2 * 0 = omega arith in
      let ek : k ≡ k - 2 * 0 = omega arith in
      λ j. hex_loop io xs (ei j) (ez j) (filled (same j) (ek j))
  plain_steps (one_more {b = y} {bs = ys} p r) xs text i z k m e h =
      let n = length ys in
      let t : List ℕ = text ++ io.print_hex y in
      let et : t ++ digits io ys ≡ text ++ (io.print_hex y ++ digits io ys) =
        append_assoc text (io.print_hex y) (digits io ys) in
      let ei : i + 1 + n ≡ i + suc n = omega arith in
      let ez : z + 2 + 2 * n ≡ z + 2 * suc n = omega arith in
      let ek : k - 2 - 2 * n ≡ k - 2 * suc n = omega arith in
      plain_step y (ys ++ xs) text i z k p (no_space i (omega arith)) e (omega arith)
      ∙ (plain_steps r xs t (i + 1) (z + 2) (k - 2) (omega arith)
            (omega (arith, length-append text (io.print_hex y), laws.two_digits y p)) (omega arith)
          ∙ (λ j. hex_loop io xs (ei j) (ez j) (filled (et j) (ek j))))

  -- Fewer than four bytes at the end.
  last_word :
      {ys : List ℕ}
      → AreBytes ys
      → (text : List ℕ) (i z k : ℕ) → i % 4 + length ys < 4
      → z ≡ length text
      → length (digits io ys) < k
      → hex_loop io ys i z (filled text k)
        ≡ ok (filled (text ++ digits io ys) (k - length (digits io ys)))
  unfolding hex_loop
  last_word {ys} w text i z k m e h =
      let two = length-digits w in
      ap (λ x. hex_loop io x i z (filled text k)) (sym (append-nil ys))
      ∙ (plain_steps w [] text i z k m e (omega (arith, two))
          ∙ ap (λ n. ok (filled (text ++ digits io ys) n)) {x = k - 2 * length ys}
              (omega (arith, two)))

  regroup :
      (text a b c d words : List ℕ)
      → (((text ++ (a ++ (b ++ (c ++ [])))) ++ d) ++ (b' ' ∷ [])) ++ words
        ≡ text ++ ((a ++ (b ++ (c ++ (d ++ [])))) ++ (b' ' ∷ words))
  regroup text a b c d words = simp (append_assoc, append-nil)

  -- The loop from a multiple of four on appends the words.
  hex_loop-hex_words :
      {x : List ℕ}
      → AreBytes x
      → (text : List ℕ) (i z k : ℕ) → i % 4 ≡ 0
      → z ≡ length text
      → length (hex_words io x) < k
      → hex_loop io x i z (filled text k)
        ≡ ok (filled (text ++ hex_words io x) (k - length (hex_words io x)))
  unfolding hex_words digits
  hex_loop-hex_words
        (one_more {b = a} p
          (one_more {b = b} q (one_more {b = c} r (one_more {b = d} {bs = xs} s rest))))
        text i z k m e h =
      let first : List ℕ = a ∷ b ∷ c ∷ [] in
      let bytes : AreBytes first = one_more p (one_more q (one_more r none_left)) in
      let whole : AreBytes (a ∷ b ∷ c ∷ d ∷ []) =
        one_more p (one_more q (one_more r (one_more s none_left))) in
      let all : List ℕ = digits io (a ∷ b ∷ c ∷ d ∷ []) in
      let words : List ℕ = hex_words io xs in
      let t : List ℕ = text ++ digits io first in
      let t' : List ℕ = (t ++ io.print_hex d) ++ (b' ' ∷ []) in
      let size = length-append all (b' ' ∷ words) in
      let eight = length-digits whole in
      let front : length t ≡ length text + 6 =
        omega (arith, length-append text (digits io first), length-digits bytes) in
      let longer : length t' ≡ length text + 9 = omega (
        arith,
        front,
        length-append (t ++ io.print_hex d) (b' ' ∷ []),
        length-append t (io.print_hex d),
        laws.two_digits d s,
      ) in
      plain_steps bytes (d ∷ xs) text i z k (omega arith) e (omega (arith, size, eight))
      ∙ (spaced_step d xs t (i + 3) (z + 6) (k - 6) s (a_space (i + 3) (omega arith))
            (omega (arith, front)) (omega (arith, size, eight))
          ∙ (hex_loop-hex_words rest t' (i + 3 + 1) (z + 6 + 3) (k - 6 - 3) (omega arith)
                (omega (arith, longer)) (omega (arith, size, eight))
              ∙ (ap (λ n. ok (filled (t' ++ words) n)) {x = k - 6 - 3 - length words}
                    {y = k - length (all ++ (b' ' ∷ words))} (omega (arith, size, eight))
                  ∙ ap (λ l. ok (filled l (k - length (all ++ (b' ' ∷ words)))))
                      (regroup text (io.print_hex a) (io.print_hex b) (io.print_hex c)
                        (io.print_hex d) words))))
  hex_loop-hex_words none_left text i z k m e h = last_word none_left text i z k (omega arith) e h
  hex_loop-hex_words (one_more p none_left) text i z k m e h =
      last_word (one_more p none_left) text i z k (omega arith) e h
  hex_loop-hex_words (one_more p (one_more q none_left)) text i z k m e h =
      last_word (one_more p (one_more q none_left)) text i z k (omega arith) e h
  hex_loop-hex_words (one_more p (one_more q (one_more r none_left))) text i z k m e h =
      last_word (one_more p (one_more q (one_more r none_left))) text i z k (omega arith) e h

  -- The size is that of the text, and of a space that four last bytes do not have.
  length-hex_words :
      {x : List ℕ} → AreBytes x → length (hex_words io x) ≡ 2 * length x + length x / 4
  unfolding hex_words digits
  length-hex_words
        (one_more {b = a} p
          (one_more {b = b} q (one_more {b = c} r (one_more {b = d} {bs = xs} s rest)))) =
      omega (
        arith,
        length-append (digits io (a ∷ b ∷ c ∷ d ∷ [])) (b' ' ∷ hex_words io xs),
        length-digits (one_more p (one_more q (one_more r (one_more s none_left)))),
        length-hex_words rest,
      )
  length-hex_words none_left = omega arith
  length-hex_words (one_more p none_left) = omega (arith, length-digits (one_more p none_left))
  length-hex_words (one_more p (one_more q none_left)) =
      omega (arith, length-digits (one_more p (one_more q none_left)))
  length-hex_words (one_more p (one_more q (one_more r none_left))) =
      omega (arith, length-digits (one_more p (one_more q (one_more r none_left))))

-- The dump of bytes is their text in words of four, and zeros: every `sprintf` stays inside the buffer,
-- and a zero is left behind the text.
pub bin2hex-hex_words :
    (io : Stdio) (x : List ℕ)
    → StdioLaws io
    → AreBytes x
    → (bin2hex io x
        ≡ ok (hex_words io x ++ replicate (hex_size (length x) + 1 - length (hex_words io x)) 0))
      × (length (hex_words io x) ≤ hex_size (length x))
unfolding bin2hex calloc
bin2hex-hex_words io x laws w =
    let fits : length (hex_words io x) ≤ hex_size (length x) =
      ground (arith, length-hex_words io laws w) in
    (hex_loop-hex_words io laws w [] 0 0 (hex_size (length x) + 1) refl refl (omega arith), fits)
