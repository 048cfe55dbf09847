-- ===== src/Firmware/Shell/Words.antt =====
-- The words of a line that is handed to `ProcessCommand` of src/esp8266/shell/shell.c.
use dpd_chat_fabric.Prelude.{
  ℕ, suc, ◌+◌, ◌≡◌, refl, ap, ◌∙◌, false, List, [], ◌∷◌, ◌++◌, append-nil, length, length-append,
  drop, drop_past, ◌==◌, arith,
}
use dpd_chat_fabric.Firmware.Shell.{c_string, cut_words}
use dpd_chat_fabric.Firmware.Shell.Commands.{
  Devices, word_starts, command_word, gpio_command, shell_command, run_command, process_command,
}
use dpd_chat_fabric.Firmware.Globals.{Globals}

-- Characters that are neither spaces nor zeros.
pub data IsWord : List ℕ → Type 0 where
  no_letter : IsWord []
  letter : {x : ℕ} {w : List ℕ} → (x == 0) ≡ false → (x == b' ') ≡ false → IsWord w → IsWord (x ∷ w)

c_string-word : (w t : List ℕ) → IsWord w → c_string (w ++ t) ≡ w ++ c_string t
unfolding c_string
c_string-word [] t no_letter = refl
c_string-word (x ∷ w) t (letter z s h) = rw z (ap (λ r. x ∷ r) (c_string-word w t h))

cut_words-word :
    (c n : ℕ) (w t : List ℕ)
    → (c == 4) ≡ false
    → IsWord w
    → cut_words c (length w + n) (w ++ t) ≡ w ++ cut_words c n t
unfolding cut_words
cut_words-word c n [] t f no_letter = ap (λ k. cut_words c k t) (omega arith)
cut_words-word c n (x ∷ w) t f (letter z s h) =
    let e : suc (length w) + n ≡ suc (length w + n) = omega arith in
    ap (λ k. cut_words c k (x ∷ (w ++ t))) e
    ∙ rw (s, f) (ap (λ r. x ∷ r) (cut_words-word c n w t f h))

word_starts-word :
    (i c n : ℕ) (w t : List ℕ)
    → (c == 4) ≡ false
    → IsWord w
    → word_starts i c (length w + n) (w ++ t) ≡ word_starts (i + length w) c n t
unfolding word_starts
word_starts-word i c n [] t f no_letter =
    ap (λ k. word_starts i c k t) (omega arith) ∙ ap (λ k. word_starts k c n t) (omega arith)
word_starts-word i c n (x ∷ w) t f (letter z s h) =
    let e : suc (length w) + n ≡ suc (length w + n) = omega arith in
    let shift : i + 1 + length w ≡ i + suc (length w) = omega arith in
    let later : word_starts i c (suc (length w + n)) (x ∷ (w ++ t))
        ≡ word_starts (i + suc (length w)) c n t =
      rw (s, f) (word_starts-word (i + 1) c n w t f h ∙ ap (λ k. word_starts k c n t) shift) in
    ap (λ k. word_starts i c k (x ∷ (w ++ t))) e ∙ later

-- A line of three words, with the zero that ends it.
unfoldable pub three_words : List ℕ → List ℕ → List ℕ → List ℕ → List ℕ
three_words u v w rest = u ++ (b' ' ∷ (v ++ (b' ' ∷ (w ++ (0 ∷ rest)))))

module _ (u v w rest : List ℕ) (iu : IsWord u) (iv : IsWord v) (iw : IsWord w) where
  size : ℕ
  size = length u + suc (length v + suc (length w + 0))

  c_string-three_words : length (c_string (three_words u v w rest)) ≡ size
  unfolding three_words c_string size
  c_string-three_words =
      let behind_v : List ℕ = w ++ [] in
      rw (c_string-word u _ iu, c_string-word v _ iv, c_string-word w _ iw)
        (omega (
          arith,
          length-append u (b' ' ∷ (v ++ (b' ' ∷ behind_v))),
          length-append v (b' ' ∷ behind_v),
          length-append w [],
        ))

  cut : List ℕ
  cut = u ++ (0 ∷ (v ++ (0 ∷ (w ++ (0 ∷ rest)))))

  cut_words-three_words : cut_words 1 size (three_words u v w rest) ≡ cut
  unfolding three_words cut_words size cut
  cut_words-three_words =
      cut_words-word 1 _ u _ refl iu
      ∙ ap (λ r. u ++ (0 ∷ r))
          (cut_words-word 2 _ v _ refl iv ∙ ap (λ r. v ++ (0 ∷ r)) (cut_words-word 3 0 w _ refl iw))

  word_starts-three_words :
      word_starts 0 1 size (three_words u v w rest)
      ≡ (0 + length u + 1) ∷ (0 + length u + 1 + length v + 1) ∷ []
  unfolding three_words word_starts size
  word_starts-three_words =
      word_starts-word 0 1 _ u _ refl iu
      ∙ ap (λ r. (0 + length u + 1) ∷ r)
          (word_starts-word (0 + length u + 1) 2 _ v _ refl iv
            ∙ ap (λ r. (0 + length u + 1 + length v + 1) ∷ r)
                (word_starts-word (0 + length u + 1 + length v + 1) 3 0 w _ refl iw))

  first_word : command_word (three_words u v w rest) 0 ≡ u
  unfolding command_word c_string cut
  first_word = rw (c_string-three_words, cut_words-three_words, c_string-word u _ iu) (append-nil u)

  behind_first : drop (0 + length u + 1) cut ≡ v ++ (0 ∷ (w ++ (0 ∷ rest)))
  unfolding cut
  behind_first =
      ap (λ k. drop k cut) {x = 0 + length u + 1} {y = length u + 1} (omega arith) ∙ drop_past u _ 1

  behind_second : drop (0 + length u + 1 + length v + 1) cut ≡ w ++ (0 ∷ rest)
  unfolding cut
  behind_second =
      ap (λ k. drop k cut) {x = 0 + length u + 1 + length v + 1} {y = length u + suc (length v + 1)}
        (omega arith)
      ∙ (drop_past u _ (suc (length v + 1)) ∙ drop_past v _ 1)

  second_word : command_word (three_words u v w rest) 1 ≡ v
  unfolding command_word c_string
  second_word =
      rw
        (
          c_string-three_words,
          cut_words-three_words,
          word_starts-three_words,
          behind_first,
          c_string-word v _ iv,
        )
        (append-nil v)

  third_word : command_word (three_words u v w rest) 2 ≡ w
  unfolding command_word c_string
  third_word =
      rw
        (
          c_string-three_words,
          cut_words-three_words,
          word_starts-three_words,
          behind_second,
          c_string-word w _ iw,
        )
        (append-nil w)

command_word-three_words :
    (u v w rest : List ℕ)
    → IsWord u
    → IsWord v
    → IsWord w
    → (command_word (three_words u v w rest) 0 ≡ u)
      × (command_word (three_words u v w rest) 1 ≡ v)
      × (command_word (three_words u v w rest) 2 ≡ w)
command_word-three_words u v w rest iu iv iw = (
  first_word u v w rest iu iv iw,
  second_word u v w rest iu iv iw,
  third_word u v w rest iu iv iw,
)

abbrev pub gpio_name : List ℕ
gpio_name = b'g' ∷ b'p' ∷ b'i' ∷ b'o' ∷ []

gpio_name-IsWord : IsWord gpio_name
gpio_name-IsWord =
    letter refl refl (letter refl refl (letter refl refl (letter refl refl no_letter)))

-- The globals after "gpio v w".
pub process_command-gpio :
    (d : Devices) (v w rest : List ℕ) (g : Globals)
    → IsWord v
    → IsWord w
    → process_command d (three_words gpio_name v w rest) g
      ≡ record g { outputs = gpio_command (d.atoi v) (d.atoi w) ∷ g.outputs }
unfolding process_command run_command shell_command
process_command-gpio d v w rest g iv iw =
    let words = command_word-three_words gpio_name v w rest gpio_name-IsWord iv iw in
    rw (words.0, words.1, words.2) refl
