-- ===== src/Firmware/Shell/Lines.antt =====
-- A line editor, and the buffer of src/esp8266/shell/shell.c that holds its line.
use dpd_chat_fabric.Prelude.{
  ℕ, zero, suc, ◌+◌, ◌-◌, ◌<◌, ◌≡◌, refl, ap, ◌||◌, Option, none, some, List, [], ◌∷◌, ◌++◌, length,
  drop, length-drop, Outcome, ok, fault, ◌>>=◌, write_over, ◌==◌, if◌then◌else◌, inl, inr,
  Bool-cases, arith,
}
use dpd_chat_fabric.Firmware.Shell.{Shell, c_string, cut_words, store}

-- The line without its last character.
unfoldable pub erase_last : List ℕ → List ℕ
erase_last [] = []
erase_last (x ∷ []) = []
erase_last (x ∷ y ∷ ys) = x ∷ erase_last (y ∷ ys)

-- One character typed into a line: the next line, and the line that is entered. A line of 63 characters
-- is dropped, whatever comes next. Nothing can be erased from an empty line.
unfoldable pub edit : ℕ → List ℕ → Outcome (List ℕ × Option (List ℕ))
unfolding erase_last
edit x line =
    if length line == 63
    then ok ([], none)
    else (if x == 8 || x == 127
        then (if length line == 0 then fault else ok (erase_last line, none))
        else (if x == b'\r'
            then ok (line, none)
            else (if x == b'\n'
                then ok ([], some (c_string line))
                else ok (line ++ (x ∷ []), none))))

unfoldable pub edited_lines : List ℕ → List ℕ → Outcome (List (List ℕ))
unfolding edit
edited_lines [] line = ok []
edited_lines (x ∷ xs) line = do
  r ← edit x line
  lines ← edited_lines xs r.0
  ok (elim r.1 [ none ↦ lines | some entered ↦ entered ∷ lines ])

-- The buffer begins with the line.
pub record IsEditing (line : List ℕ) (s : Shell) : Type 0 where
  pub rest : List ℕ
  pub split : s.buffer ≡ line ++ rest
  pub size : length line + length rest ≡ 64
  pub at_end : s.sbi ≡ length line
  pub room : length line < 64

pub store_at_end :
    (line rest : List ℕ) (i x : ℕ)
    → i ≡ length line
    → 0 < length rest
    → store (line ++ rest) i x ≡ ok (line ++ (x ∷ drop 1 rest))
store_at_end line [] i x e h = absurd (omega arith)
store_at_end line (r ∷ rest) i x e h = write_over line (r ∷ []) (x ∷ []) rest i e refl

pub cut_words-length : (c n : ℕ) (b : List ℕ) → length (cut_words c n b) ≡ length b
unfolding cut_words
cut_words-length c zero b = refl
cut_words-length c (suc n) [] = refl
cut_words-length c (suc n) (x ∷ xs) =
    let c' : ℕ = if x == b' ' then c + 1 else c in
    elim (Bool-cases (c' == 4)) [
      | inl e ↦ rw e refl
      | inr e ↦ rw e (ap suc (cut_words-length c' n xs))
    ]

-- A string ends at the zero behind the line.
pub c_string-append : (line rest : List ℕ) → c_string (line ++ (0 ∷ rest)) ≡ c_string line
unfolding c_string
c_string-append [] rest = refl
c_string-append (x ∷ xs) rest = elim (Bool-cases (x == 0)) [
  | inl e ↦ rw e refl
  | inr e ↦ rw e (ap (λ r. x ∷ r) (c_string-append xs rest))
]

pub length-erase_last : (line : List ℕ) → length (erase_last line) ≡ length line - 1
unfolding erase_last
length-erase_last [] = refl
length-erase_last (x ∷ []) = refl
length-erase_last (x ∷ y ∷ ys) = omega (arith, length-erase_last (y ∷ ys))

-- A line that is not empty has a last character.
pub last_character :
    (line : List ℕ) → 0 < length line → (y : ℕ) × (erase_last line ++ (y ∷ []) ≡ line)
unfolding erase_last
last_character [] h = absurd (omega arith)
last_character (x ∷ []) h = (x, refl)
last_character (x ∷ y ∷ ys) h =
    let found = last_character (y ∷ ys) (omega arith) in (found.0, ap (λ r. x ∷ r) found.1)

pub empty_line :
    (b : List ℕ) → length b ≡ 64 → IsEditing [] (record { buffer = 0 ∷ drop 1 b; sbi = 0 })
empty_line b e = record {
  rest = 0 ∷ drop 1 b;
  split = refl;
  size = omega (arith, length-drop 1 b);
  at_end = refl;
  room = omega arith;
}
