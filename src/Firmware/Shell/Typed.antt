-- ===== src/Firmware/Shell/Typed.antt =====
-- A command that is typed, from the characters to the pin (src/esp8266/shell/shell.c).
use dpd_chat_fabric.Prelude.{
  ℕ, ◌+◌, ◌<◌, ◌≡◌, refl, sym, ap, subst, List, [], ◌∷◌, ◌++◌, append_assoc, append-nil, length,
  length-append, ok, ◌==◌, ◌||◌, false, none, arith,
}
use dpd_chat_fabric.Firmware.Globals.{Globals}
use dpd_chat_fabric.Firmware.Shell.{c_string}
use dpd_chat_fabric.Firmware.Shell.Lines.{edit, edited_lines}
use dpd_chat_fabric.Firmware.Shell.Editor.{entered_lines-edited_lines}
use dpd_chat_fabric.Firmware.Shell.Commands.{Devices, gpio_command, run_lines, type_characters}
use dpd_chat_fabric.Firmware.Shell.Words.{
  IsWord, no_letter, letter, three_words, gpio_name, process_command-gpio,
}

-- Characters that are printed, and the space.
data AreTyped : List ℕ → Type 0 where
  nothing_typed : AreTyped []
  key : {x : ℕ} {xs : List ℕ} → 31 < x → x < 127 → AreTyped xs → AreTyped (x ∷ xs)

-- Characters that are printed.
pub data ArePrinted : List ℕ → Type 0 where
  nothing_printed : ArePrinted []
  printed : {x : ℕ} {xs : List ℕ} → 32 < x → x < 127 → ArePrinted xs → ArePrinted (x ∷ xs)

printed-IsWord : {xs : List ℕ} → ArePrinted xs → IsWord xs
printed-IsWord nothing_printed = no_letter
printed-IsWord (printed h k p) = letter (ground arith) (ground arith) (printed-IsWord p)

printed-AreTyped : {xs ys : List ℕ} → ArePrinted xs → AreTyped ys → AreTyped (xs ++ ys)
printed-AreTyped nothing_printed t = t
printed-AreTyped (printed h k p) t = key (omega arith) k (printed-AreTyped p t)

c_string-AreTyped : {xs : List ℕ} → AreTyped xs → c_string xs ≡ xs
unfolding c_string
c_string-AreTyped nothing_typed = refl
c_string-AreTyped {xs = x ∷ xs} (key h k t) =
    let other : (x == 0) ≡ false = ground arith in rw other (ap (λ r. x ∷ r) (c_string-AreTyped t))

-- A key is appended to the line.
edit-AreTyped :
    (x : ℕ) (line : List ℕ)
    → 31 < x
    → x < 127
    → length line < 63
    → edit x line ≡ ok (line ++ (x ∷ []), none)
unfolding edit
edit-AreTyped x line h k l =
    let room : (length line == 63) ≡ false = ground arith in
    let kept : (x == 8 || x == 127) ≡ false = ground arith in
    let no_return : (x == b'\r') ≡ false = ground arith in
    let no_end : (x == b'\n') ≡ false = ground arith in rw (room, kept, no_return, no_end) refl

edited_lines-AreTyped :
    {xs : List ℕ} (line : List ℕ)
    → AreTyped xs
    → length line + length xs < 63
    → edited_lines (xs ++ (b'\n' ∷ [])) line ≡ ok (c_string (line ++ xs) ∷ [])
unfolding edited_lines edit
edited_lines-AreTyped line nothing_typed l =
    let room : (length line == 63) ≡ false = ground arith in
    rw room (ap (λ r. ok (c_string r ∷ [])) (sym (append-nil line)))
edited_lines-AreTyped {xs = x ∷ xs} line (key h k t) l =
    let longer : length (line ++ (x ∷ [])) + length xs < 63 =
      omega (arith, length-append line (x ∷ []), l) in
    rw (edit-AreTyped x line h k (omega arith), edited_lines-AreTyped (line ++ (x ∷ [])) t longer)
      (ap (λ r. ok (c_string r ∷ [])) (append_assoc line (x ∷ []) xs))

-- "gpio v w", without its end.
unfoldable pub gpio_line : List ℕ → List ℕ → List ℕ
gpio_line v w = gpio_name ++ (b' ' ∷ (v ++ (b' ' ∷ w)))

gpio_line-AreTyped : (v w : List ℕ) → ArePrinted v → ArePrinted w → AreTyped (gpio_line v w)
unfolding gpio_line
gpio_line-AreTyped v w pv pw =
    let name : ArePrinted gpio_name =
      search (ArePrinted.printed, ArePrinted.nothing_printed, arith) in
    let last : AreTyped w = subst AreTyped (append-nil w) (printed-AreTyped pw nothing_typed) in
    printed-AreTyped name
      (key (omega arith) (omega arith) (printed-AreTyped pv (key (omega arith) (omega arith) last)))

gpio_line-three_words : (v w : List ℕ) → gpio_line v w ++ (0 ∷ []) ≡ three_words gpio_name v w []
unfolding gpio_line three_words
gpio_line-three_words v w = ap (λ r. gpio_name ++ (b' ' ∷ r)) (append_assoc v (b' ' ∷ w) (0 ∷ []))

-- The globals after "gpio v w" and the end of the line.
pub type_characters-gpio_command :
    (d : Devices) (v w : List ℕ) (g : Globals)
    → ArePrinted v
    → ArePrinted w
    → length (gpio_line v w) < 63
    → type_characters d (gpio_line v w ++ (b'\n' ∷ [])) g
      ≡ ok (record g { outputs = gpio_command (d.atoi v) (d.atoi w) ∷ g.outputs })
unfolding type_characters run_lines
type_characters-gpio_command d v w g pv pw short =
    let typed : AreTyped (gpio_line v w) = gpio_line-AreTyped v w pv pw in
    rw
      (
        entered_lines-edited_lines (gpio_line v w ++ (b'\n' ∷ [])),
        edited_lines-AreTyped [] typed (omega (arith, short)),
        c_string-AreTyped typed,
        gpio_line-three_words v w,
        process_command-gpio d v w [] g (printed-IsWord pv) (printed-IsWord pw),
      )
      refl
