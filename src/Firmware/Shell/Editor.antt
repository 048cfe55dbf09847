-- ===== src/Firmware/Shell/Editor.antt =====
-- The shell of src/esp8266/shell/shell.c beside a line editor.
use dpd_chat_fabric.Prelude.{
  ℕ, ◌+◌, ◌-◌, ◌≡◌, refl, sym, ap, ◌∙◌, true, false, ◌||◌, Option, none, some, List, [], ◌∷◌, ◌++◌,
  append_assoc, length, length-append, drop, length-drop, replicate, ok, fault, ◌>>=◌, ◌==◌, inl,
  inr, Bool-cases, arith,
}
use dpd_chat_fabric.Firmware.Shell.{
  Shell, c_string, cut_words, store, shell_circle_buffer, entered_lines, new_shell,
}
use dpd_chat_fabric.Firmware.Shell.Lines.{
  erase_last, edit, edited_lines, IsEditing, store_at_end, cut_words-length, c_string-append,
  length-erase_last, last_character, empty_line,
}

-- The shell and the editor do the same with one character.
data Simulates (x : ℕ) (s : Shell) (line : List ℕ) : Type 0 where
  both_fault : shell_circle_buffer x s ≡ fault → edit x line ≡ fault → Simulates x s line
  both_go :
      (s' : Shell) (line' : List ℕ) (entered : Option (List ℕ))
      → shell_circle_buffer x s ≡ ok (s', entered)
      → edit x line ≡ ok (line', entered)
      → IsEditing line' s'
      → Simulates x s line

module _ (x : ℕ) (s : Shell) (line : List ℕ) (w : IsEditing line s) where
  whole : length s.buffer ≡ 64
  whole = omega (arith, ap length w.split, length-append line w.rest, w.size)

  overflow : length line ≡ 63 → Simulates x s line
  unfolding shell_circle_buffer edit
  overflow e =
      both_go (record { buffer = 0 ∷ drop 1 s.buffer; sbi = 0 }) [] none
        (rw (w.at_end, e, store_at_end [] s.buffer 0 0 refl (omega (arith, whole))) refl)
        (rw e refl) (empty_line s.buffer whole)

  erase : (length line == 63) ≡ false → (x == 8 || x == 127) ≡ true → Simulates x s line
  unfolding shell_circle_buffer edit
  erase e del = elim (Bool-cases (length line == 0)) [
    | inl none_there ↦
        both_fault (rw (w.at_end, e, del, none_there) refl) (rw (e, del, none_there) refl)
    | inr some_there ↦
        let found = last_character line (ground arith) in
        let init : List ℕ = erase_last line in
        let before : s.buffer ≡ init ++ (found.0 ∷ w.rest) =
          w.split
          ∙ (ap (λ l. l ++ w.rest) (sym found.1) ∙ append_assoc init (found.0 ∷ []) w.rest) in
        let erased : store s.buffer (length line - 1) 0 ≡ ok (init ++ (0 ∷ w.rest)) =
          ap (λ b. store b (length line - 1) 0) before
          ∙ store_at_end init (found.0 ∷ w.rest) (length line - 1) 0 (sym (length-erase_last line))
              (omega arith) in
        both_go (record { buffer = init ++ (0 ∷ w.rest); sbi = length line - 1 }) init none
          (rw (w.at_end, e, del, some_there, erased) refl) (rw (e, del, some_there) refl)
          (record {
            rest = 0 ∷ w.rest;
            split = refl;
            size = ground (arith, length-erase_last line, w.size);
            at_end = sym (length-erase_last line);
            room = omega (arith, length-erase_last line, w.room);
          })
  ]

  ignore :
      (length line == 63) ≡ false
      → (x == 8 || x == 127) ≡ false
      → (x == b'\r') ≡ true
      → Simulates x s line
  unfolding shell_circle_buffer edit
  ignore e del cr = both_go s line none (rw (w.at_end, e, del, cr) refl) (rw (e, del, cr) refl) w

  store_behind : (c : ℕ) → store s.buffer (length line) c ≡ ok (line ++ (c ∷ drop 1 w.rest))
  store_behind c =
      rw w.split (store_at_end line w.rest (length line) c refl (omega (arith, w.size, w.room)))

  enter :
      (length line == 63) ≡ false
      → (x == 8 || x == 127) ≡ false
      → (x == b'\r') ≡ false
      → (x == b'\n') ≡ true
      → Simulates x s line
  unfolding shell_circle_buffer edit
  enter e del cr lf =
      let ended : List ℕ = line ++ (0 ∷ drop 1 w.rest) in
      let cut : List ℕ = cut_words 1 (length (c_string ended)) ended in
      let size : length cut ≡ 64 =
        cut_words-length 1 (length (c_string ended)) ended
        ∙ omega
            (arith, length-append line (0 ∷ drop 1 w.rest), length-drop 1 w.rest, w.size, w.room) in
      both_go (record { buffer = 0 ∷ drop 1 cut; sbi = 0 }) [] (some (c_string line))
        (rw
          (
            w.at_end,
            e,
            del,
            cr,
            lf,
            store_behind 0,
            store_at_end [] cut 0 0 refl (omega (arith, size)),
            c_string-append line (drop 1 w.rest),
          )
          refl)
        (rw (e, del, cr, lf) refl) (empty_line cut size)

  type_in :
      (length line == 63) ≡ false
      → (x == 8 || x == 127) ≡ false
      → (x == b'\r') ≡ false
      → (x == b'\n') ≡ false
      → Simulates x s line
  unfolding shell_circle_buffer edit
  type_in e del cr lf =
      both_go (record { buffer = line ++ (x ∷ drop 1 w.rest); sbi = length line + 1 })
        (line ++ (x ∷ [])) none (rw (w.at_end, e, del, cr, lf, store_behind x) refl)
        (rw (e, del, cr, lf) refl)
        (record {
          rest = drop 1 w.rest;
          split = sym (append_assoc line (x ∷ []) (drop 1 w.rest));
          size = omega (arith, length-append line (x ∷ []), length-drop 1 w.rest, w.size, w.room);
          at_end = sym (length-append line (x ∷ []));
          room = ground (arith, length-append line (x ∷ []), w.room);
        })

  simulates : Simulates x s line
  simulates = elim (Bool-cases (length line == 63)) [
    | inl full ↦ overflow (ground arith)
    | inr e ↦ elim (Bool-cases (x == 8 || x == 127)) [
      | inl del ↦ erase e del
      | inr del ↦ elim (Bool-cases (x == b'\r')) [
        | inl cr ↦ ignore e del cr
        | inr cr ↦ elim (Bool-cases (x == b'\n')) [
          | inl lf ↦ enter e del cr lf
          | inr lf ↦ type_in e del cr lf
        ]
      ]
    ]
  ]

entered-edited :
    (xs : List ℕ) (s : Shell) (line : List ℕ)
    → IsEditing line s
    → entered_lines xs s ≡ edited_lines xs line
unfolding entered_lines edited_lines
entered-edited [] s line w = refl
entered-edited (x ∷ xs) s line w = elim (simulates x s line w) [
  | both_fault e f ↦ rw (e, f) refl
  | both_go s' line' entered e f w' ↦
      rw (e, f)
        (ap (λ r. r >>= (λ lines. ok (elim entered [ none ↦ lines | some new ↦ new ∷ lines ])))
          (entered-edited xs s' line' w'))
]

-- For every sequence of characters, the lines that the shell hands to ProcessCommand from an empty
-- buffer are the lines that the editor of a list of characters enters, and the shell writes out of its
-- buffer only where the editor is asked to erase from an empty line.
pub entered_lines-edited_lines : (xs : List ℕ) → entered_lines xs new_shell ≡ edited_lines xs []
entered_lines-edited_lines xs =
    entered-edited xs new_shell [] (record {
      rest = replicate 64 0;
      split = refl;
      size = refl;
      at_end = refl;
      room = omega arith;
    })
