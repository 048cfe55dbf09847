-- ===== src/Firmware/Shell.antt =====
-- The line buffer of src/esp8266/shell/shell.c: `shellCircleBuffer`, and how `ProcessCommand` cuts the
-- line that it is handed into words.
pub mod Lines
pub mod Editor
pub mod Commands
pub mod Words
pub mod Typed
pub mod Driven
use dpd_chat_fabric.Prelude.{
  ℕ, zero, suc, ◌+◌, ◌-◌, Bool, ◌&&◌, ◌||◌, Option, none, some, List, [], ◌∷◌, ◌++◌, length,
  replicate, Outcome, ok, fault, ◌>>=◌, write, leb, ◌==◌, if◌then◌else◌,
}

-- `BUFF_LEN`.
abbrev pub buff_len : ℕ
buff_len = 64

-- `shellBuffer` and `sbi`.
pub record Shell : Type 0 where
  pub buffer : List ℕ
  pub sbi : ℕ

-- A C string: the bytes before the first zero.
unfoldable pub c_string : List ℕ → List ℕ
c_string [] = []
c_string (x ∷ xs) = if x == 0 then [] else x ∷ c_string xs

-- `_CMD_LENGTH`.
abbrev pub cmd_length : ℕ
cmd_length = 4

-- The loop of `ProcessCommand` over n characters, with c words begun: a space ends a word, until there
-- are four.
unfoldable pub cut_words : ℕ → ℕ → List ℕ → List ℕ
cut_words c zero str = str
cut_words c (suc n) [] = []
cut_words c (suc n) (x ∷ xs) =
    let space = x == b' ' in
    let c' = if space then c + 1 else c in
    let rest = cut_words c' n xs in
    (if space then 0 else x) ∷ (if c' == cmd_length then xs else rest)

-- One byte is stored.
abbrev pub store : List ℕ → ℕ → ℕ → Outcome (List ℕ)
store buffer i x = write buffer i (x ∷ [])

-- One character from the serial line, and the line that `ProcessCommand` is handed, if there is one.
-- A backspace at the front makes `sbi` -1, and the byte before the buffer is written.
unfoldable pub shell_circle_buffer : ℕ → Shell → Outcome (Shell × Option (List ℕ))
unfolding cut_words
shell_circle_buffer x s =
    if s.sbi == buff_len - 1
    then (do cleared ← store s.buffer 0 0; ok (record { buffer = cleared; sbi = 0 }, none))
    else (if x == 8 || x == 127
        then (if s.sbi == 0 then fault else (do
          erased ← store s.buffer (s.sbi - 1) 0
          ok (record { buffer = erased; sbi = s.sbi - 1 }, none)))
        else (if x == b'\r'
            then ok (s, none)
            else (if x == b'\n'
                then (do
                  ended ← store s.buffer s.sbi 0
                  let line = c_string ended
                  cleared ← store (cut_words 1 (length line) ended) 0 0
                  ok (record { buffer = cleared; sbi = 0 }, some line))
                else (do
                  typed ← store s.buffer s.sbi x
                  ok (record { buffer = typed; sbi = s.sbi + 1 }, none)))))

-- The lines that are entered by a sequence of characters.
unfoldable pub entered_lines : List ℕ → Shell → Outcome (List (List ℕ))
unfolding shell_circle_buffer
entered_lines [] s = ok []
entered_lines (x ∷ xs) s = do
  r ← shell_circle_buffer x s
  lines ← entered_lines xs r.0
  ok (elim r.1 [ none ↦ lines | some line ↦ line ∷ lines ])

-- The zeroed buffer.
abbrev pub new_shell : Shell
new_shell = record { buffer = replicate buff_len 0; sbi = 0 }
