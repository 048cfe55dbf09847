-- ===== src/Text/Uuids.antt =====
-- The text of a uuid: `uuuid2_to_str` and `uuuid2_from_str` of src/uuid/uuuid2.c.
use dpd_chat_fabric.Prelude.{
  ℕ, suc, ◌+◌, ◌-◌, ◌≤◌, ◌≡◌, refl, sym, ap, ◌∙◌, Bool, true, false, ◌&&◌, List, [], ◌∷◌, ◌++◌,
  append_assoc, length, length-append, take, drop, take_past, take-append, write_front, replicate,
  none, some, Outcome, ok, ◌>>=◌, write, leb, le→leb, lt→ltb, ltb, ◌==◌, if◌then◌else◌, arith,
}
use dpd_chat_fabric.Types.Structs.{Uuid}
use dpd_chat_fabric.Text.{Stdio, StdioLaws, AreBytes, none_left, one_more}

-- The parts of a format: `%02x`, and a character that stands for itself.
pub data Directive : Type 0 where
  hex : Directive
  dash : Directive

-- `"%02x%02x%02x%02x-%02x%02x-%02x%02x-%02x%02x-%02x%02x%02x%02x%02x%02x"`.
abbrev pub uuid_format : List Directive
uuid_format =
    hex ∷ hex ∷ hex ∷ hex ∷ dash ∷ hex ∷ hex ∷ dash ∷ hex ∷ hex ∷ dash ∷ hex ∷ hex ∷ dash ∷ hex
    ∷ hex ∷ hex ∷ hex ∷ hex ∷ hex ∷ []

-- The text of numbers under a format.
unfoldable pub print_format : Stdio → List Directive → List ℕ → List ℕ
print_format io [] bs = []
print_format io (dash ∷ ds) bs = b'-' ∷ print_format io ds bs
print_format io (hex ∷ ds) [] = []
print_format io (hex ∷ ds) (b ∷ bs) = io.print_hex b ++ print_format io ds bs

abbrev starts_with : ℕ → List ℕ → Bool
starts_with c [] = false
starts_with c (x ∷ xs) = x == c

-- The numbers that are scanned before the first directive that does not match.
unfoldable pub scan_format : Stdio → List Directive → List ℕ → List ℕ
scan_format io [] s = []
scan_format io (dash ∷ ds) s =
    let rest = scan_format io ds (drop 1 s) in if starts_with b'-' s then rest else []
scan_format io (hex ∷ ds) s = elim (io.scan_hex s) [
  | none ↦ []
  | some found ↦ found.0 ∷ scan_format io ds found.1
]

-- The buffer after `snprintf`, and whether the text and its zero fit in the size.
unfoldable pub uuid_to_str : Stdio → List ℕ → ℕ → Uuid → Outcome (List ℕ × Bool)
unfolding print_format
uuid_to_str io buf size id = do
  let text = print_format io uuid_format id
  buf' ← (if ltb 0 size then write buf 0 (take (size - 1) text ++ (0 ∷ [])) else ok buf)
  ok (buf', leb (length text + 1) size)

-- `for(i = 0; i < 16; ++i)`: bytes are stored up to the first number that is none.
unfoldable pub store_bytes : List ℕ → Uuid → Uuid × Bool
store_bytes (b ∷ bs) (x ∷ xs) =
    let rest = store_bytes bs xs in if leb b 255 then (b ∷ rest.0, rest.1) else (x ∷ xs, false)
store_bytes _ id = (id, true)

-- `b` begins as sixteen zeros. The numbers are `int`s, kept as their bit patterns.
unfoldable pub uuid_from_str : Stdio → Uuid → List ℕ → Uuid × Bool
unfolding scan_format store_bytes
uuid_from_str io id buf =
    let found = scan_format io uuid_format buf in
    let stored = store_bytes (take 16 (found ++ replicate 16 0)) id in
    (stored.0, stored.1 && length found == 16)

-- The number of directives that take a number.
abbrev hexes : List Directive → ℕ
hexes [] = 0
hexes (hex ∷ ds) = suc (hexes ds)
hexes (dash ∷ ds) = hexes ds

module _ (io : Stdio) (laws : StdioLaws io) where
  scan_format-print_format :
      (ds : List Directive) {bs : List ℕ} (rest : List ℕ)
      → AreBytes bs
      → hexes ds ≡ length bs
      → scan_format io ds (print_format io ds bs ++ rest) ≡ bs
  unfolding scan_format print_format
  scan_format-print_format [] rest none_left e = refl
  scan_format-print_format [] rest (one_more p w) e = absurd (omega arith)
  scan_format-print_format (dash ∷ ds) rest w e = scan_format-print_format ds rest w e
  scan_format-print_format (hex ∷ ds) rest none_left e = absurd (omega arith)
  scan_format-print_format (hex ∷ ds) rest (one_more {b} {bs} p w) e =
      rw
        (
          append_assoc (io.print_hex b) (print_format io ds bs) rest,
          scan_format,
          laws.scanned b (print_format io ds bs ++ rest) p,
        )
        (ap (λ r. b ∷ r) (scan_format-print_format ds rest w (omega arith)))

  length-print_format :
      (ds : List Directive) {bs : List ℕ}
      → AreBytes bs
      → hexes ds ≡ length bs
      → length (print_format io ds bs) ≡ length ds + hexes ds
  unfolding print_format
  length-print_format [] w e = refl
  length-print_format (dash ∷ ds) w e = omega (arith, length-print_format ds w e)
  length-print_format (hex ∷ ds) none_left e = absurd (omega arith)
  length-print_format (hex ∷ ds) (one_more {b} {bs} p w) e = omega (
    arith,
    length-append (io.print_hex b) (print_format io ds bs),
    laws.two_digits b p,
    length-print_format ds w (omega arith),
  )

store_bytes_all :
    {bs : List ℕ} (old : List ℕ)
    → AreBytes bs
    → length old ≡ length bs
    → store_bytes bs old ≡ (bs, true)
unfolding store_bytes
store_bytes_all [] none_left e = refl
store_bytes_all (x ∷ xs) none_left e = absurd (omega arith)
store_bytes_all [] (one_more p w) e = absurd (omega arith)
store_bytes_all (x ∷ xs) (one_more {b} {bs} p w) e =
    rw (le→leb b 255 (omega arith), store_bytes_all xs w (omega arith)) refl

-- The uuid that is read back from the text of another one.
abbrev pub reread : Stdio → Uuid → List ℕ → ℕ → Uuid → Outcome ((Uuid × Bool) × Bool)
reread io old buf size id = do
  printed ← uuid_to_str io buf size id
  ok (uuid_from_str io old printed.0, printed.1)

-- A uuid is the one that its text is scanned to, over any uuid, if the buffer has the size that is
-- announced, and that is at least 37.
pub uuid_from_str-uuid_to_str :
    (io : Stdio) (id old buf : List ℕ) (size : ℕ)
    → StdioLaws io
    → AreBytes id
    → length id ≡ 16
    → length old ≡ 16
    → 37 ≤ size
    → size ≤ length buf
    → reread io old buf size id ≡ ok ((id, true), true)
unfolding uuid_to_str uuid_from_str
uuid_from_str-uuid_to_str io id old buf size laws w e e' large fits =
    let text : List ℕ = print_format io uuid_format id in
    let all : length text ≡ 36 = omega (arith, length-print_format io laws uuid_format w (sym e)) in
    let x : List ℕ = text ++ (0 ∷ []) in
    let k : ℕ = length x in
    let written : write buf 0 x ≡ ok (x ++ drop k buf) =
      write_front buf x (omega (arith, all, length-append text (0 ∷ []))) in
    let scan = scan_format-print_format io laws uuid_format ((0 ∷ []) ++ drop k buf) w (sym e) in
    let zeros : List ℕ = replicate 16 0 in
    let front : take 16 (id ++ zeros) ≡ id =
      ap (λ n. take n (id ++ zeros)) (sym e) ∙ take-append id zeros in
    rw
      (
        lt→ltb 0 size (omega arith),
        take_past (size - 1) text (omega arith),
        written,
        append_assoc text (0 ∷ []) (drop k buf),
        scan,
        front,
        store_bytes_all old w (e' ∙ sym e),
        e,
        le→leb (length text + 1) size (omega arith),
      )
      refl
