-- ===== src/Prelude/Memory.antt =====
-- Objects in memory as lists, C calls that fail or touch memory outside an object, and words in
-- network byte order. An object of n bytes is a list of length n, and the null pointer is [].
use Prim.Native.Nat.{ℕ, zero, suc, ◌+◌, ◌-◌, ◌^◌, ◌≤◌, ◌<◌}
use mathlib.Core.Path.{◌≡◌, refl, sym, ap, ◌∙◌, subst}
use mathlib.Core.Logic.{◌⊎◌, inl, inr}
use mathlib.Core.List.{List, [], ◌∷◌, ◌++◌, append_assoc}
use native.Mathlib.Omega.{arith}
use dpd_chat_fabric.Prelude.Tests.{leb, if◌then◌else◌, le→leb, Bool-cases}
use dpd_chat_fabric.Prelude.Words.{be32, of_be32, of_be32-be32}
use dpd_chat_fabric.Prelude.Lists.{
  length, take, drop, replicate, length-append, length-replicate, length-take, length-drop,
  take-append, drop-append, take-drop,
}

-- `fault` is an access outside an object, which C leaves undefined,
-- and `no_fuel` a loop that was cut off by the model.
pub data Outcome {ℓ} (A : Type ℓ) : Type ℓ where
  ok : A → Outcome A
  fault no_fuel : Outcome A

infixl 5 ◌>>=◌ ◌>>◌
abbrev pub ◌>>=◌ {ℓ κ} : {A : Type ℓ} {B : Type κ} → Outcome A → (A → Outcome B) → Outcome B
ok a >>= f = f a
fault >>= f = fault
no_fuel >>= f = no_fuel

abbrev pub ◌>>◌ {ℓ} : {B : Type ℓ} → Outcome (Unit {0}) → Outcome B → Outcome B
m >> k = m >>= λ _. k

module _ {ℓ} {A : Type ℓ} where
  -- The n elements from index i on: what `memcpy (x, b+i, n)` reads.
  unfoldable pub read : List A → ℕ → ℕ → Outcome (List A)
  read b i n = if leb (i + n) (length b) then ok (take n (drop i b)) else fault

  -- The object after `memcpy (b+i, x, n)`, for x of n elements.
  unfoldable pub write : List A → ℕ → List A → Outcome (List A)
  write b i x =
      if leb (i + length x) (length b) then ok (take i b ++ (x ++ drop (i + length x) b)) else fault

  take-append_more : (xs ys : List A) (n : ℕ) → n ≡ length xs → take n (xs ++ ys) ≡ xs
  take-append_more xs ys n e = ap (λ k. take k (xs ++ ys)) e ∙ take-append xs ys

  pub drop_past : (xs ys : List A) (n : ℕ) → drop (length xs + n) (xs ++ ys) ≡ drop n ys
  drop_past [] ys n = ap (λ k. drop k ys) (omega arith)
  drop_past (x ∷ xs) ys n = ap (λ k. drop k (x ∷ (xs ++ ys))) (suc_add n) ∙ drop_past xs ys n
    where
      suc_add : (n : ℕ) → suc (length xs) + n ≡ suc (length xs + n)
      suc_add n = omega arith

  pub drop-replicate : (n k : ℕ) (a : A) → drop n (replicate k a) ≡ replicate (k - n) a
  drop-replicate zero k a = ap (λ m. replicate m a) (omega arith)
  drop-replicate (suc n) zero a = ap (λ m. replicate m a) {x = 0} (omega arith)
  drop-replicate (suc n) (suc k) a =
      drop-replicate n k a ∙ ap (λ m. replicate m a) {x = k - n} (omega arith)

  -- A read at the boundary of the bytes before it gives the bytes that stand there.
  pub read_at :
      (before x after : List A) (i n : ℕ)
      → i ≡ length before
      → n ≡ length x
      → read (before ++ (x ++ after)) i n ≡ ok x
  unfolding read
  read_at before x after i n ei en =
      rw
        (le→leb (i + n) (length (before ++ (x ++ after)))
          (omega (arith, length-append before (x ++ after), length-append x after)))
        (ap ok (
          ap (λ k. take n (drop k (before ++ (x ++ after)))) ei
          ∙ (ap (take n) (drop-append before (x ++ after)) ∙ take-append_more x after n en)))

  -- A write into the fresh part of a zeroed object appends to what was written before.
  pub write_at :
      (before x : List A) (a : A) (i k : ℕ)
      → i ≡ length before
      → length x ≤ k
      → write (before ++ replicate k a) i x ≡ ok ((before ++ x) ++ replicate (k - length x) a)
  unfolding write
  write_at before x a i k ei h =
      rw
        (le→leb (i + length x) (length (before ++ replicate k a))
          (omega (arith, length-append before (replicate k a), length-replicate k a)))
        (ap ok (
          ap (λ j. take j b ++ (x ++ drop (j + length x) b)) ei
          ∙ (ap (λ r. r ++ (x ++ drop (length before + length x) b))
                (take-append before (replicate k a))
              ∙ (ap (λ r. before ++ (x ++ r))
                    (drop_past before (replicate k a) (length x) ∙ drop-replicate (length x) k a)
                  ∙ sym (append_assoc before x (replicate (k - length x) a))))))
    where
      b : List A
      b = before ++ replicate k a

  -- A write over as many elements as are written.
  pub write_over :
      (before old x after : List A) (i : ℕ)
      → i ≡ length before
      → length x ≡ length old
      → write (before ++ (old ++ after)) i x ≡ ok (before ++ (x ++ after))
  unfolding write
  write_over before old x after i ei h =
      rw
        (le→leb (i + length x) (length (before ++ (old ++ after)))
          (omega (arith, length-append before (old ++ after), length-append old after)))
        (ap (λ j. ok (take j b ++ (x ++ drop (j + length x) b))) ei
          ∙ ap (λ r. ok (r ++ (x ++ drop (length before + length x) b)))
              (take-append before (old ++ after))
          ∙ ap (λ r. ok (before ++ (x ++ r)))
              (drop_past before (old ++ after) (length x)
                ∙ (ap (λ k. drop k (old ++ after)) h ∙ drop-append old after)))
    where
      b : List A
      b = before ++ (old ++ after)

  -- A write at the front.
  pub write_front : (b x : List A) → length x ≤ length b → write b 0 x ≡ ok (x ++ drop (length x) b)
  write_front b x h =
      ap (λ r. write r 0 x) (sym (take-drop (length x) b))
      ∙ write_over [] (take (length x) b) x (drop (length x) b) 0 refl
          (sym (length-take (length x) b h))

  -- A read gives as many elements as were asked for.
  pub length-read :
      (b : List A) (i n : ℕ) {x : List A} → read b i n ≡ ok x → (length x ≡ n) × (i + n ≤ length b)
  unfolding read
  length-read b i n h = ground (arith, length-take n (drop i b), length-drop i b)

  pub read_front : (s : List A) (n : ℕ) → n ≤ length s → read s 0 n ≡ ok (take n s)
  unfolding read
  read_front s n h = rw (le→leb (0 + n) (length s) (omega arith))

  -- A read succeeds, or leaves the object.
  pub read-cases :
      (b : List A) (i n : ℕ) → ((x : List A) × (read b i n ≡ ok x)) ⊎ (read b i n ≡ fault)
  unfolding read
  read-cases b i n = elim (Bool-cases (leb (i + n) (length b))) [
    | inl e ↦ inl (take n (drop i b), rw e refl)
    | inr e ↦ inr (rw e refl)
  ]

-- `calloc (n, 1)`, which is taken to succeed. It is shut, so that no proof lists n zeros.
unfoldable pub calloc : ℕ → List ℕ
calloc n = replicate n 0

pub length-calloc : (n : ℕ) → length (calloc n) ≡ n
unfolding calloc
length-calloc n = length-replicate n 0

-- `memcpy (&ni, b+i, 4)` and `ntohl (ni)`.
unfoldable pub read_word : List ℕ → ℕ → Outcome ℕ
read_word b i = do x ← read b i 4; ok (of_be32 x)

pub read_word_at :
    (before after : List ℕ) (i v : ℕ)
    → i ≡ length before
    → v < 2 ^ 32
    → read_word (before ++ (be32 v ++ after)) i ≡ ok v
unfolding read_word
read_word_at before after i v ei h =
    rw (read_at before (be32 v) after i 4 ei (unfold be32 in refl)) (ap ok (of_be32-be32 v h))

-- What holds of the result of code that neither touches memory outside an object nor is cut off.
abbrev pub Holds {ℓ κ} : {A : Type ℓ} → (A → Type κ) → Outcome A → Type κ
Holds P (ok a) = P a
Holds P _ = Unit

pub Holds->>= {ℓ κ} :
    {A : Type ℓ} {B : Type ℓ} (P : B → Type κ) (m : Outcome A) (f : A → Outcome B)
    → ((a : A) → m ≡ ok a → Holds P (f a))
    → Holds P (m >>= f)
Holds->>= P (ok a) f h = h a refl
Holds->>= P fault f h = tt
Holds->>= P no_fuel f h = tt

pub Holds-eq_ok {ℓ κ} :
    {A : Type ℓ} (P : A → Type κ) (m : Outcome A) {a : A} → Holds P m → m ≡ ok a → P a
Holds-eq_ok P m h e = subst (Holds P) e h
