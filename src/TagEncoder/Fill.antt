-- ===== src/TagEncoder/Fill.antt =====
-- What a sequence of calls of the encoder leaves in a fresh buffer.
use dpd_chat_fabric.Prelude.{
  ℕ, suc, ◌+◌, ◌-◌, ◌≤◌, ◌≡◌, refl, sym, ap, ◌∙◌, List, [], ◌∷◌, ◌++◌, length, take, replicate, ok,
  read_front, write_at, be32, arith, pair_eq, append_assoc, length-append, length-take, append-nil,
}
use dpd_chat_fabric.Types.Commands.{TagData, cp_int32, cp_data8, cp_uuid}
use dpd_chat_fabric.Types.Structs.{Uuid}
use dpd_chat_fabric.TagEncoder.{
  field_body, cf_tag_encoder, Call, int32, data8, uuid, perform, perform_all,
}

-- The bytes of a call, and what it needs of its arguments.
abbrev pub body : Call → List ℕ
body (int32 tag value) = be32 value
body (data8 tag s len) = take len s
body (uuid tag u) = take 16 u

abbrev pub tag_of : Call → ℕ
tag_of (int32 tag value) = tag
tag_of (data8 tag s len) = tag
tag_of (uuid tag u) = tag

abbrev pub IsReadable : Call → Type 0
IsReadable (int32 tag value) = Unit {0}
IsReadable (data8 tag s len) = len ≤ length s
IsReadable (uuid tag u) = 16 ≤ length u

abbrev pub AllReadable : List Call → Type 0
AllReadable [] = Unit {0}
AllReadable (c ∷ cs) = IsReadable c × AllReadable cs

unfoldable pub bytes : List Call → List ℕ
bytes [] = []
bytes (c ∷ cs) = tag_of c ∷ (body c ++ bytes cs)

-- The two writes of the encoder, at the end of what is written.
cf_tag_encoder_lem :
    (before x : List ℕ) (type : TagData) (tag value len i k : ℕ) (s : List ℕ) (u : Uuid)
    → i ≡ length before
    → suc (length x) ≤ k
    → field_body type value s len u ≡ ok x
    → cf_tag_encoder type (before ++ replicate k 0) i tag value s len u
      ≡ ok ((before ++ (tag ∷ x)) ++ replicate (k - suc (length x)) 0, i + suc (length x))
unfolding cf_tag_encoder
cf_tag_encoder_lem before x type tag value len i k s u ei h e =
    rw (write_at before (tag ∷ []) 0 i k ei (omega arith)) (
      rw e (
        rw
          (write_at (before ++ (tag ∷ [])) x 0 (i + 1) (k - 1)
            (omega (arith, length-append before (tag ∷ []))) (omega arith))
          (ap ok (
            pair_eq
              (ap (λ r. r ++ replicate (k - 1 - length x) 0) (append_assoc before (tag ∷ []) x)
                ∙ ap (λ n. (before ++ (tag ∷ x)) ++ replicate n 0) {x = k - 1 - length x}
                    {y = k - suc (length x)} (omega arith))
              (omega arith)))))

size_of : (c : Call) → length (tag_of c ∷ body c) ≡ suc (length (body c))
size_of c = refl

-- One call appends its tag and its contents.
perform_lem :
    (c : Call) (before : List ℕ) (i k : ℕ)
    → i ≡ length before
    → suc (length (body c)) ≤ k
    → IsReadable c
    → perform c (before ++ replicate k 0) i
      ≡ ok (
        (before ++ (tag_of c ∷ body c)) ++ replicate (k - suc (length (body c))) 0,
        i + suc (length (body c)),
      )
unfolding perform field_body
perform_lem (int32 tag value) before i k ei h r =
    cf_tag_encoder_lem before (be32 value) cp_int32 tag value 0 i k [] [] ei h refl
perform_lem (data8 tag s len) before i k ei h r =
    cf_tag_encoder_lem before (take len s) cp_data8 tag 0 len i k s [] ei h (read_front s len r)
perform_lem (uuid tag u) before i k ei h r =
    cf_tag_encoder_lem before (take 16 u) cp_uuid tag 0 0 i k [] u ei h (read_front u 16 r)

-- The calls append their bytes, and the index moves by as much.
pub perform_all_lem :
    (cs : List Call) (before : List ℕ) (i k : ℕ)
    → i ≡ length before
    → length (bytes cs) ≤ k
    → AllReadable cs
    → perform_all cs (before ++ replicate k 0) i
      ≡ ok ((before ++ bytes cs) ++ replicate (k - length (bytes cs)) 0, i + length (bytes cs))
unfolding perform_all bytes
perform_all_lem [] before i k ei h r = ap ok (
    pair_eq (rw append-nil (ap (λ n. before ++ replicate n 0) {x = k} {y = k - 0} (omega arith)))
      (omega arith))
perform_all_lem (c ∷ cs) before i k ei h r =
    rw (perform_lem c before i k ei (omega (arith, length-append (body c) (bytes cs))) r.0) (
      rw
        (perform_all_lem cs (before ++ (tag_of c ∷ body c)) (i + suc (length (body c)))
          (k - suc (length (body c))) (omega (arith, length-append before (tag_of c ∷ body c)))
          (omega (arith, length-append (body c) (bytes cs))) r.1)
        (ap ok (
          pair_eq
            (ap (λ w. w ++ replicate (k - suc (length (body c)) - length (bytes cs)) 0)
                (append_assoc before (tag_of c ∷ body c) (bytes cs))
              ∙ ap (λ n. (before ++ (tag_of c ∷ (body c ++ bytes cs))) ++ replicate n 0)
                  {x = k - suc (length (body c)) - length (bytes cs)}
                  {y = k - suc (length (body c ++ bytes cs))}
                  (omega (arith, length-append (body c) (bytes cs))))
            (omega (arith, length-append (body c) (bytes cs))))))

-- A zeroed buffer of k bytes, k at least the size of the calls: it begins with their bytes, the
-- index ends behind them, and the rest is still zero.
pub perform_all_fill :
    (cs : List Call) (k : ℕ)
    → length (bytes cs) ≤ k
    → AllReadable cs
    → perform_all cs (replicate k 0) 0
      ≡ ok (bytes cs ++ replicate (k - length (bytes cs)) 0, length (bytes cs))
perform_all_fill cs k h r = perform_all_lem cs [] 0 k refl h r ∙ ap ok (pair_eq refl (omega arith))

-- The sizes of calls, as the program adds them up.
abbrev pub call_size : Call → ℕ
call_size (int32 tag value) = 5
call_size (data8 tag s len) = 1 + len
call_size (uuid tag u) = 17

abbrev pub calls_size : List Call → ℕ
calls_size [] = 0
calls_size (c ∷ cs) = call_size c + calls_size cs

size_lem : (c : Call) → IsReadable c → suc (length (body c)) ≡ call_size c
unfolding be32
size_lem (int32 tag value) r = refl
size_lem (data8 tag s len) r = omega (arith, length-take len s r)
size_lem (uuid tag u) r = omega (arith, length-take 16 u r)

pub length-bytes : (cs : List Call) → AllReadable cs → length (bytes cs) ≡ calls_size cs
unfolding bytes
length-bytes [] r = refl
length-bytes (c ∷ cs) r =
    omega (arith, size_lem c r.0, length-append (body c) (bytes cs), length-bytes cs r.1)

-- Calls that fit exactly: the buffer is their bytes.
pub perform_all_exact :
    (cs : List Call) (k : ℕ)
    → calls_size cs ≡ k
    → AllReadable cs
    → perform_all cs (replicate k 0) 0 ≡ ok (bytes cs, k)
perform_all_exact cs k e r =
    let n : length (bytes cs) ≡ k = omega (arith, length-bytes cs r) in
    perform_all_fill cs k (omega arith) r
    ∙ ap ok (
        pair_eq
          (ap (λ m. bytes cs ++ replicate m 0) {x = k - length (bytes cs)} {y = 0} (omega arith)
            ∙ append-nil (bytes cs))
          n)

pub bytes-append : (cs ds : List Call) → bytes (cs ++ ds) ≡ bytes cs ++ bytes ds
unfolding bytes
bytes-append [] ds = refl
bytes-append (c ∷ cs) ds =
    ap (λ r. tag_of c ∷ r)
      (ap (λ r. body c ++ r) (bytes-append cs ds)
        ∙ sym (append_assoc (body c) (bytes cs) (bytes ds)))

pub calls_size-append : (cs ds : List Call) → calls_size (cs ++ ds) ≡ calls_size cs + calls_size ds
calls_size-append [] ds = omega arith
calls_size-append (c ∷ cs) ds = omega (arith, calls_size-append cs ds)

pub AllReadable-append :
    (cs ds : List Call) → AllReadable cs → AllReadable ds → AllReadable (cs ++ ds)
AllReadable-append [] ds r q = q
AllReadable-append (c ∷ cs) ds r q = (r.0, AllReadable-append cs ds r.1 q)
