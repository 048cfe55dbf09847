-- ===== src/Packet/Encode/Payload.antt =====
-- The length that `chatPacket_encode` computes for a payload is the length of what it writes
-- (src/dpdChatPacket/dpdChatPacket.c).
use dpd_chat_fabric.Prelude.{
  ℕ, ◌+◌, ◌^◌, ◌≤◌, ◌<◌, ◌≡◌, refl, ap, inl, inr, Bool, true, false, ◌&&◌, Option, none, some, List,
  [], ◌∷◌, ◌++◌, length, drop, length-drop, u32, ltb, positive32, ◌==◌, Bool-cases, if◌then◌else◌,
  arith,
}
use dpd_chat_fabric.Types.Commands.{action_type_data}
use dpd_chat_fabric.Types.Structs.{ChatPacket, Control}
use dpd_chat_fabric.TagEncoder.{Call, int32, data8}
use dpd_chat_fabric.TagEncoder.Fill.{AllReadable, calls_size, calls_size-append, AllReadable-append}
use dpd_chat_fabric.Packet.Encode.{
  high_nibble, low_nibble, control_size, controls_size, payload_size, control_calls, controls_calls,
  action_calls, payload_calls, when, when_some,
}

-- The object behind a pointer holds n bytes, and a null pointer is announced with none.
abbrev pub HoldsBytes : Option (List ℕ) → ℕ → Type 0
HoldsBytes none n = n ≡ 0
HoldsBytes (some s) n = n ≤ length s

abbrev pub data_length : Control → ℕ
data_length c = if c.type == action_type_data && positive32 c.value then c.value else 0

pub record IsEncodableControl (c : Control) : Type 0 where
  pub label_fits : HoldsBytes c.label c.label_length
  pub data_fits : HoldsBytes c.data_bytes (data_length c)

abbrev pub AllEncodable : List Control → Type 0
AllEncodable [] = Unit {0}
AllEncodable (c ∷ cs) = IsEncodableControl c × AllEncodable cs

label_calls_lem :
    (o : Option (List ℕ)) (n t u : ℕ)
    → HoldsBytes o n
    → (calls_size (when (ltb 0 n) (when_some o (λ s. int32 t n ∷ data8 u s n ∷ [])))
        ≡ (if ltb 0 n then n + 1 + 5 else 0))
      × AllReadable (when (ltb 0 n) (when_some o (λ s. int32 t n ∷ data8 u s n ∷ [])))
label_calls_lem none n t u h = (ground arith, ground arith)
label_calls_lem (some s) n t u h = (ground arith, ground arith)

data_calls_lem :
    (o : Option (List ℕ)) (b : Bool) (n t : ℕ)
    → (b ≡ true → 0 < n)
    → HoldsBytes o (if b then n else 0)
    → (calls_size (when b (when_some o (λ s. data8 t s n ∷ []))) ≡ (if b then n + 1 else 0))
      × AllReadable (when b (when_some o (λ s. data8 t s n ∷ [])))
data_calls_lem o false n t p h = (refl, tt)
data_calls_lem none true n t p h = absurd (omega (arith, p refl))
data_calls_lem (some s) true n t p h = (omega arith, (h, tt))

calls_size-append_lem :
    (cs ds : List Call) (n m : ℕ)
    → calls_size cs ≡ n
    → calls_size ds ≡ m
    → calls_size (cs ++ ds) ≡ n + m
calls_size-append_lem cs ds n m e f = omega (arith, calls_size-append cs ds)

five_lem : (n l d : ℕ) → n ≡ l + d → 5 + (5 + (5 + (5 + (5 + n)))) ≡ 25 + d + l
five_lem n l d e = omega arith

control_calls_lem :
    (c : Control)
    → IsEncodableControl c
    → (calls_size (control_calls c) ≡ control_size c) × AllReadable (control_calls c)
unfolding control_calls
control_calls_lem c e =
    let l = label_calls_lem c.label c.label_length _ _ e.label_fits in
    let d =
      data_calls_lem c.data_bytes (c.type == action_type_data && positive32 c.value) c.value _
        (λ p. ground arith) e.data_fits in
    (
      five_lem _ _ _ (calls_size-append_lem _ _ _ _ l.0 d.0),
      (tt, (tt, (tt, (tt, (tt, AllReadable-append _ _ l.1 d.1))))),
    )

controls_calls_lem :
    (cs : List Control)
    → AllEncodable cs
    → (calls_size (controls_calls cs) ≡ controls_size cs) × AllReadable (controls_calls cs)
unfolding controls_calls
controls_calls_lem [] e = (refl, tt)
controls_calls_lem (c ∷ cs) e =
    let l = control_calls_lem c e.0 in
    let r = controls_calls_lem cs e.1 in
    (calls_size-append_lem _ _ _ _ l.0 r.0, AllReadable-append _ _ l.1 r.1)

-- A packet whose pointers hold what its lengths announce, whose padding has 16 bytes in two parts,
-- and whose payload fits a 32-bit length.
pub record IsEncodable (cp : ChatPacket) (controls : List Control) : Type 0 where
  pub padding_split :
      high_nibble cp.payload_random_padding_length + low_nibble cp.payload_random_padding_length
      ≡ 16
  pub padding_fits : length cp.payload_random_padding ≡ 16
  pub action_fits : cp.action_length ≤ length cp.action_data
  pub payload_fits : cp.payload_length ≤ length cp.payload
  pub controls_fit : AllEncodable controls
  pub small : calls_size (payload_calls cp controls true) < 2 ^ 32

action_calls_lem :
    (cp : ChatPacket)
    → cp.action_length ≤ length cp.action_data
    → (calls_size (action_calls cp) ≡ (
        if cp.action == 0
        then 0
        else 25 + (if ltb 0 cp.action_length then 1 + cp.action_length else 0)))
      × AllReadable (action_calls cp)
unfolding action_calls
action_calls_lem cp h = elim (Bool-cases (cp.action == 0)) [
  | inl e ↦ rw e (refl, tt)
  | inr e ↦ rw e (elim (Bool-cases (ltb 0 cp.action_length)) [
    | inl p ↦ rw p (omega arith, (tt, (tt, (tt, (tt, (tt, (h, tt)))))))
    | inr p ↦ rw p (refl, (tt, (tt, (tt, (tt, (tt, tt))))))
  ])
]

table_calls_lem :
    (cp : ChatPacket) (cs : List Control) (t : ℕ)
    → AllEncodable cs
    → (calls_size (
          when
            (positive32 cp.num_of_controllers)
            (int32 t cp.num_of_controllers ∷ controls_calls cs))
        ≡ (if positive32 cp.num_of_controllers then 5 + controls_size cs else 0))
      × AllReadable (
          when
            (positive32 cp.num_of_controllers)
            (int32 t cp.num_of_controllers ∷ controls_calls cs))
table_calls_lem cp cs t e = elim (Bool-cases (positive32 cp.num_of_controllers)) [
  | inl p ↦ rw p (ap (λ n. 5 + n) (controls_calls_lem cs e).0, (tt, (controls_calls_lem cs e).1))
  | inr p ↦ rw p (refl, tt)
]

plain_calls_lem :
    (s : List ℕ) (n t : ℕ)
    → n ≤ length s
    → (calls_size (when (ltb 0 n) (data8 t s n ∷ [])) ≡ (if ltb 0 n then 1 + n else 0))
      × AllReadable (when (ltb 0 n) (data8 t s n ∷ []))
plain_calls_lem s n t h = elim (Bool-cases (ltb 0 n)) [
  | inl p ↦ rw p (omega arith, (h, tt))
  | inr p ↦ rw p (refl, tt)
]

total_lem :
    (x h l a b p : ℕ)
    → h + l ≡ 16
    → x ≡ a + (b + (p + (1 + l + 0)))
    → 5 + (2 + (1 + h + x)) ≡ p + (2 + 17 + 5 + 1) + a + b
total_lem x h l a b p e f = omega arith

fits_lem : (n m : ℕ) → n ≡ m → n < 2 ^ 32 → n ≡ u32 m
fits_lem n m e h = omega arith

-- For an encodable packet and the controls that its loops visit: the length that is allocated for the
-- payload when it is encrypted is the number of bytes that the calls write into it, and every call reads
-- inside its object.
pub payload_size-payload_calls :
    (cp : ChatPacket) (cs : List Control)
    → IsEncodable cp cs
    → (calls_size (payload_calls cp cs true) ≡ payload_size cp cs)
      × AllReadable (payload_calls cp cs true)
unfolding payload_size payload_calls
payload_size-payload_calls cp cs e =
    let h = high_nibble cp.payload_random_padding_length in
    let a = action_calls_lem cp e.action_fits in
    let b = table_calls_lem cp cs _ e.controls_fit in
    let p = plain_calls_lem cp.payload cp.payload_length _ e.payload_fits in
    let low : low_nibble cp.payload_random_padding_length
        ≤ length (drop h cp.payload_random_padding) =
      omega (arith, e.padding_split, e.padding_fits, length-drop h cp.payload_random_padding) in
    (
      fits_lem _ _
          (total_lem _ h _ _ _ _ e.padding_split (
            calls_size-append_lem _ _ _ _ a.0
              (calls_size-append_lem _ _ _ _ b.0 (calls_size-append_lem _ _ _ _ p.0 refl))))
          e.small,
      (
        tt,
        (
          omega arith,
          (
            omega (arith, e.padding_split, e.padding_fits),
            AllReadable-append _ _ a.1
                (AllReadable-append _ _ b.1 (AllReadable-append _ _ p.1 (low, tt))),
          ),
        ),
      ),
    )
