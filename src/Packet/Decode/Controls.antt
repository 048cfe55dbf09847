-- ===== src/Packet/Decode/Controls.antt =====
-- `chatPacket_decode` of the controls that `chatPacket_encode` wrote (src/dpdChatPacket/dpdChatPacket.c).
use dpd_chat_fabric.Prelude.{
  ℕ, suc, ◌+◌, ◌-◌, ◌≤◌, ◌<◌, ◌^◌, ◌≡◌, refl, sym, ap, true, false, Option, none, some, List, [],
  ◌∷◌, ◌++◌, length, length-append, map, get_elem?, set, replicate, take, length-take, append_assoc,
  ok, read_at, read_word_at, arith, u32, ltb, ◌==◌, ◌&&◌, if◌then◌else◌, positive32, Bool-cases,
  inl, inr, be32, lt→ltb,
}
use dpd_chat_fabric.Types.Tags.{
  packet_tag, packet_tag_byte, cptag_app_controls, cptag_app_control_i, cptag_app_control_type,
  cptag_app_control_value, cptag_app_control_range_low, cptag_app_control_range_high,
  cptag_app_control_label_length, cptag_app_control_label,
}
use dpd_chat_fabric.Types.Commands.{action_type_data}
use dpd_chat_fabric.Types.Structs.{Control}
use dpd_chat_fabric.TagEncoder.{int32, data8}
use dpd_chat_fabric.Packet.Encode.{control_calls, controls_calls, when, when_some}
use dpd_chat_fabric.Packet.Encode.Payload.{HoldsBytes}
use dpd_chat_fabric.Packet.Decode.{
  DecodeEnv, Cursor, next, update_control, malloc_controls, decode_header_tag, decode_payload_tag,
  decode_action_tag, decode_control_tag,
}
use dpd_chat_fabric.Packet.Decode.Fields.{at, Reads, AllRead, none_left, one_more}
use dpd_chat_fabric.Packet.Decode.Header.{on}
use dpd_chat_fabric.Packet.Decode.Contents.{AllRead-append}

-- A control whose fields fit, whose label is as long as announced, and that has no data.
pub record IsSendableControl (c : Control) : Type 0 where
  pub control_fits : c.control < 2 ^ 32
  pub type_fits : c.type < 2 ^ 32
  pub value_fits : c.value < 2 ^ 32
  pub low_fits : c.range_low < 2 ^ 32
  pub high_fits : c.range_high < 2 ^ 32
  pub label_length_fits : c.label_length < 2 ^ 32
  pub label_fits : HoldsBytes c.label c.label_length
  pub no_data : (c.type == action_type_data && positive32 c.value) ≡ false

abbrev pub AllSendable : List Control → Type 0
AllSendable [] = Unit
AllSendable (c ∷ cs) = IsSendableControl c × AllSendable cs

abbrev pub label_bytes : Option (List ℕ) → List ℕ
label_bytes none = []
label_bytes (some s) = s

-- A label arrives with a zero behind it. Without one the receiver keeps what its memory holds.
abbrev pub labelled : Option (List ℕ) → ℕ → Control → Control
labelled label n c = record c {
  label_length = if ltb 0 n then n else c.label_length;
  label = if ltb 0 n then some (take n (label_bytes label) ++ (0 ∷ [])) else c.label;
}

-- What a control is decoded to, in fresh memory.
abbrev pub received : Control → Control → Control
received fresh c = labelled c.label c.label_length (record fresh {
  control = c.control;
  type = c.type;
  value = c.value;
  range_low = c.range_low;
  range_high = c.range_high;
})

get_elem?-append :
    (done rest : List Control) (c : Control) → get_elem? (done ++ (c ∷ rest)) (length done) ≡ some c
get_elem?-append [] rest c = refl
get_elem?-append (d ∷ done) rest c = get_elem?-append done rest c

set-append :
    (done rest : List Control) (c c' : Control)
    → set (done ++ (c ∷ rest)) (length done) c' ≡ done ++ (c' ∷ rest)
set-append [] rest c c' = refl
set-append (d ∷ done) rest c c' = ap (λ r. d ∷ r) (set-append done rest c c')

-- The controls of a cursor, and the one that is filled.
abbrev pub controlled : List Control → ℕ → Cursor → Cursor
controlled cs cur s = record s { cur_controler = cur; cp = record (s.cp) { controlers = cs } }

module _ (env : DecodeEnv) (n : ℕ) (done rest : List Control) (s : Cursor) where
  -- The cursor that fills the control behind the ones that are done.
  abbrev focus : Control → Cursor
  focus c = controlled (done ++ (c ∷ rest)) (length done) s

  update_focus :
      (c : Control) (cur moved i : ℕ) (f : Control → Control)
      → update_control (at (controlled (done ++ (c ∷ rest)) cur s) i) (length done) moved f
        ≡ ok (next (at (focus (f c)) (i + moved)))
  unfolding update_control
  update_focus c cur moved i f =
      rw (update_control, get_elem?-append done rest c, set-append done rest c (f c)) refl

  control_i_Reads :
      (v cur : ℕ) (c : Control)
      → v < 2 ^ 32
      → u32 (cur + 1) ≡ length done
      → Reads env n
          (int32 (packet_tag_byte cptag_app_control_i) v)
          (controlled (done ++ (c ∷ rest)) cur s)
          (focus (record c { control = v }))
  unfolding decode_header_tag decode_payload_tag decode_action_tag decode_control_tag
      packet_tag_byte packet_tag be32
  control_i_Reads v cur c h e nested before after i ei =
      rw (read_word_at before after i v ei h, e)
        (update_focus c cur 4 i (λ c. record c { control = v }))

  type_Reads :
      (v : ℕ) (c : Control)
      → v < 2 ^ 32
      → Reads env n
          (int32 (packet_tag_byte cptag_app_control_type) v)
          (focus c)
          (focus (record c { type = v }))
  unfolding decode_header_tag decode_payload_tag decode_action_tag decode_control_tag
      packet_tag_byte packet_tag be32
  type_Reads v c h nested before after i ei =
      rw (read_word_at before after i v ei h)
        (update_focus c (length done) 4 i (λ c. record c { type = v }))

  value_Reads :
      (v : ℕ) (c : Control)
      → v < 2 ^ 32
      → Reads env n
          (int32 (packet_tag_byte cptag_app_control_value) v)
          (focus c)
          (focus (record c { value = v }))
  unfolding decode_header_tag decode_payload_tag decode_action_tag decode_control_tag
      packet_tag_byte packet_tag be32
  value_Reads v c h nested before after i ei =
      rw (read_word_at before after i v ei h)
        (update_focus c (length done) 4 i (λ c. record c { value = v }))

  low_Reads :
      (v : ℕ) (c : Control)
      → v < 2 ^ 32
      → Reads env n
          (int32 (packet_tag_byte cptag_app_control_range_low) v)
          (focus c)
          (focus (record c { range_low = v }))
  unfolding decode_header_tag decode_payload_tag decode_action_tag decode_control_tag
      packet_tag_byte packet_tag be32
  low_Reads v c h nested before after i ei =
      rw (read_word_at before after i v ei h)
        (update_focus c (length done) 4 i (λ c. record c { range_low = v }))

  high_Reads :
      (v : ℕ) (c : Control)
      → v < 2 ^ 32
      → Reads env n
          (int32 (packet_tag_byte cptag_app_control_range_high) v)
          (focus c)
          (focus (record c { range_high = v }))
  unfolding decode_header_tag decode_payload_tag decode_action_tag decode_control_tag
      packet_tag_byte packet_tag be32
  high_Reads v c h nested before after i ei =
      rw (read_word_at before after i v ei h)
        (update_focus c (length done) 4 i (λ c. record c { range_high = v }))

  label_length_Reads :
      (v : ℕ) (c : Control)
      → v < 2 ^ 32
      → Reads env n
          (int32 (packet_tag_byte cptag_app_control_label_length) v)
          (focus c)
          (focus (record c { label_length = v }))
  unfolding decode_header_tag decode_payload_tag decode_action_tag decode_control_tag
      packet_tag_byte packet_tag be32
  label_length_Reads v c h nested before after i ei =
      rw (read_word_at before after i v ei h)
        (update_focus c (length done) 4 i (λ c. record c { label_length = v }))

  label_Reads :
      (x : List ℕ) (c : Control)
      → c.label_length ≤ length x
      → Reads env n
          (data8 (packet_tag_byte cptag_app_control_label) x c.label_length)
          (focus c)
          (focus (record c { label = some (take c.label_length x ++ (0 ∷ [])) }))
  unfolding decode_header_tag decode_payload_tag decode_action_tag decode_control_tag
      packet_tag_byte packet_tag
  label_Reads x c fits nested before after i ei =
      let k = length-take c.label_length x fits in
      rw
        (
          decode_control_tag,
          get_elem?-append done rest c,
          read_at before (take c.label_length x) after i c.label_length ei (sym k),
          k,
        )
        (update_focus c (length done) c.label_length i
          (λ d. record d { label = some (take c.label_length x ++ (0 ∷ [])) }))

  label_AllRead :
      (label : Option (List ℕ)) (k : ℕ) (c : Control)
      → HoldsBytes label k
      → k < 2 ^ 32
      → AllRead env n
          (when (ltb 0 k) (
            when_some label (λ x.
              int32 (packet_tag_byte cptag_app_control_label_length) k
              ∷ data8 (packet_tag_byte cptag_app_control_label) x k
              ∷ [])))
          (focus c)
          (focus (labelled label k c))
  label_AllRead none k c h fits = rw h none_left
  label_AllRead (some x) k c h fits = elim (Bool-cases (ltb 0 k)) [
    | inl e ↦
        let c' : Control = record c { label_length = k } in
        rw e (
          one_more {s = focus c} {s' = focus c'} _ (label_length_Reads k c fits)
            (one_more {s = focus c'} _ (label_Reads x c' h) none_left))
    | inr e ↦ rw e none_left
  ]

  control_AllRead :
      (fresh c : Control) (cur : ℕ)
      → IsSendableControl c
      → u32 (cur + 1) ≡ length done
      → AllRead env n
          (control_calls c)
          (controlled (done ++ (fresh ∷ rest)) cur s)
          (focus (received fresh c))
  unfolding control_calls
  control_AllRead fresh c cur w e =
      let c1 : Control = record fresh { control = c.control } in
      let c2 : Control = record c1 { type = c.type } in
      let c3 : Control = record c2 { value = c.value } in
      let c4 : Control = record c3 { range_low = c.range_low } in
      let c5 : Control = record c4 { range_high = c.range_high } in
      rw w.no_data (
        one_more {s = controlled (done ++ (fresh ∷ rest)) cur s} {s' = focus c1} _
          (control_i_Reads c.control cur fresh w.control_fits e)
          (one_more {s = focus c1} {s' = focus c2} _ (type_Reads c.type c1 w.type_fits) (
            one_more {s = focus c2} {s' = focus c3} _ (value_Reads c.value c2 w.value_fits) (
              one_more {s = focus c3} {s' = focus c4} _ (low_Reads c.range_low c3 w.low_fits) (
                one_more {s = focus c4} {s' = focus c5} _ (high_Reads c.range_high c4 w.high_fits) (
                  AllRead-append env n
                    (label_AllRead c.label c.label_length c5 w.label_fits w.label_length_fits)
                    none_left))))))

-- The number of the control that is filled last.
abbrev pub last_filled : ℕ → ℕ → List Control → ℕ
last_filled cur k [] = cur
last_filled cur k (c ∷ cs) = last_filled k (suc k) cs

module _ (env : DecodeEnv) (n : ℕ) (fresh : Control) (s : Cursor) where
  pub controls_AllRead :
      (cs done : List Control) (cur : ℕ)
      → AllSendable cs
      → u32 (cur + 1) ≡ length done
      → length done + length cs < 2 ^ 32
      → AllRead env n
          (controls_calls cs)
          (controlled (done ++ replicate (length cs) fresh) cur s)
          (controlled (done ++ map (received fresh) cs) (last_filled cur (length done) cs) s)
  unfolding controls_calls
  controls_AllRead [] done cur w e small = none_left
  controls_AllRead (c ∷ cs) done cur w e small =
      let k = length done in
      let c' : Control = received fresh c in
      let before : List Control = done ++ (c' ∷ []) in
      let size : length before ≡ suc k = omega (arith, length-append done (c' ∷ [])) in
      let more = controls_AllRead cs before k w.1 (omega arith) (omega arith) in
      AllRead-append env n
        (control_AllRead env n done (replicate (length cs) fresh) s fresh c cur w.0 e)
        (rw
          (
            append_assoc done (c' ∷ []) (replicate (length cs) fresh),
            append_assoc done (c' ∷ []) (map (received fresh) cs),
            size,
          )
          at more)

-- What a cursor is after the number of controls and the controls, if there are any.
abbrev pub with_controls : Control → ℕ → List Control → Cursor → Cursor
with_controls fresh num cs s =
    let some_controls = positive32 num in
    record s {
      cur_controler = if some_controls then last_filled (2 ^ 32 - 1) 0 cs else s.cur_controler;
      cp = record (s.cp) {
        controlers = if some_controls then map (received fresh) cs else (s.cp).controlers;
        num_of_controllers = if some_controls then num else (s.cp).num_of_controllers;
      };
    }

module _ (env : DecodeEnv) (n : ℕ) where
  app_controls_Reads :
      (v : ℕ)
      → v < 2 ^ 31
      → (s : Cursor)
      → Reads env n (int32 (packet_tag_byte cptag_app_controls) v) s (
          controlled
            (replicate v env.fresh)
            (2 ^ 32 - 1)
            (on (λ cp. record cp { num_of_controllers = v }) s))
  unfolding decode_header_tag decode_payload_tag decode_action_tag decode_control_tag
      malloc_controls packet_tag_byte packet_tag be32
  app_controls_Reads v h s nested before after i e =
      rw (read_word_at before after i v e (omega arith), lt→ltb v (2 ^ 31) h) refl

  pub all_controls_AllRead :
      (num : ℕ) (cs : List Control) (s : Cursor)
      → AllSendable cs
      → (positive32 num ≡ true → length cs ≡ num)
      → AllRead env n
          (when
            (positive32 num)
            (int32 (packet_tag_byte cptag_app_controls) num ∷ controls_calls cs))
          s
          (with_controls env.fresh num cs s)
  all_controls_AllRead num cs s w counted = elim (Bool-cases (positive32 num)) [
    | inl e ↦
        let small : num < 2 ^ 31 = ground arith in
        let same = counted e in
        let s' : Cursor = on (λ cp. record cp { num_of_controllers = num }) s in
        let start : Cursor = controlled (replicate num env.fresh) (2 ^ 32 - 1) s' in
        let rest = controls_AllRead env n env.fresh s' cs [] (2 ^ 32 - 1) w refl (omega arith) in
        rw e (one_more {s = s} {s' = start} _ (app_controls_Reads num small s) (rw same at rest))
    | inr e ↦ rw e none_left
  ]
