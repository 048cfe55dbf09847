-- ===== src/TagEncoder.antt =====
-- src/dpdChatFabric/cfTagEncoder.c: one tagged field is written into a buffer at an index.
-- `chatPacket_tagDataEncoder` is another name of it (src/includes/cfTagEncoder.h). The buffers are
-- allocated with 32-bit sizes, and every byte below the index was written, so it does not wrap.
pub mod Fill
use dpd_chat_fabric.Prelude.{
  ℕ, ◌+◌, ◌≤◌, ◌≡◌, List, [], ◌∷◌, ◌++◌, length, take, Outcome, ok, fault, no_fuel, ◌>>=◌, read,
  write, be32,
}
use dpd_chat_fabric.Types.Commands.{TagData, cp_int32, cp_data8, cp_uuid}
use dpd_chat_fabric.Types.Structs.{Uuid}

-- What follows the tag: four bytes in network order, `len` bytes of `s`, or the 16 of a uuid.
unfoldable pub field_body : TagData → ℕ → List ℕ → ℕ → Uuid → Outcome (List ℕ)
field_body cp_int32 value s len uuid = ok (be32 value)
field_body cp_data8 value s len uuid = read s 0 len
field_body cp_uuid value s len uuid = read uuid 0 16
field_body _ value s len uuid = ok []

-- The buffer and the index after the call.
unfoldable pub cf_tag_encoder :
    TagData → List ℕ → ℕ → ℕ → ℕ → List ℕ → ℕ → Uuid → Outcome (List ℕ × ℕ)
cf_tag_encoder type b i tag value s len uuid = do
  b' ← write b i (tag ∷ [])
  x ← field_body type value s len uuid
  b'' ← write b' (i + 1) x
  ok (b'', i + 1 + length x)

-- A call of the encoder as the callers make it, with the arguments that its type reads.
pub data Call : Type 0 where
  int32 : ℕ → ℕ → Call
  data8 : ℕ → List ℕ → ℕ → Call
  uuid : ℕ → Uuid → Call

unfoldable pub perform : Call → List ℕ → ℕ → Outcome (List ℕ × ℕ)
unfolding cf_tag_encoder
perform (int32 tag value) b i = cf_tag_encoder cp_int32 b i tag value [] 0 []
perform (data8 tag s len) b i = cf_tag_encoder cp_data8 b i tag 0 s len []
perform (uuid tag u) b i = cf_tag_encoder cp_uuid b i tag 0 [] 0 u

-- A sequence of calls on one buffer and one index.
unfoldable pub perform_all : List Call → List ℕ → ℕ → Outcome (List ℕ × ℕ)
unfolding perform
perform_all [] b i = ok (b, i)
perform_all (c ∷ cs) b i = do (b', i') ← perform c b i; perform_all cs b' i'
