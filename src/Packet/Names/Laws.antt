-- ===== src/Packet/Names/Laws.antt =====
-- The types and the names that `cfTagLookup` of src/dpdChatPacket/dpdChatPacket.c gives for a tag, beside
-- the writers of the two files.
use Prim.Native.String.{String, find, len}
use dpd_chat_fabric.Prelude.{
  ℕ, ◌≡◌, refl, Bool, true, Option, none, some, ◌&&◌, List, [], ◌∷◌, ◌++◌, ◌==◌, ltb, if◌then◌else◌,
}
use dpd_chat_fabric.Types.Tags.{config_tag, ConfigTag, cftag_eof}
use dpd_chat_fabric.Types.Structs.{Config, Pairing}
use dpd_chat_fabric.TagEncoder.{Call, int32, data8, uuid}
use dpd_chat_fabric.Config.{config_words, config_arrays, key_calls}
use dpd_chat_fabric.PairFile.{pair_calls}
use dpd_chat_fabric.Packet.Names.{cf_tag_lookup, data_type}

abbrev pub has_part : String → String → Bool
has_part name part = ltb (find name part) (len name)

-- The type that a name tells: 1 for one with "pv4" in it, as in ap_ipv4gw or sta_ntpv4, 2 for "pv6".
abbrev pub type_named : String → ℕ
type_named name = if has_part name "pv4" then 1 else (if has_part name "pv6" then 2 else 0)

-- The type of what a call writes: words are IPv4 addresses where their names say so, sixteen bytes are an
-- IPv6 address, and other bytes and uuids have no type.
abbrev pub has_written_type : Call → Bool
has_written_type (int32 tag v) =
    data_type (config_tag tag) == (if has_part (cf_tag_lookup (config_tag tag)) "pv4" then 1 else 0)
has_written_type (data8 tag s n) = data_type (config_tag tag) == (if n == 16 then 2 else 0)
has_written_type (uuid tag u) = data_type (config_tag tag) == 0

abbrev pub all_print : List Call → Bool
all_print [] = true
all_print (c ∷ cs) = has_written_type c && all_print cs

data_type-cf_tag_lookup : (t : Option ConfigTag) → data_type t ≡ type_named (cf_tag_lookup t)
unfolding data_type cf_tag_lookup
data_type-cf_tag_lookup none = refl
data_type-cf_tag_lookup (some cftag_eof) = refl
data_type-cf_tag_lookup (some _) = refl

-- The type that `cfTagLookup` gives for a tag is the one that the name it gives tells, for every tag. In
-- what `cfConfigWrite` and `cfPairWrite` write, a word has type 1 if its name is that of an IPv4 address
-- and else 0, bytes have type 2 if they are sixteen and else 0, and a uuid has type 0.
pub data_type-all_print :
    (c : Config) (p : Pairing) (t : Option ConfigTag)
    → (data_type t ≡ type_named (cf_tag_lookup t))
      × (all_print (((config_words c ++ config_arrays c) ++ key_calls c) ++ pair_calls p) ≡ true)
unfolding config_words config_arrays key_calls pair_calls data_type config_tag cf_tag_lookup
data_type-all_print c p t = (data_type-cf_tag_lookup t, refl)
