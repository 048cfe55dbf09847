-- ===== src/PairFile/Total.antt =====
-- `cfPairRead` comes to an end on every file (src/dpdChatFabric/cfPairConfig.c).
use dpd_chat_fabric.Prelude.{ℕ, suc, ◌≢◌, List, length, Option, none, some, no_fuel, arith}
use dpd_chat_fabric.Types.Tags.{ConfigTag, cftag_header, cftag_pair_length, cftag_pairs}
use dpd_chat_fabric.Types.Structs.{Pairing, Config}
use dpd_chat_fabric.Crypto.{Crypto}
use dpd_chat_fabric.TagReader.{Reader}
use dpd_chat_fabric.TagReader.Laws.{
  Advances, copy_field-Advances, set_filesize-Advances, tag_loop-ne-no_fuel, bind-ne-no_fuel,
}
use dpd_chat_fabric.PairFile.{PairTarget, read_pair_tag, cf_pair_read}

read_pair_tag-Advances :
    (str : List ℕ) (t : Option ConfigTag) (r : Reader PairTarget)
    → Advances r.i (read_pair_tag str t r)
unfolding read_pair_tag
read_pair_tag-Advances str none r = omega arith
read_pair_tag-Advances str (some cftag_header) r = omega arith
read_pair_tag-Advances str (some cftag_pair_length) r = set_filesize-Advances str r
read_pair_tag-Advances str (some cftag_pairs) r = copy_field-Advances 4 _ str r
read_pair_tag-Advances str (some _) r = copy_field-Advances _ _ str r

-- On every file, of any bytes, the reading of a pairing ends: it never runs out of rounds.
pub cf_pair_read-ne-no_fuel :
    (c : Crypto) (config : Config) (p : Pairing) (str : List ℕ)
    → cf_pair_read c config p str ≢ no_fuel
unfolding cf_pair_read
cf_pair_read-ne-no_fuel c config p str =
    bind-ne-no_fuel _ _
      (tag_loop-ne-no_fuel read_pair_tag read_pair_tag-Advances (suc (length str)) str _
        (omega arith) (omega arith))
      (λ r e. cc)
