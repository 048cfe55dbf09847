-- ===== src/Config/Total.antt =====
-- `_cfConfigRead` comes to an end on every string (src/dpdChatFabric/cfConfig.c).
use dpd_chat_fabric.Prelude.{ℕ, suc, ◌≢◌, List, length, Option, none, some, no_fuel, arith}
use dpd_chat_fabric.Types.Tags.{ConfigTag, cftag_header, cftag_config_length, cftag_eof}
use dpd_chat_fabric.Types.Structs.{Config}
use dpd_chat_fabric.TagReader.{Reader}
use dpd_chat_fabric.TagReader.Laws.{
  Advances, copy_field-Advances, set_filesize-Advances, tag_loop-ne-no_fuel, bind-ne-no_fuel,
}
use dpd_chat_fabric.Config.{read_config_tag, cf_config_read}

read_config_tag-Advances :
    (str : List ℕ) (t : Option ConfigTag) (r : Reader Config)
    → Advances r.i (read_config_tag str t r)
unfolding read_config_tag
read_config_tag-Advances str none r = omega arith
read_config_tag-Advances str (some cftag_header) r = omega arith
read_config_tag-Advances str (some cftag_eof) r = omega arith
read_config_tag-Advances str (some cftag_config_length) r = set_filesize-Advances str r
read_config_tag-Advances str (some _) r = copy_field-Advances _ _ str r

-- On every string, of any bytes and with any size announced for it, the reading of a configuration
-- ends: it never runs out of rounds.
pub cf_config_read-ne-no_fuel :
    (c : Config) (str : List ℕ) (size : ℕ) → cf_config_read c str size ≢ no_fuel
unfolding cf_config_read
cf_config_read-ne-no_fuel c str size =
    bind-ne-no_fuel _ _
      (tag_loop-ne-no_fuel read_config_tag read_config_tag-Advances (suc (length str)) str _
        (omega arith) (omega arith))
      (λ r e. cc)
