-- ===== src/Tests/Names.antt =====
-- Instances of the theorems about names and about a datagram without end
-- (src/dpdChatPacket/dpdChatPacket.c).
use dpd_chat_fabric.Prelude.{some, ◌-◌, ◌^◌, ◌≡◌, refl, true, [], ◌∷◌, ◌++◌, arith, be32, no_fuel}
use dpd_chat_fabric.Types.Tags.{
  cftag_sta_ntpv4, packet_tag_byte, cptag_action_data, cptag_payload_length,
}
use dpd_chat_fabric.Config.{config_words, config_arrays, key_calls}
use dpd_chat_fabric.PairFile.{pair_calls}
use dpd_chat_fabric.Packet.Names.Laws.{type_named, all_print, data_type-all_print}
use dpd_chat_fabric.Packet.Names.{cf_tag_lookup, data_type}
use dpd_chat_fabric.Packet.Decode.{chat_packet_decode}
use dpd_chat_fabric.Packet.Decode.Stuck.{chat_packet_decode-stuck}
use dpd_chat_fabric.Tests.Data.{packet, pairing, config, decode_env}

data_type-all_print_example :
    (data_type (some cftag_sta_ntpv4) ≡ type_named (cf_tag_lookup (some cftag_sta_ntpv4)))
    × (all_print (
          ((config_words (config 1) ++ config_arrays (config 1)) ++ key_calls (config 1))
          ++ pair_calls pairing)
        ≡ true)
data_type-all_print_example = data_type-all_print (config 1) pairing (some cftag_sta_ntpv4)

chat_packet_decode-stuck_example :
    chat_packet_decode decode_env 100
      (record packet { action_length = 0 })
      (packet_tag_byte cptag_payload_length
        ∷ (be32 (2 ^ 32 - 1) ++ (packet_tag_byte cptag_action_data ∷ [])))
      6
    ≡ no_fuel
chat_packet_decode-stuck_example =
    chat_packet_decode-stuck decode_env 100 6 [] (record packet { action_length = 0 }) (omega arith)
      refl
