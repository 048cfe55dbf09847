-- ===== src/Tests/Stored.antt =====
-- The theorems on the stored files at a sample configuration and a sample pairing.
use dpd_chat_fabric.Prelude.{◌≡◌, ◌≢◌, refl, [], ◌∷◌, ok, no_fuel, ◌>>=◌, arith}
use dpd_chat_fabric.Config.{cf_config_read}
use dpd_chat_fabric.Config.Total.{cf_config_read-ne-no_fuel}
use dpd_chat_fabric.PairFile.{cf_pair_read, cf_pair_write}
use dpd_chat_fabric.PairFile.RoundTrip.{IsStorable, restored, cf_pair_reload}
use dpd_chat_fabric.PairFile.Total.{cf_pair_read-ne-no_fuel}
use dpd_chat_fabric.Tests.Data.{open_crypto, pairing, config}

pairing-IsStorable : IsStorable pairing
pairing-IsStorable = record {
  u0_size = refl;
  u1_size = refl;
  publickey_size = refl;
  nonce_size = refl;
  mynonce_size = refl;
  serial_word = omega arith;
  key_flag = omega arith;
  nonce_flag = omega arith;
}

cf_pair_reload_example :
    (cf_pair_write pairing >>= λ str. cf_pair_read open_crypto (config 1) pairing str)
    ≡ ok (record (config 1) { has_pairs = 1 }, restored open_crypto (config 1) pairing pairing)
cf_pair_reload_example =
    cf_pair_reload open_crypto (config 1) pairing pairing pairing-IsStorable (omega arith)
      (omega arith)

cf_pair_read_example : cf_pair_read open_crypto (config 1) pairing (1 ∷ 2 ∷ 3 ∷ []) ≢ no_fuel
cf_pair_read_example = cf_pair_read-ne-no_fuel open_crypto (config 1) pairing (1 ∷ 2 ∷ 3 ∷ [])

cf_config_read_example : cf_config_read (config 1) (15 ∷ 2 ∷ 3 ∷ []) 7 ≢ no_fuel
cf_config_read_example = cf_config_read-ne-no_fuel (config 1) (15 ∷ 2 ∷ 3 ∷ []) 7
