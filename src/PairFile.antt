-- ===== src/PairFile.antt =====
-- src/dpdChatFabric/cfPairConfig.c: the pairing, and the file that keeps it, in the build without
-- ESP8266, on a little-endian machine, which a copy of the first byte of a number depends on.
pub mod RoundTrip
pub mod Total
use dpd_chat_fabric.Prelude.{
  ℕ, zero, suc, ◌+◌, ◌*◌, ◌/◌, ◌%◌, ◌^◌, ◌≡◌, Bool, true, false, Option, none, some, List, [], ◌∷◌,
  ◌++◌, length, replicate, get_or, Outcome, ok, fault, no_fuel, ◌>>=◌, read, of_be32, ltb,
  if◌then◌else◌,
}
use dpd_chat_fabric.Types.Tags.{
  ConfigTag, config_tag, config_tag_byte, cftag_header, cftag_pairs, cftag_pair_length,
  cftag_has_public_key, cftag_has_nonce, cftag_state, cftag_serial, cftag_uuid0, cftag_uuid1,
  cftag_publickey, cftag_mynonce, cftag_nonce,
}
use dpd_chat_fabric.Types.Commands.{pair_state, state_number, state_unconfigured, state_paired}
use dpd_chat_fabric.TagReader.{Reader, copy_field, set_filesize, tag_loop}
use dpd_chat_fabric.Types.Structs.{Pairing, Config, Uuid, publickey_bytes, nonce_bytes}
use dpd_chat_fabric.Crypto.{Crypto}
use dpd_chat_fabric.TagEncoder.{Call, int32, data8, uuid, perform_all}

-- `uuuid2_gen_nil` of src/uuid/uuuid2.c. An array of 16 bytes is left as it is.
unfoldable pub gen_nil : Uuid → Uuid
gen_nil u = u

-- `cfPairInit`, given the bytes that `arc4random_buf` delivers. The keys are left as they are.
unfoldable pub cf_pair_init : List ℕ → Pairing → Pairing
unfolding gen_nil
cf_pair_init random pair = record pair {
  has_public_key = 0;
  has_nonce = 0;
  serial = 0;
  uuid = record { u0 = gen_nil (pair.uuid).u0; u1 = gen_nil (pair.uuid).u1 };
  state = state_unconfigured;
  nullnonce = replicate nonce_bytes 0;
  nonce = replicate nonce_bytes 0;
  mynonce = random;
}

-- The bytes of a `uint32_t` in memory.
abbrev pub le32 : ℕ → List ℕ
le32 v = (v % 256) ∷ (v / 256 % 256) ∷ (v / 65536 % 256) ∷ (v / 16777216 % 256) ∷ []

-- The number after `memcpy` of one byte to its address.
abbrev pub set_low_byte : ℕ → List ℕ → ℕ
set_low_byte v x = v / 256 * 256 + get_or x 0 0

abbrev pub pair_size : ℕ
pair_size = 111

-- The calls of `cfPairWrite`.
unfoldable pub pair_calls : Pairing → List Call
unfolding config_tag_byte
pair_calls p =
    int32 (config_tag_byte cftag_header) 0
    ∷ int32 (config_tag_byte cftag_pairs) 1
    ∷ int32 (config_tag_byte cftag_pair_length) pair_size
    ∷ data8 (config_tag_byte cftag_has_public_key) (le32 p.has_public_key) 1
    ∷ data8 (config_tag_byte cftag_has_nonce) (le32 p.has_nonce) 1
    ∷ data8 (config_tag_byte cftag_state) (le32 (state_number p.state)) 1
    ∷ int32 (config_tag_byte cftag_serial) p.serial
    ∷ uuid (config_tag_byte cftag_uuid0) (p.uuid).u0
    ∷ uuid (config_tag_byte cftag_uuid1) (p.uuid).u1
    ∷ data8 (config_tag_byte cftag_publickey) p.publickey publickey_bytes
    ∷ data8 (config_tag_byte cftag_mynonce) p.mynonce nonce_bytes
    ∷ data8 (config_tag_byte cftag_nonce) p.nonce nonce_bytes
    ∷ []

-- `cfPairWrite` where the file can be opened: its bytes.
unfoldable pub cf_pair_write : Pairing → Outcome (List ℕ)
cf_pair_write p = do (str, i) ← perform_all (pair_calls p) (replicate pair_size 0) 0; ok str

-- What the cases of `cfPairRead` write to: the pairing, and `hasPairs` of the configuration.
pub record PairTarget : Type 0 where
  pub pair : Pairing
  pub has_pairs : ℕ

-- How many bytes a case of the `switch` copies; a tag with no case takes none.
unfoldable pub pair_field_size : ConfigTag → ℕ
pair_field_size cftag_publickey = publickey_bytes
pair_field_size cftag_nonce = nonce_bytes
pair_field_size cftag_mynonce = nonce_bytes
pair_field_size cftag_serial = 4
pair_field_size cftag_uuid0 = 16
pair_field_size cftag_uuid1 = 16
pair_field_size cftag_has_public_key = 1
pair_field_size cftag_has_nonce = 1
pair_field_size cftag_state = 1
pair_field_size _ = 0

-- What the case stores. A public key makes the pairing a paired one.
unfoldable pub store_pair_field : ConfigTag → List ℕ → Pairing → Pairing
store_pair_field cftag_publickey x p = record p { publickey = x; state = state_paired }
store_pair_field cftag_nonce x p = record p { nonce = x }
store_pair_field cftag_mynonce x p = record p { mynonce = x }
store_pair_field cftag_serial x p = record p { serial = of_be32 x }
store_pair_field cftag_uuid0 x p = record p { uuid = record (p.uuid) { u0 = x } }
store_pair_field cftag_uuid1 x p = record p { uuid = record (p.uuid) { u1 = x } }
store_pair_field cftag_has_public_key x p = record p {
  has_public_key = set_low_byte p.has_public_key x;
}
store_pair_field cftag_has_nonce x p = record p { has_nonce = set_low_byte p.has_nonce x }
store_pair_field cftag_state x p = record p {
  state = pair_state (set_low_byte (state_number p.state) x);
}
store_pair_field _ x p = p

unfoldable pub read_pair_tag :
    List ℕ → Option ConfigTag → Reader PairTarget → Outcome (Reader PairTarget)
read_pair_tag str (some cftag_header) r = ok (record r { i = r.i + 4 })
read_pair_tag str (some cftag_pair_length) r = set_filesize str r
read_pair_tag str (some cftag_pairs) r = copy_field 4 (λ x t. record t { has_pairs = 1 }) str r
read_pair_tag str (some tag) r =
    copy_field (pair_field_size tag) (λ x t. record t { pair = store_pair_field tag x t.pair }) str
      r
read_pair_tag str none r = ok r

-- `cfPairRead` where the file can be opened, on its bytes. A round reads a byte of the file at
-- least, so its length bounds the rounds. Last, the shared key is computed.
unfoldable pub cf_pair_read : Crypto → Config → Pairing → List ℕ → Outcome (Config × Pairing)
cf_pair_read c config pair str = do
  r ← tag_loop read_pair_tag (suc (length str)) str (record {
    target = record { pair = pair; has_pairs = config.has_pairs };
    i = 0;
    filesize = length str;
  })
  let p = (r.target).pair
  ok (
    record config { has_pairs = (r.target).has_pairs },
    record p { sharedkey = c.curve25519_donna config.privatekey p.publickey },
  )
