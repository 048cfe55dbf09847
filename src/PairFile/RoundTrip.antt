-- ===== src/PairFile/RoundTrip.antt =====
-- `cfPairRead` reads back what `cfPairWrite` wrote (src/dpdChatFabric/cfPairConfig.c).
use dpd_chat_fabric.Prelude.{
  ℕ, suc, ◌^◌, ◌<◌, ◌≡◌, refl, sym, ap, ◌∙◌, List, length, take, Outcome, ok, ◌>>=◌, arith,
  take_all, length-take, be32, of_be32, of_be32-be32, read_at,
}
use dpd_chat_fabric.Types.Tags.{
  ConfigTag, config_tag, config_tag_byte, cftag_header, cftag_pairs, cftag_pair_length,
  cftag_has_public_key, cftag_has_nonce, cftag_state, cftag_serial, cftag_uuid0, cftag_uuid1,
  cftag_publickey, cftag_mynonce, cftag_nonce,
}
use dpd_chat_fabric.Types.Commands.{state_paired, state_number}
use dpd_chat_fabric.Types.Structs.{Pairing, Config}
use dpd_chat_fabric.Crypto.{Crypto}
use dpd_chat_fabric.TagEncoder.{Call, int32, data8, uuid}
use dpd_chat_fabric.TagEncoder.Fill.{
  bytes, body, tag_of, AllReadable, perform_all_exact, length-bytes,
}
use dpd_chat_fabric.TagReader.{Reader, tag_loop, copy_field, set_filesize}
use dpd_chat_fabric.TagReader.Laws.{
  Reads, AllRead, none_left, one_more, copy_field-Reads, tag_loop_all,
}
use dpd_chat_fabric.PairFile.{
  PairTarget, pair_calls, pair_size, pair_field_size, store_pair_field, read_pair_tag,
  cf_pair_write, cf_pair_read, le32, set_low_byte,
}

-- The arrays have their sizes, and the numbers fit where they are kept: the two flags in a byte.
pub record IsStorable (p : Pairing) : Type 0 where
  pub u0_size : length (p.uuid).u0 ≡ 16
  pub u1_size : length (p.uuid).u1 ≡ 16
  pub publickey_size : length p.publickey ≡ 32
  pub nonce_size : length p.nonce ≡ 8
  pub mynonce_size : length p.mynonce ≡ 8
  pub serial_word : p.serial < 2 ^ 32
  pub key_flag : p.has_public_key < 256
  pub nonce_flag : p.has_nonce < 256

readable : (p : Pairing) → IsStorable p → AllReadable (pair_calls p)
unfolding pair_calls
readable p s = omega arith

-- The buffer has the size that `cfPairWrite` computes, and is filled to its last byte.
pub cf_pair_write-bytes : (p : Pairing) → IsStorable p → cf_pair_write p ≡ ok (bytes (pair_calls p))
unfolding cf_pair_write
cf_pair_write-bytes p s =
    rw (perform_all_exact (pair_calls p) pair_size (unfold pair_calls in refl) (readable p s))

abbrev PairReads : Call → (PairTarget → PairTarget) → Type 0
PairReads = Reads read_pair_tag pair_size

-- A case that copies into the pairing.
copies :
    (c : Call) (tag : ConfigTag)
    → ((str : List ℕ) (r : Reader PairTarget)
        → read_pair_tag str (config_tag (tag_of c)) r
          ≡ copy_field
              (pair_field_size tag)
              (λ x t. record t { pair = store_pair_field tag x t.pair })
              str
              r)
    → pair_field_size tag ≡ length (body c)
    → PairReads c (λ t. record t { pair = store_pair_field tag (body c) t.pair })
copies c tag at size = copy_field-Reads read_pair_tag pair_size c (pair_field_size tag) _ at size

header_Reads : PairReads (int32 (config_tag_byte cftag_header) 0) (λ t. t)
unfolding read_pair_tag config_tag config_tag_byte be32
header_Reads before after t i ei = refl

pairs_Reads : PairReads (int32 (config_tag_byte cftag_pairs) 1) (λ t. record t { has_pairs = 1 })
unfolding read_pair_tag config_tag config_tag_byte be32
pairs_Reads =
    copy_field-Reads read_pair_tag pair_size (int32 (config_tag_byte cftag_pairs) 1) 4
      (λ x t. record t { has_pairs = 1 }) (λ str r. refl) refl

length_Reads : PairReads (int32 (config_tag_byte cftag_pair_length) pair_size) (λ t. t)
unfolding read_pair_tag config_tag config_tag_byte set_filesize of_be32
length_Reads before after t i ei =
    rw (read_at before (be32 pair_size) after i 4 ei (unfold be32 in refl)) (unfold be32 in refl)

abbrev restored_words : Pairing → Pairing → Pairing
restored_words p old = record old {
  has_public_key = set_low_byte old.has_public_key (take 1 (le32 p.has_public_key));
  has_nonce = set_low_byte old.has_nonce (take 1 (le32 p.has_nonce));
  serial = of_be32 (be32 p.serial);
  uuid = record { u0 = take 16 (p.uuid).u0; u1 = take 16 (p.uuid).u1 };
  publickey = take 32 p.publickey;
  state = state_paired;
  mynonce = take 8 p.mynonce;
  nonce = take 8 p.nonce;
}

all_read :
    (p : Pairing)
    → IsStorable p
    → AllRead read_pair_tag pair_size
        (pair_calls p)
        (λ t. record { pair = restored_words p t.pair; has_pairs = 1 })
unfolding pair_calls read_pair_tag config_tag config_tag_byte pair_field_size store_pair_field be32
all_read p s = one_more _ _ header_Reads (
    one_more _ _ pairs_Reads (
      one_more _ _ length_Reads (
        one_more _ _
          (copies (data8 (config_tag_byte cftag_has_public_key) (le32 p.has_public_key) 1)
            cftag_has_public_key (λ str r. refl) refl)
          (one_more _ _
            (copies (data8 (config_tag_byte cftag_has_nonce) (le32 p.has_nonce) 1) cftag_has_nonce
              (λ str r. refl) refl)
            (one_more _ _
              (copies (data8 (config_tag_byte cftag_state) (le32 (state_number p.state)) 1)
                cftag_state (λ str r. refl) refl)
              (one_more _ _
                (copies (int32 (config_tag_byte cftag_serial) p.serial) cftag_serial (λ str r. refl)
                  refl)
                (one_more _ _
                  (copies (uuid (config_tag_byte cftag_uuid0) (p.uuid).u0) cftag_uuid0
                    (λ str r. refl) (sym (length-take 16 (p.uuid).u0 (omega (arith, s.u0_size)))))
                  (one_more _ _
                    (copies (uuid (config_tag_byte cftag_uuid1) (p.uuid).u1) cftag_uuid1
                      (λ str r. refl) (sym (length-take 16 (p.uuid).u1 (omega (arith, s.u1_size)))))
                    (one_more _ _
                      (copies (data8 (config_tag_byte cftag_publickey) p.publickey 32)
                        cftag_publickey (λ str r. refl)
                        (sym (length-take 32 p.publickey (omega (arith, s.publickey_size)))))
                      (one_more _ _
                        (copies (data8 (config_tag_byte cftag_mynonce) p.mynonce 8) cftag_mynonce
                          (λ str r. refl)
                          (sym (length-take 8 p.mynonce (omega (arith, s.mynonce_size)))))
                        (one_more _ _
                          (copies (data8 (config_tag_byte cftag_nonce) p.nonce 8) cftag_nonce
                            (λ str r. refl)
                            (sym (length-take 8 p.nonce (omega (arith, s.nonce_size)))))
                          none_left)))))))))))

-- The pairing that is read over an old one.
abbrev pub restored : Crypto → Config → Pairing → Pairing → Pairing
restored c config p old = record old {
  has_public_key = p.has_public_key;
  has_nonce = p.has_nonce;
  serial = p.serial;
  state = state_paired;
  uuid = p.uuid;
  publickey = p.publickey;
  sharedkey = c.curve25519_donna config.privatekey p.publickey;
  nonce = p.nonce;
  mynonce = p.mynonce;
}

set_low_byte_lem : (v w : ℕ) → v < 256 → w < 256 → set_low_byte v (take 1 (le32 w)) ≡ w
set_low_byte_lem v w h k = omega arith

restored-restored_words :
    (c : Crypto) (config : Config) (p old : Pairing)
    → IsStorable p
    → old.has_public_key < 256
    → old.has_nonce < 256
    → record (restored_words p old) {
      sharedkey = c.curve25519_donna config.privatekey (take 32 p.publickey);
    }
      ≡ restored c config p old
restored-restored_words c config p old s h k = λ i. record old {
  has_public_key = set_low_byte_lem old.has_public_key p.has_public_key h s.key_flag i;
  has_nonce = set_low_byte_lem old.has_nonce p.has_nonce k s.nonce_flag i;
  serial = of_be32-be32 p.serial s.serial_word i;
  state = state_paired;
  uuid = record {
    u0 = take_all 16 (p.uuid).u0 (sym s.u0_size) i;
    u1 = take_all 16 (p.uuid).u1 (sym s.u1_size) i;
  };
  publickey = key i;
  sharedkey = c.curve25519_donna config.privatekey (key i);
  nonce = take_all 8 p.nonce (sym s.nonce_size) i;
  mynonce = take_all 8 p.mynonce (sym s.mynonce_size) i;
}
  where
    key : take 32 p.publickey ≡ p.publickey
    key = take_all 32 p.publickey (sym s.publickey_size)

pair_bytes_size : (p : Pairing) → IsStorable p → length (bytes (pair_calls p)) ≡ pair_size
pair_bytes_size p s = length-bytes (pair_calls p) (readable p s) ∙ (unfold pair_calls in refl)

-- What `cfPairWrite` writes, `cfPairRead` reads back over any pairing whose flags fit in a byte: all
-- that is stored is restored, the state is paired, the shared key is computed from the stored public
-- key, and the configuration learns that it has pairs.
pub cf_pair_read-cf_pair_write :
    (c : Crypto) (config : Config) (p old : Pairing) (str : List ℕ)
    → IsStorable p
    → old.has_public_key < 256
    → old.has_nonce < 256
    → cf_pair_write p ≡ ok str
    → cf_pair_read c config old str ≡ ok (record config { has_pairs = 1 }, restored c config p old)
unfolding cf_pair_read
cf_pair_read-cf_pair_write c config p old str s h k e =
    ap (λ b. cf_pair_read c config old b) (written str (sym e ∙ cf_pair_write-bytes p s))
    ∙ (ap
          (λ n.
            tag_loop read_pair_tag (suc n) (bytes (pair_calls p))
              (record { target = from; i = 0; filesize = n })
            >>= finish)
          (pair_bytes_size p s)
        ∙ (ap (λ o. o >>= finish)
              (tag_loop_all read_pair_tag pair_size (all_read p s) from (pair_bytes_size p s))
            ∙ ap (λ q. ok (record config { has_pairs = 1 }, q))
                (restored-restored_words c config p old s h k)))
  where
    from : PairTarget
    from = record { pair = old; has_pairs = config.has_pairs }

    finish : Reader PairTarget → Outcome (Config × Pairing)
    finish r = ok (
      record config { has_pairs = (r.target).has_pairs },
      record ((r.target).pair) {
        sharedkey = c.curve25519_donna config.privatekey ((r.target).pair).publickey;
      },
    )

    written : {x : List ℕ} (y : List ℕ) → ok y ≡ ok x → y ≡ x
    written y p = cc

-- `cfPairWrite` and then `cfPairRead` of its file, for a pairing whose fields have their sizes: neither
-- leaves its buffers, and the pairing that is read over an old one is paired, has the uuids, keys,
-- nonces, flags and serial that were written, and the shared key is made anew.
pub cf_pair_reload :
    (c : Crypto) (config : Config) (p old : Pairing)
    → IsStorable p
    → old.has_public_key < 256
    → old.has_nonce < 256
    → (cf_pair_write p >>= λ str. cf_pair_read c config old str)
      ≡ ok (record config { has_pairs = 1 }, restored c config p old)
cf_pair_reload c config p old s h k =
    rw (cf_pair_write-bytes p s)
      (cf_pair_read-cf_pair_write c config p old _ s h k (cf_pair_write-bytes p s))
