-- ===== src/Config/RoundTrip.antt =====
-- `_cfConfigRead` reads back what `cfConfigWrite` wrote (src/dpdChatFabric/cfConfig.c).
use dpd_chat_fabric.Prelude.{
  ℕ, suc, ◌+◌, ◌-◌, ◌≡◌, refl, sym, ap, ◌∙◌, List, [], ◌∷◌, ◌++◌, length, take, lt→ltb, replicate,
  Outcome, ok, ◌>>=◌, arith, append_assoc, take_all, length-append, of_be32-be32, read_at,
}
use dpd_chat_fabric.Types.Tags.{config_tag, config_tag_byte}
use dpd_chat_fabric.Types.Structs.{Config}
use dpd_chat_fabric.TagEncoder.{Call}
use dpd_chat_fabric.TagEncoder.Fill.{
  bytes, AllReadable, perform_all_exact, perform_all_fill, length-bytes, bytes-append,
}
use dpd_chat_fabric.TagReader.{Reader, tag_loop}
use dpd_chat_fabric.TagReader.Laws.{tag_loop-bytes, tag_loop_end, zero_byte, length-le-bytes}
use dpd_chat_fabric.Config.Fields.{
  IsStorable, IsBlank, first_arrays, unread_arrays, last_arrays, blank_arrays, bytes-unread_arrays,
  file_calls, read_over, file_AllRead,
}
use dpd_chat_fabric.Config.{
  config_words, config_arrays, key_calls, create_config_string, create_key_string, cf_config_write,
  overwrite, read_config_tag, cf_config_read, config_size,
}

config_readable :
    (c : Config) → IsStorable c → IsBlank c → AllReadable (config_words c ++ config_arrays c)
unfolding config_words config_arrays
config_readable c s z =
    rw
      (
        z.sta_ipv6ns1_blank, z.sta_ipv6ns2_blank, z.ntpv6_blank, z.ap_ipv6_blank,
        z.ap_ipv6netmask_blank, z.ap_ipv6gw_blank,
      )
      (omega arith)

keys_readable : (c : Config) → IsStorable c → AllReadable (key_calls c)
unfolding key_calls
keys_readable c s = omega arith

-- The stretches of the file, joined as the program joins them and as they are read.
regroup :
    (w f u l b z k : List Call) (zeros end : List ℕ)
    → bytes u ≡ bytes b
    → bytes z ≡ zeros
    → (bytes (w ++ (f ++ (u ++ l))) ++ zeros) ++ (bytes k ++ end)
      ≡ bytes (w ++ (f ++ (b ++ (l ++ (z ++ k))))) ++ end
regroup w f u l b z k zeros end eu ez = simp (bytes-append, append_assoc, eu, ez)

config_bytes_size :
    (c : Config)
    → IsStorable c
    → IsBlank c
    → length (bytes (config_words c ++ config_arrays c)) ≡ 555
unfolding config_words config_arrays
config_bytes_size c s z =
    length-bytes _ (unfold config_words config_arrays in config_readable c s z)

-- The bytes of the file. Behind the fields stand five zeros, the room for a length that is not
-- written.
pub cf_config_write-bytes :
    (c : Config)
    → IsStorable c
    → IsBlank c
    → cf_config_write c ≡ ok (bytes (file_calls c) ++ (0xFA ∷ []))
unfolding cf_config_write create_config_string create_key_string config_arrays config_tag_byte
cf_config_write-bytes c s z =
    rw
      (perform_all_fill (config_words c ++ config_arrays c) config_size
        (omega (arith, config_bytes_size c s z)) (config_readable c s z))
      (rw (perform_all_exact (key_calls c) 66 (unfold key_calls in refl) (keys_readable c s)) (
        rw (config_bytes_size c s z) (
          ap ok (
            regroup (config_words c) (first_arrays c) (unread_arrays c) (last_arrays c) blank_arrays
              (replicate 5 zero_byte) (key_calls c) (replicate 5 0) (0xFA ∷ [])
              (bytes-unread_arrays c z) (unfold bytes in refl)))))

-- What is read over an old configuration: all of the new one, but the control list, the six fields
-- that have no case, and the last bytes of five arrays, which are not written.
abbrev pub reread : Config → Config → Config
reread c old = record c {
  controlers = old.controlers;
  num_of_controllers = old.num_of_controllers;
  sta_ipv6ns1 = old.sta_ipv6ns1;
  sta_ipv6ns2 = old.sta_ipv6ns2;
  ntpv6 = old.ntpv6;
  ap_ipv6 = old.ap_ipv6;
  ap_ipv6netmask = old.ap_ipv6netmask;
  ap_ipv6gw = old.ap_ipv6gw;
  hostname = overwrite old.hostname (take 32 c.hostname);
  wifi_ap_ssid = overwrite old.wifi_ap_ssid (take 32 c.wifi_ap_ssid);
  wifi_ap_passwd = overwrite old.wifi_ap_passwd (take 64 c.wifi_ap_passwd);
  wifi_sta_ssid = overwrite old.wifi_sta_ssid (take 32 c.wifi_sta_ssid);
  wifi_sta_passwd = overwrite old.wifi_sta_passwd (take 64 c.wifi_sta_passwd);
}

read_over-reread : (c old : Config) → IsStorable c → read_over c old ≡ reread c old
read_over-reread c old s = λ i. record (reread c old) {
  has_pairs = of_be32-be32 c.has_pairs s.has_pairs_word i;
  debug = of_be32-be32 c.debug s.debug_word i;
  mode = of_be32-be32 c.mode s.mode_word i;
  wifi_ap_switch = of_be32-be32 c.wifi_ap_switch s.wifi_ap_switch_word i;
  wifi_ap_dhcps_switch = of_be32-be32 c.wifi_ap_dhcps_switch s.wifi_ap_dhcps_switch_word i;
  wifi_sta_switch = of_be32-be32 c.wifi_sta_switch s.wifi_sta_switch_word i;
  dhcp_client_switch = of_be32-be32 c.dhcp_client_switch s.dhcp_client_switch_word i;
  dhcps_range_low = of_be32-be32 c.dhcps_range_low s.dhcps_range_low_word i;
  dhcps_range_high = of_be32-be32 c.dhcps_range_high s.dhcps_range_high_word i;
  sta_ipv4 = of_be32-be32 c.sta_ipv4 s.sta_ipv4_word i;
  sta_ipv4netmask = of_be32-be32 c.sta_ipv4netmask s.sta_ipv4netmask_word i;
  sta_ipv4gw = of_be32-be32 c.sta_ipv4gw s.sta_ipv4gw_word i;
  sta_ipv4ns1 = of_be32-be32 c.sta_ipv4ns1 s.sta_ipv4ns1_word i;
  sta_ipv4ns2 = of_be32-be32 c.sta_ipv4ns2 s.sta_ipv4ns2_word i;
  ntpv4 = of_be32-be32 c.ntpv4 s.ntpv4_word i;
  ap_ipv4 = of_be32-be32 c.ap_ipv4 s.ap_ipv4_word i;
  ap_ipv4netmask = of_be32-be32 c.ap_ipv4netmask s.ap_ipv4netmask_word i;
  ap_ipv4gw = of_be32-be32 c.ap_ipv4gw s.ap_ipv4gw_word i;
  ap_ipv4ns1 = of_be32-be32 c.ap_ipv4ns1 s.ap_ipv4ns1_word i;
  ap_ipv4ns2 = of_be32-be32 c.ap_ipv4ns2 s.ap_ipv4ns2_word i;
  uuid = record {
    u0 = take_all 16 (c.uuid).u0 (sym s.u0_size) i;
    u1 = take_all 16 (c.uuid).u1 (sym s.u1_size) i;
  };
  sta_ipv6 = take_all 16 c.sta_ipv6 (sym s.sta_ipv6_size) i;
  sta_ipv6netmask = take_all 16 c.sta_ipv6netmask (sym s.sta_ipv6netmask_size) i;
  sta_ipv6gw = take_all 16 c.sta_ipv6gw (sym s.sta_ipv6gw_size) i;
  ap_ipv6ns1 = take_all 16 c.ap_ipv6ns1 (sym s.ap_ipv6ns1_size) i;
  ap_ipv6ns2 = take_all 16 c.ap_ipv6ns2 (sym s.ap_ipv6ns2_size) i;
  publickey = take_all 32 c.publickey (sym s.publickey_size) i;
  privatekey = take_all 32 c.privatekey (sym s.privatekey_size) i;
}

-- The last round takes the end tag, which sets the size of the string to the index behind it.
eof_round :
    (before : List ℕ) (c : Config) (i fuel : ℕ)
    → i ≡ length before
    → tag_loop read_config_tag
        (suc (suc fuel))
        (before ++ (0xFA ∷ []))
        (record { target = c; i = i; filesize = i + 1 })
      ≡ ok (record { target = c; i = i + 1; filesize = i + 1 })
unfolding read_config_tag config_tag tag_loop
eof_round before c i fuel ei =
    rw (lt→ltb i (i + 1) (omega arith), tag_loop)
      (rw (read_at before (0xFA ∷ []) [] i 1 ei refl) (
        tag_loop_end read_config_tag fuel (before ++ (0xFA ∷ []))
          (record { target = c; i = i + 1; filesize = i + 1 }) (omega arith)))

-- The loop over the file.
file_tag_loop :
    (c old : Config)
    → IsStorable c
    → (n : ℕ) → n ≡ length (bytes (file_calls c))
    → tag_loop read_config_tag
        (suc (n + 1))
        (bytes (file_calls c) ++ (0xFA ∷ []))
        (record { target = old; i = 0; filesize = n + 1 })
      ≡ ok (record { target = read_over c old; i = n + 1; filesize = n + 1 })
file_tag_loop c old s n e =
    let le = length-le-bytes (file_calls c) in
    ap (λ k. run k (record { target = old; i = 0; filesize = n + 1 }))
      {y = length (file_calls c) + suc (suc (n - length (file_calls c)))} (omega arith)
    ∙ (tag_loop-bytes read_config_tag (n + 1) (file_AllRead (n + 1) c s) [] (0xFA ∷ []) old 0
          (suc (suc (n - length (file_calls c)))) refl (omega arith)
        ∙ (ap
              (λ k.
                run (suc (suc (n - length (file_calls c))))
                  (record { target = read_over c old; i = k; filesize = n + 1 }))
              {x = 0 + length (bytes (file_calls c))} {y = n} (omega arith)
            ∙ eof_round (bytes (file_calls c)) (read_over c old) n (n - length (file_calls c)) e))
  where
    run : ℕ → Reader Config → Outcome (Reader Config)
    run k r = tag_loop read_config_tag k (bytes (file_calls c) ++ (0xFA ∷ [])) r

-- What `cfConfigWrite` writes, `_cfConfigRead` reads back over any configuration: all fields that
-- have a case in the reader are restored, provided that the six fields without one are zero.
pub cf_config_read-cf_config_write :
    (c old : Config) (str : List ℕ)
    → IsStorable c
    → IsBlank c
    → cf_config_write c ≡ ok str
    → cf_config_read old str (length str) ≡ ok (reread c old)
unfolding cf_config_read
cf_config_read-cf_config_write c old str s z e =
    ap (λ b. cf_config_read old b (length b)) (written str (sym e ∙ cf_config_write-bytes c s z))
    ∙ (ap
          (λ n.
            tag_loop read_config_tag (suc n) (bytes (file_calls c) ++ (0xFA ∷ []))
              (record { target = old; i = 0; filesize = n })
            >>= λ r. ok r.target)
          (length-append (bytes (file_calls c)) (0xFA ∷ []))
        ∙ (ap (λ o. o >>= λ r. ok r.target)
              (file_tag_loop c old s (length (bytes (file_calls c))) refl)
            ∙ ap ok (read_over-reread c old s)))
  where
    written : {x : List ℕ} (y : List ℕ) → ok y ≡ ok x → y ≡ x
    written y p = cc

-- `cfConfigWrite` and then `cfConfigRead` of its file, for a configuration whose arrays have their
-- sizes, whose numbers are words, and whose six unread IPv6 fields are zero: neither leaves its
-- buffers, and what is read over an old configuration is the one that was written, but for the list
-- of controls and the unread fields, which stay as they were, and the last bytes of the five strings.
pub cf_config_reload :
    (c old : Config)
    → IsStorable c
    → IsBlank c
    → (cf_config_write c >>= λ str. cf_config_read old str (length str)) ≡ ok (reread c old)
cf_config_reload c old s z =
    rw (cf_config_write-bytes c s z)
      (cf_config_read-cf_config_write c old _ s z (cf_config_write-bytes c s z))
