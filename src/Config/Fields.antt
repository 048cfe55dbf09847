-- ===== src/Config/Fields.antt =====
-- How the loop of `_cfConfigRead` reads each field that `cfConfigWrite` wrote
-- (src/dpdChatFabric/cfConfig.c).
use dpd_chat_fabric.Prelude.{
  ℕ, ◌+◌, ◌^◌, ◌≤◌, ◌<◌, ◌≡◌, refl, sym, ap, ◌∙◌, List, [], ◌∷◌, ◌++◌, length, take, replicate, ok,
  arith, length-take, be32, of_be32,
}
use dpd_chat_fabric.Types.Tags.{
  ConfigTag, config_tag, config_tag_byte, cftag_has_pairs, cftag_debug, cftag_mode, cftag_wifi_ap,
  cftag_wifi_ap_dhcps, cftag_wifi_sta, cftag_wifi_sta_dhcpc, cftag_dhcps_range_low,
  cftag_dhcps_range_high, cftag_sta_ipv4, cftag_sta_ipv4netmask, cftag_sta_ipv4gw,
  cftag_sta_ipv4ns1, cftag_sta_ipv4ns2, cftag_sta_ntpv4, cftag_ap_ipv4, cftag_ap_ipv4netmask,
  cftag_ap_ipv4gw, cftag_ap_ipv4ns1, cftag_ap_ipv4ns2, cftag_uuid0, cftag_uuid1, cftag_sta_ipv6,
  cftag_sta_ipv6netmask, cftag_sta_ipv6gw, cftag_sta_ipv6ns1, cftag_sta_ipv6ns2, cftag_sta_ntpv6,
  cftag_ap_ipv6, cftag_ap_ipv6netmask, cftag_ap_ipv6gw, cftag_ap_ipv6ns1, cftag_ap_ipv6ns2,
  cftag_hostname, cftag_wifi_ap_ssid, cftag_wifi_ap_passwd, cftag_wifi_sta_ssid,
  cftag_wifi_sta_passwd, cftag_header, cftag_publickey, cftag_privatekey,
}
use dpd_chat_fabric.Types.Structs.{Config}
use dpd_chat_fabric.TagEncoder.{Call, int32, data8, uuid}
use dpd_chat_fabric.TagEncoder.Fill.{bytes, body, tag_of}
use dpd_chat_fabric.TagReader.{Reader, copy_field}
use dpd_chat_fabric.TagReader.Laws.{
  Reads, AllRead, none_left, one_more, copy_field-Reads, AllRead-append, AllRead-zeros, zero_byte,
}
use dpd_chat_fabric.Config.{
  config_words, key_calls, overwrite, config_field_size, store_config_field, read_config_tag,
}

-- The arrays have their sizes, the numbers are words.
pub record IsStorable (c : Config) : Type 0 where
  pub has_pairs_word : c.has_pairs < 2 ^ 32
  pub debug_word : c.debug < 2 ^ 32
  pub mode_word : c.mode < 2 ^ 32
  pub wifi_ap_switch_word : c.wifi_ap_switch < 2 ^ 32
  pub wifi_ap_dhcps_switch_word : c.wifi_ap_dhcps_switch < 2 ^ 32
  pub wifi_sta_switch_word : c.wifi_sta_switch < 2 ^ 32
  pub dhcp_client_switch_word : c.dhcp_client_switch < 2 ^ 32
  pub dhcps_range_low_word : c.dhcps_range_low < 2 ^ 32
  pub dhcps_range_high_word : c.dhcps_range_high < 2 ^ 32
  pub sta_ipv4_word : c.sta_ipv4 < 2 ^ 32
  pub sta_ipv4netmask_word : c.sta_ipv4netmask < 2 ^ 32
  pub sta_ipv4gw_word : c.sta_ipv4gw < 2 ^ 32
  pub sta_ipv4ns1_word : c.sta_ipv4ns1 < 2 ^ 32
  pub sta_ipv4ns2_word : c.sta_ipv4ns2 < 2 ^ 32
  pub ntpv4_word : c.ntpv4 < 2 ^ 32
  pub ap_ipv4_word : c.ap_ipv4 < 2 ^ 32
  pub ap_ipv4netmask_word : c.ap_ipv4netmask < 2 ^ 32
  pub ap_ipv4gw_word : c.ap_ipv4gw < 2 ^ 32
  pub ap_ipv4ns1_word : c.ap_ipv4ns1 < 2 ^ 32
  pub ap_ipv4ns2_word : c.ap_ipv4ns2 < 2 ^ 32
  pub u0_size : length (c.uuid).u0 ≡ 16
  pub u1_size : length (c.uuid).u1 ≡ 16
  pub sta_ipv6_size : length c.sta_ipv6 ≡ 16
  pub sta_ipv6netmask_size : length c.sta_ipv6netmask ≡ 16
  pub sta_ipv6gw_size : length c.sta_ipv6gw ≡ 16
  pub ap_ipv6ns1_size : length c.ap_ipv6ns1 ≡ 16
  pub ap_ipv6ns2_size : length c.ap_ipv6ns2 ≡ 16
  pub hostname_size : 32 ≤ length c.hostname
  pub wifi_ap_ssid_size : 32 ≤ length c.wifi_ap_ssid
  pub wifi_ap_passwd_size : 64 ≤ length c.wifi_ap_passwd
  pub wifi_sta_ssid_size : 32 ≤ length c.wifi_sta_ssid
  pub wifi_sta_passwd_size : 64 ≤ length c.wifi_sta_passwd
  pub publickey_size : length c.publickey ≡ 32
  pub privatekey_size : length c.privatekey ≡ 32

-- The six fields that are written and have no case in the reader are zero.
pub record IsBlank (c : Config) : Type 0 where
  pub sta_ipv6ns1_blank : c.sta_ipv6ns1 ≡ replicate 16 0
  pub sta_ipv6ns2_blank : c.sta_ipv6ns2 ≡ replicate 16 0
  pub ntpv6_blank : c.ntpv6 ≡ replicate 16 0
  pub ap_ipv6_blank : c.ap_ipv6 ≡ replicate 16 0
  pub ap_ipv6netmask_blank : c.ap_ipv6netmask ≡ replicate 16 0
  pub ap_ipv6gw_blank : c.ap_ipv6gw ≡ replicate 16 0

abbrev ConfigReads : ℕ → Call → (Config → Config) → Type 0
ConfigReads = Reads read_config_tag

-- A case that copies.
copies :
    (n : ℕ) (c : Call) (tag : ConfigTag)
    → ((str : List ℕ) (r : Reader Config)
        → read_config_tag str (config_tag (tag_of c)) r
          ≡ copy_field (config_field_size tag) (store_config_field tag) str r)
    → config_field_size tag ≡ length (body c)
    → ConfigReads n c (store_config_field tag (body c))
copies n c tag at size =
    copy_field-Reads read_config_tag n c (config_field_size tag) (store_config_field tag) at size

header_Reads : (n : ℕ) → ConfigReads n (int32 (config_tag_byte cftag_header) 0) (λ c. c)
unfolding read_config_tag config_tag config_tag_byte be32
header_Reads n before after t i ei = refl

zero_Reads : (n : ℕ) → ConfigReads n zero_byte (λ c. c)
unfolding read_config_tag config_tag
zero_Reads n before after t i ei =
    ap (λ k. ok (record { target = t; i = k; filesize = n })) {x = i} (omega arith)

abbrev pub with_words : Config → Config → Config
with_words c old = record old {
  has_pairs = of_be32 (be32 c.has_pairs);
  debug = of_be32 (be32 c.debug);
  mode = of_be32 (be32 c.mode);
  wifi_ap_switch = of_be32 (be32 c.wifi_ap_switch);
  wifi_ap_dhcps_switch = of_be32 (be32 c.wifi_ap_dhcps_switch);
  wifi_sta_switch = of_be32 (be32 c.wifi_sta_switch);
  dhcp_client_switch = of_be32 (be32 c.dhcp_client_switch);
  dhcps_range_low = of_be32 (be32 c.dhcps_range_low);
  dhcps_range_high = of_be32 (be32 c.dhcps_range_high);
  sta_ipv4 = of_be32 (be32 c.sta_ipv4);
  sta_ipv4netmask = of_be32 (be32 c.sta_ipv4netmask);
  sta_ipv4gw = of_be32 (be32 c.sta_ipv4gw);
  sta_ipv4ns1 = of_be32 (be32 c.sta_ipv4ns1);
  sta_ipv4ns2 = of_be32 (be32 c.sta_ipv4ns2);
  ntpv4 = of_be32 (be32 c.ntpv4);
  ap_ipv4 = of_be32 (be32 c.ap_ipv4);
  ap_ipv4netmask = of_be32 (be32 c.ap_ipv4netmask);
  ap_ipv4gw = of_be32 (be32 c.ap_ipv4gw);
  ap_ipv4ns1 = of_be32 (be32 c.ap_ipv4ns1);
  ap_ipv4ns2 = of_be32 (be32 c.ap_ipv4ns2);
  uuid = record { u0 = take 16 (c.uuid).u0; u1 = take 16 (c.uuid).u1 };
}

words_AllRead :
    (n : ℕ) (c : Config) → IsStorable c → AllRead read_config_tag n (config_words c) (with_words c)
unfolding config_words read_config_tag config_tag config_tag_byte config_field_size
    store_config_field be32
words_AllRead n c s =
    (one_more _ _ (header_Reads n) (
      one_more _ _
        (copies n (int32 (config_tag_byte cftag_has_pairs) c.has_pairs) cftag_has_pairs
          (λ str r. refl) refl)
        (one_more _ _
          (copies n (int32 (config_tag_byte cftag_debug) c.debug) cftag_debug (λ str r. refl) refl)
          (one_more _ _
            (copies n (uuid (config_tag_byte cftag_uuid0) (c.uuid).u0) cftag_uuid0 (λ str r. refl)
              (sym (length-take 16 (c.uuid).u0 (omega (arith, s.u0_size)))))
            (one_more _ _
              (copies n (uuid (config_tag_byte cftag_uuid1) (c.uuid).u1) cftag_uuid1 (λ str r. refl)
                (sym (length-take 16 (c.uuid).u1 (omega (arith, s.u1_size)))))
              (one_more _ _
                (copies n (int32 (config_tag_byte cftag_mode) c.mode) cftag_mode (λ str r. refl)
                  refl)
                (one_more _ _
                  (copies n (int32 (config_tag_byte cftag_wifi_ap) c.wifi_ap_switch) cftag_wifi_ap
                    (λ str r. refl) refl)
                  (one_more _ _
                    (copies n (int32 (config_tag_byte cftag_wifi_ap_dhcps) c.wifi_ap_dhcps_switch)
                      cftag_wifi_ap_dhcps (λ str r. refl) refl)
                    (one_more _ _
                      (copies n (int32 (config_tag_byte cftag_wifi_sta) c.wifi_sta_switch)
                        cftag_wifi_sta (λ str r. refl) refl)
                      (one_more _ _
                        (copies n
                          (int32 (config_tag_byte cftag_wifi_sta_dhcpc) c.dhcp_client_switch)
                          cftag_wifi_sta_dhcpc (λ str r. refl) refl)
                        (one_more _ _
                          (copies n
                            (int32 (config_tag_byte cftag_dhcps_range_low) c.dhcps_range_low)
                            cftag_dhcps_range_low (λ str r. refl) refl)
                          (one_more _ _
                            (copies n
                              (int32 (config_tag_byte cftag_dhcps_range_high) c.dhcps_range_high)
                              cftag_dhcps_range_high (λ str r. refl) refl)
                            (one_more _ _
                              (copies n (int32 (config_tag_byte cftag_sta_ipv4) c.sta_ipv4)
                                cftag_sta_ipv4 (λ str r. refl) refl)
                              (one_more _ _
                                (copies n
                                  (int32 (config_tag_byte cftag_sta_ipv4netmask) c.sta_ipv4netmask)
                                  cftag_sta_ipv4netmask (λ str r. refl) refl)
                                (one_more _ _
                                  (copies n (int32 (config_tag_byte cftag_sta_ipv4gw) c.sta_ipv4gw)
                                    cftag_sta_ipv4gw (λ str r. refl) refl)
                                  (one_more _ _
                                    (copies n
                                      (int32 (config_tag_byte cftag_sta_ipv4ns1) c.sta_ipv4ns1)
                                      cftag_sta_ipv4ns1 (λ str r. refl) refl)
                                    (one_more _ _
                                      (copies n
                                        (int32 (config_tag_byte cftag_sta_ipv4ns2) c.sta_ipv4ns2)
                                        cftag_sta_ipv4ns2 (λ str r. refl) refl)
                                      (one_more _ _
                                        (copies n (int32 (config_tag_byte cftag_sta_ntpv4) c.ntpv4)
                                          cftag_sta_ntpv4 (λ str r. refl) refl)
                                        (one_more _ _
                                          (copies n
                                            (int32 (config_tag_byte cftag_ap_ipv4) c.ap_ipv4)
                                            cftag_ap_ipv4 (λ str r. refl) refl)
                                          (one_more _ _
                                            (copies n
                                              (int32 (config_tag_byte cftag_ap_ipv4netmask)
                                                c.ap_ipv4netmask)
                                              cftag_ap_ipv4netmask (λ str r. refl) refl)
                                            (one_more _ _
                                              (copies n
                                                (int32 (config_tag_byte cftag_ap_ipv4gw)
                                                  c.ap_ipv4gw)
                                                cftag_ap_ipv4gw (λ str r. refl) refl)
                                              (one_more _ _
                                                (copies n
                                                  (int32 (config_tag_byte cftag_ap_ipv4ns1)
                                                    c.ap_ipv4ns1)
                                                  cftag_ap_ipv4ns1 (λ str r. refl) refl)
                                                (one_more _ _
                                                  (copies n
                                                    (int32 (config_tag_byte cftag_ap_ipv4ns2)
                                                      c.ap_ipv4ns2)
                                                    cftag_ap_ipv4ns2 (λ str r. refl) refl)
                                                  none_left)))))))))))))))))))))))

-- The arrays in three stretches: those with a case, the six without, and those with a case.
abbrev pub first_arrays : Config → List Call
first_arrays c =
    data8 (config_tag_byte cftag_sta_ipv6) c.sta_ipv6 16
    ∷ data8 (config_tag_byte cftag_sta_ipv6netmask) c.sta_ipv6netmask 16
    ∷ data8 (config_tag_byte cftag_sta_ipv6gw) c.sta_ipv6gw 16
    ∷ []

abbrev pub unread_arrays : Config → List Call
unread_arrays c =
    data8 (config_tag_byte cftag_sta_ipv6ns1) c.sta_ipv6ns1 16
    ∷ data8 (config_tag_byte cftag_sta_ipv6ns2) c.sta_ipv6ns2 16
    ∷ data8 (config_tag_byte cftag_sta_ntpv6) c.ntpv6 16
    ∷ data8 (config_tag_byte cftag_ap_ipv6) c.ap_ipv6 16
    ∷ data8 (config_tag_byte cftag_ap_ipv6netmask) c.ap_ipv6netmask 16
    ∷ data8 (config_tag_byte cftag_ap_ipv6gw) c.ap_ipv6gw 16
    ∷ []

abbrev pub last_arrays : Config → List Call
last_arrays c =
    data8 (config_tag_byte cftag_ap_ipv6ns1) c.ap_ipv6ns1 16
    ∷ data8 (config_tag_byte cftag_ap_ipv6ns2) c.ap_ipv6ns2 16
    ∷ data8 (config_tag_byte cftag_hostname) c.hostname 32
    ∷ data8 (config_tag_byte cftag_wifi_ap_ssid) c.wifi_ap_ssid 32
    ∷ data8 (config_tag_byte cftag_wifi_ap_passwd) c.wifi_ap_passwd 64
    ∷ data8 (config_tag_byte cftag_wifi_sta_ssid) c.wifi_sta_ssid 32
    ∷ data8 (config_tag_byte cftag_wifi_sta_passwd) c.wifi_sta_passwd 64
    ∷ []

-- A field with no case, as its tag and sixteen bytes with no tag.
abbrev pub blank : ConfigTag → List Call
blank t = data8 (config_tag_byte t) [] 0 ∷ replicate 16 zero_byte

abbrev pub blank_arrays : List Call
blank_arrays =
    blank cftag_sta_ipv6ns1
    ++ (blank cftag_sta_ipv6ns2
        ++ (blank cftag_sta_ntpv6
            ++ (blank cftag_ap_ipv6 ++ (blank cftag_ap_ipv6netmask ++ (blank cftag_ap_ipv6gw)))))

pub bytes-unread_arrays : (c : Config) → IsBlank c → bytes (unread_arrays c) ≡ bytes blank_arrays
unfolding bytes
bytes-unread_arrays c z =
    rw
      (
        z.sta_ipv6ns1_blank, z.sta_ipv6ns2_blank, z.ntpv6_blank, z.ap_ipv6_blank,
        z.ap_ipv6netmask_blank, z.ap_ipv6gw_blank,
      )
      refl

abbrev pub with_first : Config → Config → Config
with_first c old = record old {
  sta_ipv6 = take 16 c.sta_ipv6;
  sta_ipv6netmask = take 16 c.sta_ipv6netmask;
  sta_ipv6gw = take 16 c.sta_ipv6gw;
}

first_AllRead :
    (n : ℕ) (c : Config) → IsStorable c → AllRead read_config_tag n (first_arrays c) (with_first c)
unfolding read_config_tag config_tag config_tag_byte config_field_size store_config_field
first_AllRead n c s =
    (one_more _ _
      (copies n (data8 (config_tag_byte cftag_sta_ipv6) c.sta_ipv6 16) cftag_sta_ipv6
        (λ str r. refl) (sym (length-take 16 c.sta_ipv6 (omega (arith, s.sta_ipv6_size)))))
      (one_more _ _
        (copies n (data8 (config_tag_byte cftag_sta_ipv6netmask) c.sta_ipv6netmask 16)
          cftag_sta_ipv6netmask (λ str r. refl)
          (sym (length-take 16 c.sta_ipv6netmask (omega (arith, s.sta_ipv6netmask_size)))))
        (one_more _ _
          (copies n (data8 (config_tag_byte cftag_sta_ipv6gw) c.sta_ipv6gw 16) cftag_sta_ipv6gw
            (λ str r. refl) (sym (length-take 16 c.sta_ipv6gw (omega (arith, s.sta_ipv6gw_size)))))
          none_left)))

abbrev pub with_last : Config → Config → Config
with_last c old = record old {
  ap_ipv6ns1 = take 16 c.ap_ipv6ns1;
  ap_ipv6ns2 = take 16 c.ap_ipv6ns2;
  hostname = overwrite old.hostname (take 32 c.hostname);
  wifi_ap_ssid = overwrite old.wifi_ap_ssid (take 32 c.wifi_ap_ssid);
  wifi_ap_passwd = overwrite old.wifi_ap_passwd (take 64 c.wifi_ap_passwd);
  wifi_sta_ssid = overwrite old.wifi_sta_ssid (take 32 c.wifi_sta_ssid);
  wifi_sta_passwd = overwrite old.wifi_sta_passwd (take 64 c.wifi_sta_passwd);
}

last_AllRead :
    (n : ℕ) (c : Config) → IsStorable c → AllRead read_config_tag n (last_arrays c) (with_last c)
unfolding read_config_tag config_tag config_tag_byte config_field_size store_config_field
last_AllRead n c s =
    (one_more _ _
      (copies n (data8 (config_tag_byte cftag_ap_ipv6ns1) c.ap_ipv6ns1 16) cftag_ap_ipv6ns1
        (λ str r. refl) (sym (length-take 16 c.ap_ipv6ns1 (omega (arith, s.ap_ipv6ns1_size)))))
      (one_more _ _
        (copies n (data8 (config_tag_byte cftag_ap_ipv6ns2) c.ap_ipv6ns2 16) cftag_ap_ipv6ns2
          (λ str r. refl) (sym (length-take 16 c.ap_ipv6ns2 (omega (arith, s.ap_ipv6ns2_size)))))
        (one_more _ _
          (copies n (data8 (config_tag_byte cftag_hostname) c.hostname 32) cftag_hostname
            (λ str r. refl) (sym (length-take 32 c.hostname (omega (arith, s.hostname_size)))))
          (one_more _ _
            (copies n (data8 (config_tag_byte cftag_wifi_ap_ssid) c.wifi_ap_ssid 32)
              cftag_wifi_ap_ssid (λ str r. refl)
              (sym (length-take 32 c.wifi_ap_ssid (omega (arith, s.wifi_ap_ssid_size)))))
            (one_more _ _
              (copies n (data8 (config_tag_byte cftag_wifi_ap_passwd) c.wifi_ap_passwd 64)
                cftag_wifi_ap_passwd (λ str r. refl)
                (sym (length-take 64 c.wifi_ap_passwd (omega (arith, s.wifi_ap_passwd_size)))))
              (one_more _ _
                (copies n (data8 (config_tag_byte cftag_wifi_sta_ssid) c.wifi_sta_ssid 32)
                  cftag_wifi_sta_ssid (λ str r. refl)
                  (sym (length-take 32 c.wifi_sta_ssid (omega (arith, s.wifi_sta_ssid_size)))))
                (one_more _ _
                  (copies n (data8 (config_tag_byte cftag_wifi_sta_passwd) c.wifi_sta_passwd 64)
                    cftag_wifi_sta_passwd (λ str r. refl)
                    (sym
                      (length-take 64 c.wifi_sta_passwd (omega (arith, s.wifi_sta_passwd_size)))))
                  none_left)))))))

blank-AllRead :
    (n : ℕ) (t : ConfigTag)
    → ((str : List ℕ) (r : Reader Config)
        → read_config_tag str (config_tag (config_tag_byte t)) r
          ≡ copy_field (config_field_size t) (store_config_field t) str r)
    → config_field_size t ≡ 0
    → ((c : Config) → store_config_field t [] c ≡ c)
    → AllRead read_config_tag n (blank t) (λ c. c)
blank-AllRead n t at size same =
    one_more (data8 (config_tag_byte t) [] 0) (λ c. c)
      (λ before after s i ei.
        copies n (data8 (config_tag_byte t) [] 0) t at size before after s i ei
        ∙ ap (λ c. ok (record { target = c; i = i + 0; filesize = n })) (same s))
      (AllRead-zeros read_config_tag n 16 (zero_Reads n))

blanks_AllRead : (n : ℕ) → AllRead read_config_tag n blank_arrays (λ c. c)
unfolding read_config_tag config_tag config_tag_byte config_field_size store_config_field
blanks_AllRead n =
    (AllRead-append read_config_tag n
      (blank-AllRead n cftag_sta_ipv6ns1 (λ str r. refl) refl (λ c. refl))
      (AllRead-append read_config_tag n
        (blank-AllRead n cftag_sta_ipv6ns2 (λ str r. refl) refl (λ c. refl))
        (AllRead-append read_config_tag n
          (blank-AllRead n cftag_sta_ntpv6 (λ str r. refl) refl (λ c. refl))
          (AllRead-append read_config_tag n
            (blank-AllRead n cftag_ap_ipv6 (λ str r. refl) refl (λ c. refl))
            (AllRead-append read_config_tag n
              (blank-AllRead n cftag_ap_ipv6netmask (λ str r. refl) refl (λ c. refl))
              (blank-AllRead n cftag_ap_ipv6gw (λ str r. refl) refl (λ c. refl)))))))

abbrev pub with_keys : Config → Config → Config
with_keys c old = record old { publickey = take 32 c.publickey; privatekey = take 32 c.privatekey }

keys_AllRead :
    (n : ℕ) (c : Config) → IsStorable c → AllRead read_config_tag n (key_calls c) (with_keys c)
unfolding key_calls read_config_tag config_tag config_tag_byte config_field_size store_config_field
keys_AllRead n c s =
    one_more _ _
      (copies n (data8 (config_tag_byte cftag_publickey) c.publickey 32) cftag_publickey
        (λ str r. refl) (sym (length-take 32 c.publickey (omega (arith, s.publickey_size)))))
      (one_more _ _
        (copies n (data8 (config_tag_byte cftag_privatekey) c.privatekey 32) cftag_privatekey
          (λ str r. refl) (sym (length-take 32 c.privatekey (omega (arith, s.privatekey_size)))))
        none_left)

-- The calls whose bytes are the file, but for its last byte.
abbrev pub file_calls : Config → List Call
file_calls c =
    config_words c
    ++ (first_arrays c
        ++ (blank_arrays ++ (last_arrays c ++ (replicate 5 zero_byte ++ key_calls c))))

abbrev pub read_over : Config → Config → Config
read_over c old = with_keys c (with_last c (with_first c (with_words c old)))

pub file_AllRead :
    (n : ℕ) (c : Config) → IsStorable c → AllRead read_config_tag n (file_calls c) (read_over c)
file_AllRead n c s = AllRead-append read_config_tag n (words_AllRead n c s) (
    AllRead-append read_config_tag n (first_AllRead n c s) (
      AllRead-append read_config_tag n (blanks_AllRead n) (
        AllRead-append read_config_tag n (last_AllRead n c s) (
          AllRead-append read_config_tag n (AllRead-zeros read_config_tag n 5 (zero_Reads n))
            (keys_AllRead n c s)))))
