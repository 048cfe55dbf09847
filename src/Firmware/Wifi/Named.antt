-- ===== src/Firmware/Wifi/Named.antt =====
-- The access point of the firmware (src/esp8266/espChatFabric/esp-cf-wifi.c).
use dpd_chat_fabric.Prelude.{
  ℕ, ◌≤◌, ◌≡◌, refl, ◌==◌, List, ◌++◌, length, length-append, length-drop, take, take-append, drop,
  calloc, length-calloc, ok, write, write_front, if◌then◌else◌, inl, inr, Bool-cases, arith,
}
use dpd_chat_fabric.Types.Structs.{Config}
use dpd_chat_fabric.Firmware.Globals.{Sdk, SoftapConfig}
use dpd_chat_fabric.Firmware.Wifi.{string_in, softap_config}

-- The name that an access point announces.
unfoldable pub announced : List ℕ → List ℕ → List ℕ
announced hostname network = if length network == 0 then hostname else network

-- The strings of a configuration end within their arrays, and fit the SDK's.
pub record AreNames (config : Config) (hostname network passwd : List ℕ) : Type 0 where
  pub hostname_ends : string_in config.hostname ≡ ok hostname
  pub network_ends : string_in config.wifi_ap_ssid ≡ ok network
  pub passwd_ends : string_in config.wifi_ap_passwd ≡ ok passwd
  pub hostname_fits : length hostname ≤ 32
  pub network_fits : length network ≤ 32
  pub passwd_fits : length passwd ≤ 64

-- An array of n zeros that a string is copied into.
filled : ℕ → List ℕ → List ℕ
filled n s = s ++ drop (length s) (calloc n)

write_filled : (n : ℕ) (s : List ℕ) → length s ≤ n → write (calloc n) 0 s ≡ ok (filled n s)
unfolding filled
write_filled n s h = write_front (calloc n) s (omega (arith, length-calloc n))

length-filled : (n : ℕ) (s : List ℕ) → length s ≤ n → length (filled n s) ≡ n
unfolding filled
length-filled n s h = omega (
  arith,
  length-append s (drop (length s) (calloc n)),
  length-drop (length s) (calloc n),
  length-calloc n,
)

take-filled : (n : ℕ) (s : List ℕ) → take (length s) (filled n s) ≡ s
unfolding filled
take-filled n s = take-append s (drop (length s) (calloc n))

-- If the strings of the configuration fit, the access point that is set up announces the name of the
-- network, or the name of the host where the network has none, and its password begins with the
-- configured one.
pub softap_config-announced :
    (sdk : Sdk) (config : Config) (hostname network passwd : List ℕ)
    → AreNames config hostname network passwd
    → (made : SoftapConfig) × (softap_config sdk config ≡ ok made)
      × (take made.ssid_len made.ssid ≡ announced hostname network)
      × (take (length passwd) made.password ≡ passwd)
unfolding softap_config announced
softap_config-announced sdk config hostname network passwd w =
    elim (Bool-cases (length network == 0)) [
      | inl e ↦ (
        made (filled 32 hostname) (length hostname),
        rw
            (
              w.hostname_ends,
              write_filled 32 hostname w.hostname_fits,
              w.network_ends,
              e,
              w.passwd_ends,
              write_filled 64 passwd w.passwd_fits,
            )
            refl,
        rw e (take-filled 32 hostname),
        take-filled 64 passwd,
      )
      | inr e ↦
          let old : List ℕ = filled 32 hostname in
          let over : write old 0 network ≡ ok (network ++ drop (length network) old) =
            write_front old network
              (omega (arith, length-filled 32 hostname w.hostname_fits, w.network_fits)) in
          (
            made (network ++ drop (length network) old) (length network),
            rw
                (
                  w.hostname_ends,
                  write_filled 32 hostname w.hostname_fits,
                  w.network_ends,
                  e,
                  over,
                  w.passwd_ends,
                  write_filled 64 passwd w.passwd_fits,
                )
                refl,
            rw e (take-append network (drop (length network) old)),
            take-filled 64 passwd,
          )
    ]
  where
    made : List ℕ → ℕ → SoftapConfig
    made ssid n = record {
      ssid = ssid;
      password = filled 64 passwd;
      ssid_len = n;
      authmode = sdk.auth_wpa2_psk;
      ssid_hidden = 0;
      max_connection = 4;
    }
