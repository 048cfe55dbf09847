-- ===== src/Packet/Decode/Opened.antt =====
-- The two sealed tags of `chatPacket_decode` (src/dpdChatPacket/dpdChatPacket.c) on what
-- `chatPacket_encode` sealed.
use dpd_chat_fabric.Prelude.{
  ℕ, ◌+◌, ◌-◌, ◌^◌, ◌<◌, ◌≡◌, refl, sym, ap, ◌∙◌, List, [], ◌∷◌, ◌++◌, suc, append-nil, take_all,
  length, ok, ◌>>=◌, read, read_at, some, sub32, arith, append_assoc, length-append,
}
use dpd_chat_fabric.Crypto.{Crypto, CryptoLaws}
use dpd_chat_fabric.Types.Tags.{packet_tag}
use dpd_chat_fabric.Types.Structs.{ChatPacket}
use dpd_chat_fabric.TagEncoder.{Call, data8}
use dpd_chat_fabric.TagEncoder.Fill.{bytes, bytes-append}
use dpd_chat_fabric.Packet.Decode.{
  DecodeEnv, Cursor, start, decode_header_tag, decode_loop, open_sealed,
}
use dpd_chat_fabric.Packet.Decode.Fields.{at, AllRead, decode_loop_after, open_round, continue}
use dpd_chat_fabric.Packet.Encode.Sealed.{sealed}

pub length-sealed :
    (c : Crypto) (key nonce plain : List ℕ)
    → CryptoLaws c
    → length (sealed c key nonce plain) ≡ length plain + 16
length-sealed c key nonce plain laws =
    let text : List ℕ = c.s20_crypt key nonce plain in
    omega (
      arith,
      length-append text (c.poly1305_auth text key),
      laws.crypt_length key nonce plain,
      laws.auth_length text key,
    )

-- What was sealed is opened again, under the same key and nonce.
pub open_sealed-sealed :
    (c : Crypto) (key nonce plain before after : List ℕ) (i n : ℕ)
    → CryptoLaws c
    → i ≡ length before
    → n ≡ length plain + 16
    → n < 2 ^ 32
    → open_sealed c key nonce (before ++ (sealed c key nonce plain ++ after)) i n ≡ ok (some plain)
unfolding open_sealed
open_sealed-sealed c key nonce plain before after i n laws ei en small =
    let same : length text ≡ length plain = laws.crypt_length key nonce plain in
    let sixteen : length mac ≡ 16 = laws.auth_length text key in
    rw
      (
        read_text (omega (arith, same)),
        read_mac (omega (arith, same, length-append before text)) sixteen,
        laws.verify_same mac,
        laws.crypt_twice key nonce plain,
      )
      refl
  where
    text : List ℕ
    text = c.s20_crypt key nonce plain

    mac : List ℕ
    mac = c.poly1305_auth text key

    read_text :
        sub32 n 16 ≡ length text
        → read (before ++ ((text ++ mac) ++ after)) i (sub32 n 16) ≡ ok text
    read_text e =
        ap (λ r. read (before ++ r) i (sub32 n 16)) (append_assoc text mac after)
        ∙ read_at before text (mac ++ after) i (sub32 n 16) ei e

    read_mac :
        i + n - 16 ≡ length (before ++ text)
        → length mac ≡ 16
        → read (before ++ ((text ++ mac) ++ after)) (i + n - 16) 16 ≡ ok mac
    read_mac e k =
        ap (λ b. read b (i + n - 16) 16)
          (ap (λ r. before ++ r) (append_assoc text mac after)
            ∙ sym (append_assoc before text (mac ++ after)))
        ∙ read_at (before ++ text) mac after (i + n - 16) 16 e (sym k)

-- The last call of a message, on a list of its own.
message_tail :
    (cs : List Call) (tag : ℕ) (x after : List ℕ)
    → bytes (cs ++ data8 tag x (length x) ∷ []) ++ after ≡ (bytes cs ++ (tag ∷ [])) ++ (x ++ after)
unfolding bytes
message_tail cs tag x after =
    rw (bytes-append cs (data8 tag x (length x) ∷ []), take_all (length x) x refl, append-nil x)
      (append_assoc (bytes cs) (tag ∷ x) after
        ∙ sym (append_assoc (bytes cs) (tag ∷ []) (x ++ after)))

pub length-message :
    (cs : List Call) (tag : ℕ) (x : List ℕ)
    → length (bytes (cs ++ data8 tag x (length x) ∷ [])) ≡ length (bytes cs) + (1 + length x)
unfolding bytes
length-message cs tag x =
    rw (bytes-append cs (data8 tag x (length x) ∷ []), take_all (length x) x refl, append-nil x)
      (omega (arith, length-append (bytes cs) (tag ∷ x)))

-- A message of calls that are read back and one more: after them the loop is at the tag of the last.
pub decode_loop_last :
    (env : DecodeEnv) (cs : List Call) (tag : ℕ) (x after : List ℕ) (cp : ChatPacket) (s' : Cursor)
    (fuel rest n : ℕ)
    → n ≡ length (bytes (cs ++ data8 tag x (length x) ∷ []))
    → AllRead env n cs (start cp) s'
    → fuel ≡ length cs + suc rest
    → decode_loop env fuel (bytes (cs ++ data8 tag x (length x) ∷ []) ++ after) n (start cp) ≡ (
        decode_header_tag env
          (λ d m q. decode_loop env rest d m (start q))
          ((bytes cs ++ (tag ∷ [])) ++ (x ++ after))
          (packet_tag tag)
          (at s' (length (bytes cs) + 1))
        >>= continue (decode_loop env rest ((bytes cs ++ (tag ∷ [])) ++ (x ++ after)) n))
decode_loop_last env cs tag x after cp s' fuel rest n en r ef =
    ap (λ b. decode_loop env fuel b n (start cp))
      (message_tail cs tag x after ∙ append_assoc (bytes cs) (tag ∷ []) (x ++ after))
    ∙ (decode_loop_after env n cp s' r (tag ∷ (x ++ after)) fuel (suc rest) ef
          (omega (arith, length-message cs tag x))
        ∙ (open_round env rest n tag (length (bytes cs)) (bytes cs) (x ++ after) s' refl
              (omega (arith, length-message cs tag x))
            ∙ ap
                (λ b.
                  decode_header_tag env (λ d m q. decode_loop env rest d m (start q)) b
                    (packet_tag tag) (at s' (length (bytes cs) + 1))
                  >>= continue (decode_loop env rest b n))
                (sym (append_assoc (bytes cs) (tag ∷ []) (x ++ after)))))
