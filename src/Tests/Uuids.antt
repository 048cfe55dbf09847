-- ===== src/Tests/Uuids.antt =====
-- Uuids of a board (src/uuid/uuuid2.c).
use dpd_chat_fabric.Prelude.{ℕ, ◌<◌, ◌≡◌, ◌≢◌, refl, [], ◌∷◌, be32, of_be32, arith}
use dpd_chat_fabric.Generator.{
  Hwaddr, Generator, Readings, random_byte, read_hwaddr, read_sec, first_frac, next_variables,
  uuid_bytes, uuid_gen, generations, uuid_gen-generations,
}

abbrev station : Hwaddr
station = record { h0 = 24; h1 = 254; h2 = 52; h3 = 1; h4 = 2; h5 = 3 }

abbrev unread : Hwaddr
unread = record { h0 = 0; h1 = 0; h2 = 0; h3 = 0; h4 = 0; h5 = 0 }

abbrev readings : ℕ → Readings
readings time = record {
  macaddr = station;
  ntp_unix_timestamp = time;
  system_time = 1000;
  random_time = 5;
  random0 = 255;
  random1 = 2;
  random2 = 3;
  random3 = 4;
}

abbrev started : Generator
started = record { sec = 0; frac = 0; hwaddr = unread }

-- The first uuid of a board that knows the time: the random byte 255 counts as 0.
uuid_gen-started :
    uuid_gen (readings 1475815202) started
    ≡ 0 ∷ 0 ∷ 87 ∷ 247 ∷ 39 ∷ 34 ∷ 4 ∷ 3 ∷ 5 ∷ 232 ∷ 24 ∷ 254 ∷ 52 ∷ 1 ∷ 2 ∷ 3 ∷ []
unfolding uuid_gen uuid_bytes next_variables read_hwaddr read_sec first_frac random_byte be32
    of_be32
uuid_gen-started = refl

some_frac : 0 < (next_variables (readings 0) started).frac
unfolding next_variables first_frac random_byte of_be32
some_frac = omega arith

uuid_gen-generations_example :
    uuid_gen (readings 0) started
    ≢ uuid_gen (readings 0) (generations (readings 0 ∷ []) (next_variables (readings 0) started))
uuid_gen-generations_example =
    uuid_gen-generations (readings 0) (readings 0 ∷ []) (readings 0) started some_frac (omega arith)
