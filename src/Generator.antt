-- ===== src/Generator.antt =====
-- `uuuid2_gen` of src/uuid/uuuid2.c for the ESP8266, in the build that has the time of the network.
use dpd_chat_fabric.Prelude.{
  ℕ, suc, ◌+◌, ◌-◌, ◌/◌, ◌%◌, ◌^◌, ◌<◌, ◌≡◌, ◌≢◌, ap, ◌∙◌, List, [], ◌∷◌, ◌++◌, length, take, drop,
  be32, of_be32, of_be32-be32, u32, arith, ◌==◌, if◌then◌else◌,
}
use dpd_chat_fabric.Types.Structs.{Uuid}

-- The six bytes of a hardware address.
pub record Hwaddr : Type 0 where
  pub h0 : ℕ
  pub h1 : ℕ
  pub h2 : ℕ
  pub h3 : ℕ
  pub h4 : ℕ
  pub h5 : ℕ

-- The variables of the file: `sec`, `frac` and `hwaddr`.
pub record Generator : Type 0 where
  pub sec : ℕ
  pub frac : ℕ
  pub hwaddr : Hwaddr

-- What one call reads from the board: the address of the station, the time of the network (zero before
-- it is known), the time since the start, and the random words, one for the time and four for the
-- fraction.
pub record Readings : Type 0 where
  pub macaddr : Hwaddr
  pub ntp_unix_timestamp : ℕ
  pub system_time : ℕ
  pub random_time : ℕ
  pub random0 : ℕ
  pub random1 : ℕ
  pub random2 : ℕ
  pub random3 : ℕ

abbrev pub static_time : ℕ
static_time = 1475815201

-- `(unsigned char)os_random() % 255`.
unfoldable pub random_byte : ℕ → ℕ
random_byte word = word % 256 % 255

unfoldable pub read_hwaddr : Readings → Generator → Hwaddr
read_hwaddr r g = if (g.hwaddr).h0 == 0 then r.macaddr else g.hwaddr

unfoldable pub read_sec : Readings → ℕ
read_sec r =
    if r.ntp_unix_timestamp == 0 then u32 (static_time + r.random_time) else r.ntp_unix_timestamp

-- The first fraction: four random bytes, the lowest first, and the time since the start.
unfoldable pub first_frac : Readings → ℕ
first_frac r = u32 (
    of_be32 (
      random_byte r.random3
      ∷ random_byte r.random2
      ∷ random_byte r.random1
      ∷ random_byte r.random0
      ∷ [])
    + r.system_time)

-- The next fraction: one more, and not zero after the largest word.
unfoldable pub next_frac : ℕ → ℕ
next_frac frac = if u32 (frac + 1) == 0 then 1 else u32 (frac + 1)

unfoldable pub next_variables : Readings → Generator → Generator
next_variables r g = record {
  sec = read_sec r;
  frac = if g.frac == 0 then first_frac r else next_frac g.frac;
  hwaddr = read_hwaddr r g;
}

-- Bytes 0 to 5 are the low bytes of the time, the highest first, bytes 6 to 9 the fraction, and the
-- last six the address.
unfoldable pub uuid_bytes : Generator → Uuid
uuid_bytes g =
    let a = g.hwaddr in
    (g.sec / 2 ^ 40 % 256)
    ∷ (g.sec / 2 ^ 32 % 256)
    ∷ (be32 g.sec ++ (be32 g.frac ++ (a.h0 ∷ a.h1 ∷ a.h2 ∷ a.h3 ∷ a.h4 ∷ a.h5 ∷ [])))

-- The uuid of a call is that of the variables after it.
unfoldable pub uuid_gen : Readings → Generator → Uuid
uuid_gen r g = uuid_bytes (next_variables r g)

-- The variables after some calls.
unfoldable pub generations : List Readings → Generator → Generator
generations [] g = g
generations (r ∷ rs) g = generations rs (next_variables r g)

next_frac_lem : (f : ℕ) → 0 < f → f < 2 ^ 32 → next_frac f ≡ f % (2 ^ 32 - 1) + 1
unfolding next_frac
next_frac_lem f some_frac word = ground arith

next_variables-frac :
    (r : Readings) (g : Generator) → 0 < g.frac → (next_variables r g).frac ≡ next_frac g.frac
unfolding next_variables
next_variables-frac r g some_frac = ground arith

next_variables-word : (r : Readings) (g : Generator) → (next_variables r g).frac < 2 ^ 32
unfolding next_variables next_frac first_frac
next_variables-word r g = ground arith

generations-frac :
    (rs : List Readings) (g : Generator)
    → 0 < g.frac
    → g.frac < 2 ^ 32
    → (generations rs g).frac ≡ (g.frac - 1 + length rs) % (2 ^ 32 - 1) + 1
unfolding generations
generations-frac [] g some_frac word = omega arith
generations-frac (r ∷ rs) g some_frac word =
    let e : (next_variables r g).frac ≡ g.frac % (2 ^ 32 - 1) + 1 =
      next_variables-frac r g some_frac ∙ next_frac_lem g.frac some_frac word in
    let ih = generations-frac rs (next_variables r g) (omega arith) (omega arith) in omega arith

-- The fraction in a uuid.
abbrev frac_of : Uuid → ℕ
frac_of u = of_be32 (take 4 (drop 6 u))

frac_of-uuid_bytes : (g : Generator) → g.frac < 2 ^ 32 → frac_of (uuid_bytes g) ≡ g.frac
unfolding uuid_bytes be32
frac_of-uuid_bytes g word = of_be32-be32 g.frac word

-- The uuid of a call is not that of any of the next 2 ^ 32 - 2 calls, whatever the board's clock, network and
-- random numbers give, if the call left a fraction that is not zero.
pub uuid_gen-generations :
    (r : Readings) (rs : List Readings) (r' : Readings) (g : Generator)
    → 0 < (next_variables r g).frac
    → suc (length rs) < 2 ^ 32 - 1
    → uuid_gen r g ≢ uuid_gen r' (generations rs (next_variables r g))
unfolding uuid_gen
uuid_gen-generations r rs r' g some_frac few same =
    let a : Generator = next_variables r g in
    let word = next_variables-word r g in
    let b : Generator = generations rs a in
    let e = generations-frac rs a some_frac word in
    let f : (next_variables r' b).frac ≡ b.frac % (2 ^ 32 - 1) + 1 =
      next_variables-frac r' b (omega arith) ∙ next_frac_lem b.frac (omega arith) (omega arith) in
    let x = frac_of-uuid_bytes a word in
    let y = frac_of-uuid_bytes (next_variables r' b) (omega arith) in
    let z = ap frac_of same in omega arith
