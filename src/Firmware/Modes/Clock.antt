-- ===== src/Firmware/Modes/Clock.antt =====
-- How fast the clock of the firmware runs (src/esp8266/user/user_main.c).
use dpd_chat_fabric.Prelude.{
  ℕ, suc, zero, ◌+◌, ◌-◌, ◌*◌, ◌/◌, ◌<◌, ◌≡◌, refl, ap, ◌∙◌, Outcome, ok, arith,
}
use dpd_chat_fabric.Firmware.Globals.{Globals}
use dpd_chat_fabric.Firmware.Modes.{clock_loop, ticks}

-- The globals after the clock has been moved.
abbrev at_time : ℕ → ℕ → Globals → Globals
at_time stamp seconds g = record g { ntp_unix_timestamp = stamp; seconds_since_boot = seconds }

-- How many of n ticks from tick s on are counted: those whose number is no multiple of ten.
abbrev counted : ℕ → ℕ → ℕ
counted s n = n + (s + 9) / 10 - (s + 9 + n) / 10

moved :
    {stamp stamp' seconds seconds' : ℕ} (g : Globals)
    → stamp ≡ stamp'
    → seconds ≡ seconds'
    → ◌≡◌ {A = Outcome Globals} (ok (at_time stamp seconds g)) (ok (at_time stamp' seconds' g))
moved g p q = λ i. ok (at_time (p i) (q i) g)

one_tick :
    (limit : ℕ) (g : Globals)
    → 0 < g.ntp_unix_timestamp
    → g.ntp_unix_timestamp + counted g.seconds_since_boot 1 < limit
    → g.seconds_since_boot + 1 < limit
    → clock_loop limit g
      ≡ ok (
          at_time
            (g.ntp_unix_timestamp + counted g.seconds_since_boot 1)
            (g.seconds_since_boot + 1)
            g)
unfolding clock_loop
one_tick limit g p h k = ground arith

ticks-counted :
    (limit n : ℕ) (g : Globals)
    → 0 < g.ntp_unix_timestamp
    → g.ntp_unix_timestamp + counted g.seconds_since_boot n < limit
    → g.seconds_since_boot + n < limit
    → ticks limit n g
      ≡ ok (
          at_time
            (g.ntp_unix_timestamp + counted g.seconds_since_boot n)
            (g.seconds_since_boot + n)
            g)
unfolding ticks
ticks-counted limit zero g p h k =
    let same : g.ntp_unix_timestamp ≡ g.ntp_unix_timestamp + counted g.seconds_since_boot 0 =
      omega arith in
    let now : g.seconds_since_boot ≡ g.seconds_since_boot + 0 = omega arith in moved g same now
ticks-counted limit (suc n) g p h k =
    let s : ℕ = g.seconds_since_boot in
    let stamp : g.ntp_unix_timestamp + counted s 1 + counted (s + 1) n
        ≡ g.ntp_unix_timestamp + counted s (suc n) =
      omega arith in
    let seconds : s + 1 + n ≡ s + suc n = omega arith in
    let next : Globals =
      at_time (g.ntp_unix_timestamp + counted g.seconds_since_boot 1) (g.seconds_since_boot + 1)
        g in
    rw (one_tick limit g p (omega arith) (omega arith))
      (ticks-counted limit n next (omega arith) (omega arith) (omega arith) ∙ moved g stamp seconds)

-- If the clock is set and both counters stay within the limit, ten times n ticks move the clock by nine
-- times n and the ticks since the boot by ten times n, and change nothing else.
pub clock_ticks :
    (limit n : ℕ) (g : Globals)
    → 0 < g.ntp_unix_timestamp
    → g.ntp_unix_timestamp + 9 * n < limit
    → g.seconds_since_boot + 10 * n < limit
    → ticks limit (10 * n) g
      ≡ ok (at_time (g.ntp_unix_timestamp + 9 * n) (g.seconds_since_boot + 10 * n) g)
clock_ticks limit n g p h k =
    let nine : counted g.seconds_since_boot (10 * n) ≡ 9 * n = omega arith in
    ticks-counted limit (10 * n) g p (omega arith) k
    ∙ moved g (ap (λ r. g.ntp_unix_timestamp + r) nine) refl
