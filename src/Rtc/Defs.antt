-- ===== src/Rtc/Defs.antt =====
-- The registers are read through two ports; what they hold is given by the number of reads so far and the
-- register, since the clock goes on while it is read.
use turb_os.Base.{
  ℕ, zero, suc, ◌+◌, ◌*◌, ◌/◌, ◌^◌, ◌==◌, if◌then◌else◌, bit_and, Option, none, some,
}
use turb_os.Base.Words.{add64, sub64, mul64}

abbrev pub Clock : Type 0
Clock = ℕ → ℕ → ℕ

-- `(value >> 4) * 10 + (value & 15)`, for a byte
unfoldable pub bcptobin : ℕ → ℕ
bcptobin value = value / 2 ^ 4 * 10 + bit_and value 15

-- `outb(CMOS_IN, register); return bcptobin(inb(CMOS_OUT));`, with the number of reads after it
abbrev pub read : Clock → ℕ → ℕ → ℕ × ℕ
read clock register t = (bcptobin (clock t register), t + 1)

abbrev pub second : Clock → ℕ → ℕ × ℕ
second clock = read clock 0x00

abbrev pub minute : Clock → ℕ → ℕ × ℕ
minute clock = read clock 0x02

abbrev pub hour : Clock → ℕ → ℕ × ℕ
hour clock = read clock 0x04

abbrev pub week_day : Clock → ℕ → ℕ × ℕ
week_day clock = read clock 0x06

abbrev pub day : Clock → ℕ → ℕ × ℕ
day clock = read clock 0x07

abbrev pub month : Clock → ℕ → ℕ × ℕ
month clock = read clock 0x08

abbrev pub year : Clock → ℕ → ℕ × ℕ
year clock = read clock 0x09

-- `fadthdr->Century`, if there is such a table
abbrev pub century : Option ℕ → Clock → ℕ → ℕ × ℕ
century (some zero) clock t = (20, t)
century (some (suc c)) clock t = read clock 0x32 t
century none clock t = read clock 0x32 t

-- `hour()*3600 + minute()*60 + second()`; the operands are read in one of the orders that C++ allows
unfoldable pub time : Clock → ℕ → ℕ × ℕ
time clock t =
    let h = hour clock t in
    let m = minute clock h.1 in
    let s = second clock m.1 in (add64 (add64 (mul64 h.0 3600) (mul64 m.0 60)) s.0, s.1)

-- `while (time() != timeWanted);` with a bound on the rounds
unfoldable pub wait : ℕ → Clock → ℕ → ℕ → Option ℕ
wait zero clock wanted t = none
wait (suc fuel) clock wanted t =
    let rest = wait fuel clock wanted (time clock t).1 in
    if (time clock t).0 == wanted then some (time clock t).1 else rest

unfoldable pub sleep : ℕ → Clock → ℕ → ℕ → Option ℕ
sleep fuel clock seconds t = let now = time clock t in wait fuel clock (add64 now.0 seconds) now.1

-- `dateToJulianDateDay`, on unsigned words of 64 bits
unfoldable pub date_to_julian : ℕ → ℕ → ℕ → ℕ
date_to_julian days months years =
    let shift = sub64 months 14 / 12 in
    let quarters = mul64 1461 (add64 (add64 years 4800) shift) / 4 in
    let twelfths = mul64 367 (sub64 (sub64 months 2) (mul64 12 shift)) / 12 in
    let centuries = mul64 3 (add64 (add64 years 4900) shift / 100) / 4 in
    sub64 (add64 (sub64 (add64 quarters twelfths) centuries) days) 32075

unfoldable pub epoch : Option ℕ → Clock → ℕ → ℕ × ℕ
epoch fadt clock t =
    let s = second clock t in
    let m = minute clock s.1 in
    let h = hour clock m.1 in
    let d = day clock h.1 in
    let mo = month clock d.1 in
    let y = year clock mo.1 in
    let c = century fadt clock y.1 in
    let current = date_to_julian d.0 mo.0 (add64 (mul64 c.0 100) y.0) in
    let diff = sub64 current (date_to_julian 1 1 1970) in
    (add64 (add64 (add64 (mul64 diff 86400) (mul64 h.0 3600)) (mul64 m.0 60)) s.0, c.1)
