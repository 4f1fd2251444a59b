-- ===== src/Mouse/Packet.antt =====
-- How three bytes become a packet, and how far a packet moves the cursor.
use mathlib.Core.Path.{ap₂}
use Prim.Native.Nat.{min}
use turb_os.Base.{
  ℕ, ◌+◌, ◌-◌, ◌<◌, ◌≡◌, refl, ap, bit_and, Bool, true, false, not, ◌==◌, if◌then◌else◌, Bool-cases,
  inl, inr, arith,
}
use turb_os.Base.Int.{ℤ, pos}
use turb_os.Mouse.Defs.{
  Mouse, Point, flag, negate, shift, clamp, move, proccess_packet, collect, mouse_handler,
}

-- The handler after its first byte, between two packets.
abbrev pub idle : Mouse → Mouse
idle s = record s { cycle = 0; packet_ready = false; skip = false }

-- Between two packets, three bytes of which the first has bit 3 set are stored as the packet, which is ready
-- then, and nothing is moved or drawn; a first byte without bit 3 is dropped.
pub three_bytes :
    (width height : ℕ) (s : Mouse) (b0 b1 b2 : ℕ)
    → (let h = mouse_handler width height in h (h (h (idle s) b0) b1) b2) ≡ (
        if bit_and b0 0b1000 == 0
        then (let h = mouse_handler width height in h (h (idle s) b1) b2)
        else record s {
          cycle = 0;
          packet_ready = true;
          skip = false;
          packet0 = b0;
          packet1 = b1;
          packet2 = b2;
        })
unfolding mouse_handler proccess_packet collect
three_bytes width height s b0 b1 b2 = elim (Bool-cases (bit_and b0 0b1000 == 0)) [
  | inl e ↦ rw e refl
  | inr e ↦ rw e refl
]

right :
    (size a byte : ℕ)
    → a < size
    → clamp size (shift true false byte (pos a)) ≡ pos (min (a + byte) (size - 1))
unfolding clamp shift
right size a byte h = ground arith

left : (size a byte : ℕ) → a < size → clamp size (shift false false byte (pos a)) ≡ pos (a - byte)
unfolding clamp shift
left size a byte h = ground arith

-- Without overflow, a packet moves the cursor of a screen point by point: to the right by the second byte,
-- or to the left by what that byte lacks to 256 if the sign bit is set; and up by the third byte, or down
-- by what it lacks to 256. The cursor stops at the border.
pub move_lem :
    (width height : ℕ) (s : Mouse) (a b : ℕ)
    → s.position ≡ record { x = pos a; y = pos b }
    → a < width
    → b < height
    → flag s.packet0 0b01000000 ≡ false
    → flag s.packet0 0b10000000 ≡ false
    → 0 < s.packet1
    → s.packet1 < 256
    → 0 < s.packet2
    → s.packet2 < 256
    → (move width height s).position ≡ record {
      x = pos (
          if flag s.packet0 0b00010000
          then a - (256 - s.packet1)
          else min (a + s.packet1) (width - 1));
      y = pos (
          if flag s.packet0 0b00100000
          then min (b + (256 - s.packet2)) (height - 1)
          else b - s.packet2);
    }
unfolding move
move_lem width height s a b at ha hb xover yover p1 q1 p2 q2 =
    let xs = flag s.packet0 0b00010000 in
    let ys = flag s.packet0 0b00100000 in
    let n1 : negate s.packet1 ≡ 256 - s.packet1 = omega arith in
    let n2 : negate s.packet2 ≡ 256 - s.packet2 = omega arith in
    ap₂ (λ (x y : ℤ). record { x = x; y = y })
      (horizontal xs _ _ width a s.packet1 _ (ap (λ (p : Point). p.x) at) xover n1 ha)
      (vertical ys _ _ height b s.packet2 _ (ap (λ (p : Point). p.y) at) yover n2 hb)
  where
    horizontal :
        (sign over : Bool) (c : ℤ) (size a byte n : ℕ)
        → c ≡ pos a
        → over ≡ false
        → negate byte ≡ n
        → a < size
        → clamp size (shift (not sign) over (if sign then negate byte else byte) c)
          ≡ pos (if sign then a - n else min (a + byte) (size - 1))
    horizontal true over c size a byte n e o m h = rw (e, o, m) (left size a n h)
    horizontal false over c size a byte n e o m h = rw (e, o) (right size a byte h)

    vertical :
        (sign over : Bool) (c : ℤ) (size a byte n : ℕ)
        → c ≡ pos a
        → over ≡ false
        → negate byte ≡ n
        → a < size
        → clamp size (shift sign over (if sign then negate byte else byte) c)
          ≡ pos (if sign then min (a + n) (size - 1) else a - byte)
    vertical true over c size a byte n e o m h = rw (e, o, m) (right size a n h)
    vertical false over c size a byte n e o m h = rw (e, o) (left size a byte h)
