-- ===== src/Mouse/Laws.antt =====
-- Where the cursor can be, how packets are collected, and how a packet moves the cursor.
use mathlib.Core.Path.{subst}
use turb_os.Base.{
  ℕ, ◌-◌, ◌<◌, ◌≡◌, refl, bit_and, false, ltb, ◌==◌, ◌∷◌, inl, inr, Bool-cases, sym, if-both, arith,
}
use turb_os.Base.Int.{ℤ, pos, negsuc}
use turb_os.Mouse.Defs.{
  Mouse, Point, MouseState, ps2_none, ps2_left, ps2_middle, ps2_right, get_mouse_state, clamp, move,
  paint, press, apply, proccess_packet, clear_cursor, collect, mouse_handler,
}

-- A coordinate on a screen of that size.
abbrev pub IsWithin : ℕ → ℤ → Type 0
IsWithin size c = (n : ℕ) × (c ≡ pos n) × (n < size)

-- The cursor stands on the screen, and the handler waits for one of the three bytes.
pub record IsValid (width height : ℕ) (s : Mouse) : Type 0 where
  pub x : IsWithin width s.position.x
  pub y : IsWithin height s.position.y
  pub cycle : s.cycle < 3

clamp-IsWithin : (size : ℕ) (c : ℤ) → 0 < size → IsWithin size (clamp size c)
unfolding clamp
clamp-IsWithin size (pos n) h = elim (Bool-cases (ltb (size - 1) n)) [
  | inl e ↦ (size - 1, ground arith, omega arith)
  | inr e ↦ (n, ground arith, ground arith)
]
clamp-IsWithin size (negsuc n) h = (0, ground arith, omega arith)

-- Pressing a button moves nothing.
press_keeps :
    (s : Mouse) (b : MouseState)
    → ((press s b).position ≡ s.position) × ((press s b).cycle ≡ s.cycle)
unfolding press paint
press_keeps s ps2_left = (refl, refl)
press_keeps s ps2_middle = (refl, refl)
press_keeps s ps2_right = (refl, refl)
press_keeps s ps2_none = (refl, refl)

-- The cursor stands where `move` put it.
apply-move :
    (width height : ℕ) (s : Mouse)
    → ((apply width height s).position ≡ (move width height s).position)
      × ((apply width height s).cycle ≡ s.cycle)
      × ((apply width height s).packet_ready ≡ false)
unfolding apply move
apply-move width height s =
    let k =
      press_keeps (record (move width height s) { drawn = clear_cursor s.old_position ∷ s.drawn })
        (get_mouse_state s.packet0) in
    (k.0, k.1, refl)

proccess_packet-IsValid :
    (width height : ℕ) (s : Mouse)
    → 0 < width
    → 0 < height
    → IsValid width height s
    → IsValid width height (proccess_packet width height s)
unfolding proccess_packet move
proccess_packet-IsValid width height s hw hh v =
    let a = apply-move width height s in
    if-both (IsValid width height) s.packet_ready (apply width height s) s
      (record {
        x = subst (λ (p : Point). IsWithin width p.x) (sym a.0) (clamp-IsWithin width _ hw);
        y = subst (λ (p : Point). IsWithin height p.y) (sym a.0) (clamp-IsWithin height _ hh);
        cycle = omega (arith, a.1, v.cycle);
      })
      v

collect-IsValid :
    (width height byte : ℕ) (s : Mouse)
    → IsValid width height s
    → IsValid width height (collect s byte)
unfolding collect
collect-IsValid width height byte s v =
    let P = IsValid width height in
    if-both P (s.cycle == 0) _ _
      (if-both P (bit_and byte 0b00001000 == 0) _ _ v
        (record { x = v.x; y = v.y; cycle = omega arith }))
      (if-both P (s.cycle == 1) _ _ (record { x = v.x; y = v.y; cycle = omega arith })
        (if-both P (s.cycle == 2) _ _ (record { x = v.x; y = v.y; cycle = omega arith }) v))

-- On a screen with pixels, the handler keeps the cursor on the screen and waits for one of three bytes,
-- whatever byte comes.
pub mouse_handler-IsValid :
    (width height : ℕ) (s : Mouse) (byte : ℕ)
    → 0 < width
    → 0 < height
    → IsValid width height s
    → IsValid width height (mouse_handler width height s byte)
unfolding mouse_handler
mouse_handler-IsValid width height s byte hw hh v =
    let p = proccess_packet-IsValid width height s hw hh v in
    if-both (IsValid width height) (proccess_packet width height s).skip _ _
      (record { x = p.x; y = p.y; cycle = p.cycle })
      (collect-IsValid width height byte (proccess_packet width height s) p)
