-- ===== src/Mouse/Defs.antt =====
-- The handler of the mouse's interrupt. What it draws is recorded, latest first.
use turb_os.Base.{ℕ, ◌-◌, ◌%◌, bit_and, Bool, true, false, not, ◌==◌, if◌then◌else◌, List, ◌∷◌}
use turb_os.Base.Int.{ℤ, pos, sub_ℕ, add_ℕ, minus_ℕ, lt_ℤ}

pub record Point : Type 0 where
  pub x : ℤ
  pub y : ℤ

pub data MouseState : Type 0 where
  ps2_none : MouseState
  ps2_left : MouseState
  ps2_middle : MouseState
  ps2_right : MouseState

-- the calls of the frame buffer, with their colours
pub data Draw : Type 0 where
  clear_cursor : Point → Draw
  filled_circle : Point → ℕ → ℕ → Draw
  filled_rectangle : Point → ℕ → ℕ → ℕ → Draw
  cursor : Point → Draw

-- The variables of the namespace, and the static ones of the functions, `skip` and `circle`. The size of the
-- screen belongs to the frame buffer.
pub record Mouse : Type 0 where
  pub cycle : ℕ
  pub packet0 : ℕ
  pub packet1 : ℕ
  pub packet2 : ℕ
  pub packet_ready : Bool
  pub position : Point
  pub old_position : Point
  pub skip : Bool
  pub circle : Bool
  pub drawn : List Draw

abbrev pub flag : ℕ → ℕ → Bool
flag byte mask = not (bit_and byte mask == 0)

unfoldable pub get_mouse_state : ℕ → MouseState
get_mouse_state packet0 =
    if flag packet0 0b001
    then ps2_left
    else if flag packet0 0b100
    then ps2_middle
    else if flag packet0 0b010
    then ps2_right
    else ps2_none

-- `packet[i] = 256 - packet[i]`, on a byte
abbrev pub negate : ℕ → ℕ
negate byte = (256 - byte) % 256

-- How a coordinate moves: `up` is whether the byte is added, with 255 more on overflow.
unfoldable pub shift : Bool → Bool → ℕ → ℤ → ℤ
shift up over byte c =
    let moved = if up then add_ℕ c byte else minus_ℕ c byte in
    if over then (if up then add_ℕ moved 255 else minus_ℕ moved 255) else moved

-- `if (c < 0) c = 0; if (c > size - 1) c = size - 1;`
unfoldable pub clamp : ℕ → ℤ → ℤ
clamp size c =
    let low = if lt_ℤ c (pos 0) then pos 0 else c in
    if lt_ℤ (sub_ℕ size 1) low then sub_ℕ size 1 else low

-- `X` grows to the right, and `Y`, which the mouse counts upwards, downwards.
unfoldable pub move : ℕ → ℕ → Mouse → Mouse
move width height s =
    let xmin = flag s.packet0 0b00010000 in
    let ymin = flag s.packet0 0b00100000 in
    let xover = flag s.packet0 0b01000000 in
    let yover = flag s.packet0 0b10000000 in
    let dx = if xmin then negate s.packet1 else s.packet1 in
    let dy = if ymin then negate s.packet2 else s.packet2 in
    record s {
      packet1 = dx;
      packet2 = dy;
      position = record {
        x = clamp width (shift (not xmin) xover dx s.position.x);
        y = clamp height (shift ymin yover dy s.position.y);
      };
    }

-- the switch over the buttons
unfoldable pub paint : Mouse → ℕ → Mouse
paint s colour = record s {
  drawn =
      (if s.circle
        then filled_circle s.position 5 colour
        else filled_rectangle s.position 10 10 colour)
      ∷ s.drawn;
}

unfoldable pub press : Mouse → MouseState → Mouse
press s ps2_left = paint s 0x1fe079
press s ps2_middle = record s { circle = not s.circle }
press s ps2_right = paint s 0xff00dd
press s ps2_none = s

-- `proccessPacket` of a packet that is ready
unfoldable pub apply : ℕ → ℕ → Mouse → Mouse
apply width height s =
    let m = move width height s in
    let cleared = record m { drawn = clear_cursor m.old_position ∷ m.drawn } in
    let p = press cleared (get_mouse_state m.packet0) in
    record p {
      drawn = cursor p.position ∷ p.drawn;
      packet_ready = false;
      old_position = p.position;
    }

unfoldable pub proccess_packet : ℕ → ℕ → Mouse → Mouse
proccess_packet width height s = if s.packet_ready then apply width height s else s

-- the switch over `cycle`
unfoldable pub collect : Mouse → ℕ → Mouse
collect s mousedata =
    if s.cycle == 0
    then (if bit_and mousedata 0b00001000 == 0
        then s
        else record s { packet0 = mousedata; cycle = 1 })
    else if s.cycle == 1
    then record s { packet1 = mousedata; cycle = 2 }
    else if s.cycle == 2
    then record s { packet2 = mousedata; packet_ready = true; cycle = 0 }
    else s

-- `Mouse_Handler`, with the byte that it reads from the port
unfoldable pub mouse_handler : ℕ → ℕ → Mouse → ℕ → Mouse
mouse_handler width height s mousedata =
    let p = proccess_packet width height s in
    if p.skip then record p { skip = false } else collect p mousedata
