-- ===== src/Mouse/Tests.antt =====
-- A mouse on a screen of 640 by 480 points.
use turb_os.Base.{◌≡◌, refl, true, false, [], arith}
use turb_os.Base.Int.{pos}
use turb_os.Mouse.Defs.{Mouse, mouse_handler}
use turb_os.Mouse.Laws.{IsValid, mouse_handler-IsValid}
use turb_os.Mouse.Packet.{idle, three_bytes}

-- A packet is ready that moves the cursor 16 points to the left and 5 up, with no button pressed.
abbrev ready : Mouse
ready = record {
  cycle = 0;
  packet0 = 0b00011000;
  packet1 = 0xF0;
  packet2 = 5;
  packet_ready = true;
  position = record { x = pos 100; y = pos 100 };
  old_position = record { x = pos 100; y = pos 100 };
  skip = false;
  circle = false;
  drawn = [];
}

ready-IsValid : IsValid 640 480 ready
ready-IsValid = record {
  x = (100, refl, omega arith);
  y = (100, refl, omega arith);
  cycle = omega arith;
}

mouse_handler-IsValid_example : IsValid 640 480 (mouse_handler 640 480 ready 0b00001000)
mouse_handler-IsValid_example =
    mouse_handler-IsValid 640 480 ready 0b00001000 (omega arith) (omega arith) ready-IsValid

three_bytes_example :
    (let h = mouse_handler 640 480 in h (h (h (idle ready) 8) 3) 4) ≡ record ready {
      cycle = 0;
      packet_ready = true;
      skip = false;
      packet0 = 8;
      packet1 = 3;
      packet2 = 4;
    }
three_bytes_example = three_bytes 640 480 ready 8 3 4
