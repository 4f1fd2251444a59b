-- ===== src/Keyboard/Backspace.antt =====
-- What a backspace does behind a character.
use turb_os.Keyboard.Defs.{Keyboard}
