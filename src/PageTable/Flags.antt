-- ===== src/PageTable/Flags.antt =====
-- What the flag methods do, bit by bit.
use turb_os.Base.{ℕ, ◌^◌, ◌<◌, ◌≡◌, bit_and, Bool, true, false, ◌==◌, if◌then◌else◌, arith}
use turb_os.Base.Words.{complement64}
use turb_os.Base.Bits.{bit_at, bit_at-and, bit_at-or, bit_at_complement, bit_and_mask}
use turb_os.Base.Steps.{bit_and-zero}
use turb_os.PageTable.Entry.{set_flags, get_flags}

-- Each of the 64 bits after `setFlags`: a bit of the mask is switched on or off as asked, and every other
-- bit of the entry is as before.
pub bit_at-set_flags :
    (value flags : ℕ) (enabled : Bool) (k : ℕ)
    → flags < 2 ^ 64
    → k < 64
    → bit_at (set_flags value flags enabled) k
      ≡ (if bit_at flags k == 1 then (if enabled then 1 else 0) else bit_at value k)
unfolding set_flags
bit_at-set_flags value flags true k fits lt = ground (
  arith,
  bit_at-or k (bit_and value (complement64 flags)) flags,
  bit_at-and k value (complement64 flags),
  bit_at_complement 64 k flags lt fits,
)
bit_at-set_flags value flags false k fits lt =
    ground (arith, bit_at-and k value (complement64 flags), bit_at_complement 64 k flags lt fits)

-- `getFlags` of any flags that are not 0 answers with bit 0 of the entry, the present bit, whatever the
-- flags are; of no flags it answers false.
pub get_flags_lem :
    (value flags : ℕ) → get_flags value flags ≡ (if flags == 0 then false else bit_at value 0 == 1)
unfolding get_flags
get_flags_lem value flags = ground (arith, bit_and_mask 1 value, bit_and-zero value)
