-- ===== src/CString/Tests.antt =====
-- The functions on strings in a memory with two texts.
use turb_os.Base.{if◌then◌else◌, ◌==◌, ◌||◌, ℕ, ◌≡◌, refl, inr, some, List, [], ◌∷◌, arith}
use turb_os.Base.Int.{ℤ}
use turb_os.CString.Defs.{Memory, strcpy, strcmp}
use turb_os.CString.Text.{Text}
use turb_os.CString.Copy.{strcpy_lem, IsWritten}
use turb_os.CString.Compare.{strcmp_lem, Compared}

-- "ab" at 8, "ac" at 16, and 7 in every other byte
abbrev memory : Memory
memory p =
    if p == 8
    then 97
    else if p == 9
    then 98
    else if p == 16
    then 97
    else if p == 17
    then 99
    else if p == 10 || p == 18
    then 0
    else 7

abbrev ab : List ℕ
ab = 97 ∷ 98 ∷ []

abbrev ac : List ℕ
ac = 97 ∷ 99 ∷ []

ab-Text : Text memory 8 ab
ab-Text = (refl, omega arith, (refl, omega arith, refl))

ac-Text : Text memory 16 ac
ac-Text = (refl, omega arith, (refl, omega arith, refl))

strcpy_example : (m' : Memory) × (strcpy 3 memory 32 8 ≡ some (m', 32)) × IsWritten memory m' 32 ab
strcpy_example = strcpy_lem 3 memory 32 8 ab (omega arith) ab-Text (omega arith) (inr (omega arith))

strcmp_example : (z : ℤ) × (strcmp 3 memory 8 16 ≡ some z) × Compared z ab ac
strcmp_example = strcmp_lem 3 memory 8 16 ab ac ab-Text ac-Text (omega arith)
