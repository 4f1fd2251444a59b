-- ===== src/CString/Defs.antt =====
-- `strlen`, `strcpy`, `strncpy`, `strcat`, `strchr`, `strcmp` and `strncmp`. A pointer is a number, `NULL`
-- is 0. A loop that only a byte in memory ends has fuel; `none` means that it has not ended.
use turb_os.Base.{ℕ, zero, suc, ◌+◌, true, false, ◌==◌, if◌then◌else◌, Option, none, some}
use turb_os.Base.Int.{ℤ, sub_ℕ}

abbrev pub Memory : Type 0
Memory = ℕ → ℕ

-- `*p = c`
abbrev pub poke : Memory → ℕ → ℕ → Memory
poke m p c q = if p == q then c else m q

unfoldable pub strlen_from : ℕ → Memory → ℕ → ℕ → Option ℕ
strlen_from zero m str length = none
strlen_from (suc fuel) m str length = elim (m (str + length)) [
  | zero ↦ some length
  | suc c ↦ strlen_from fuel m str (length + 1)
]

unfoldable pub strlen : ℕ → Memory → ℕ → Option ℕ
strlen fuel m str = strlen_from fuel m str 0

-- `while (*source != '\0') *destination++ = *source++;`, with the memory and the last `destination`
unfoldable pub copy_loop : ℕ → Memory → ℕ → ℕ → Option (Memory × ℕ)
copy_loop zero m destination source = none
copy_loop (suc fuel) m destination source = elim (m source) [
  | zero ↦ some (m, destination)
  | suc c ↦ copy_loop fuel (poke m destination (suc c)) (destination + 1) (source + 1)
]

-- the memory and the returned pointer
unfoldable pub strcpy : ℕ → Memory → ℕ → ℕ → Option (Memory × ℕ)
strcpy fuel m destination source =
    if destination == 0 then some (m, 0) else (elim (copy_loop fuel m destination source) [
      | none ↦ none
      | some (m', last) ↦ some (poke m' last 0, destination)
    ])

-- the loop of `strncpy` with `n - i` rounds left
unfoldable pub ncopy_loop : ℕ → Memory → ℕ → ℕ → Memory × ℕ
ncopy_loop zero m destination source = (m, destination)
ncopy_loop (suc left) m destination source = elim (m source) [
  | zero ↦ (m, destination)
  | suc c ↦ ncopy_loop left (poke m destination (suc c)) (destination + 1) (source + 1)
]

unfoldable pub strncpy : Memory → ℕ → ℕ → ℕ → Memory × ℕ
strncpy m destination source n =
    if destination == 0
    then (m, 0)
    else (let r = ncopy_loop n m destination source in (poke r.0 r.1 0, destination))

-- Nothing is stored behind the last byte that is copied.
unfoldable pub strcat : ℕ → Memory → ℕ → ℕ → Option (Memory × ℕ)
strcat fuel m destination source =
    if destination == 0 then some (m, 0) else (elim (strlen fuel m destination) [
      | none ↦ none
      | some length ↦ elim (copy_loop fuel m (destination + length) source) [
        | none ↦ none
        | some (m', last) ↦ some (m', destination)
      ]
    ])

-- `while (*str && *str != ch) ++str;`
unfoldable pub chr_loop : ℕ → Memory → ℕ → ℕ → Option ℕ
chr_loop zero m str ch = none
chr_loop (suc fuel) m str ch = elim (m str) [
  | zero ↦ some str
  | suc c ↦ elim (suc c == ch) [ true ↦ some str | false ↦ chr_loop fuel m (str + 1) ch ]
]

unfoldable pub strchr : ℕ → Memory → ℕ → ℕ → Option ℕ
strchr fuel m str ch = elim (chr_loop fuel m str ch) [
  | none ↦ none
  | some p ↦ some (if ch == m p then p else 0)
]

-- `while (*a && *a == *b) { ++a; ++b; }`, and the difference of the bytes where it stops
unfoldable pub strcmp : ℕ → Memory → ℕ → ℕ → Option ℤ
strcmp zero m a b = none
strcmp (suc fuel) m a b = elim (m a) [
  | zero ↦ some (sub_ℕ 0 (m b))
  | suc c ↦ elim (suc c == m b) [
    | true ↦ strcmp fuel m (a + 1) (b + 1)
    | false ↦ some (sub_ℕ (suc c) (m b))
  ]
]

-- `for (i = 0; i < n; i++) if (a[i] != b[i]) return 1; return 0;`, from `i` with `left` rounds left
unfoldable pub ncmp_loop : ℕ → Memory → ℕ → ℕ → ℕ → ℕ
ncmp_loop zero m a b i = 0
ncmp_loop (suc left) m a b i = elim (m (a + i) == m (b + i)) [
  | true ↦ ncmp_loop left m a b (i + 1)
  | false ↦ 1
]

unfoldable pub strncmp : Memory → ℕ → ℕ → ℕ → ℕ
strncmp m a b n = ncmp_loop n m a b 0
