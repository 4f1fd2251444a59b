-- ===== src/Vfs/Open.antt =====
-- `openNext` at the last name of a path, when the folder has no child of that name.
use turb_os.Base.{ℕ, zero, suc, ◌+◌, ◌≡◌, ◌<◌, ltb, refl, ap, ◌∙◌, false, true, some, List, arith}
use turb_os.Vector.Defs.{TurboVector, at}
use turb_os.Vfs.Create.{IsPlain}
use turb_os.Vfs.Defs.{same_text}
use turb_os.Vfs.Walk.{
  Walk, Call, is_link, child_loop, unlock, follow_link, go_up, stay, open_step, open_next,
}

abbrev childs : Walk → TurboVector ℕ
childs w = (w.vfs.nodes w.parent).childs

-- No child of the folder is a link or has the name.
abbrev pub IsMissing : (ℕ → List ℕ) → Walk → Type 0
IsMissing path w =
    (j : ℕ)
    → j < (childs w).length
    → (is_link w.vfs (at (childs w) j) ≡ false)
      × (same_text (w.vfs.nodes (at (childs w) j)).name (path w.cleared) ≡ false)

-- The child that the loop ends with, from `i` on.
abbrev last_child : TurboVector ℕ → ℕ → ℕ → ℕ → ℕ
last_child cs child zero i = child
last_child cs child (suc left) i = last_child cs (at cs i) left (i + 1)

last_child_lem :
    (cs : TurboVector ℕ) (child left i : ℕ) → last_child cs child (suc left) i ≡ at cs (i + left)
last_child_lem cs child zero i = let e : i ≡ i + 0 = omega arith in ap (at cs) e
last_child_lem cs child (suc left) i =
    let e : (i + 1) + left ≡ i + suc left = omega arith in
    last_child_lem cs (at cs i) left (i + 1) ∙ ap (at cs) e

module _ (call : Call) (path : ℕ → List ℕ) where
  child_loop-missing :
      (left rounds i : ℕ) (w : Walk)
      → IsMissing path w
      → left < rounds
      → i + left ≡ (childs w).length
      → child_loop call path rounds i w
        ≡ some (record w { child = last_child (childs w) w.child left i })
  unfolding child_loop
  child_loop-missing left zero i w missing lt e = absurd (omega arith)
  child_loop-missing zero (suc rounds) i w missing lt e =
      let done : ltb i (childs w).length ≡ false = ground arith in rw done refl
  child_loop-missing (suc left) (suc rounds) i w missing lt e =
      let go : ltb i (childs w).length ≡ true = ground arith in
      let here = missing i (omega arith) in
      let next : Walk = record w { child = at (childs w) i } in
      let rest = child_loop-missing left rounds (i + 1) next missing (omega arith) (omega arith) in
      rw (go, here.0, here.1) rest

-- For a name that no child has, `openNext` at the end of a path, with room for a round for each child, does not
-- return `nullptr`: it returns the last child of the folder, which has another name, if there are children and
-- neither they nor the folder are links.
pub open_next-missing :
    (path : ℕ → List ℕ) (fuel n : ℕ) (w : Walk)
    → w.items ≡ 1
    → IsPlain (path w.cleared)
    → is_link w.vfs w.parent ≡ false
    → IsMissing path w
    → (childs w).length ≡ suc n
    → suc n < fuel
    → open_next (suc fuel) path w ≡ some (record w.vfs { locked = false }, at (childs w) n)
unfolding open_next open_step follow_link go_up stay
open_next-missing path fuel n w one plain folder missing count enough =
    let call = open_next fuel path in
    let whole : 0 + suc n ≡ (childs w).length = omega arith in
    let end : Walk = record w { child = last_child (childs w) w.child (suc n) 0 } in
    let loop = child_loop-missing call path (suc n) fuel 0 w missing enough whole in
    let step : open_step call path fuel w ≡ some (unlock end) =
      rw (folder, plain.1, plain.0, loop) refl in
    let more : ltb 0 w.items ≡ true = ground arith in
    let start : 0 + n ≡ n = omega arith in
    let found = last_child_lem (childs w) w.child n 0 ∙ ap (at (childs w)) start in
    rw (more, step, found) refl
