-- ===== src/Vfs/Walk.antt =====
-- `openNext` and `createNext`. Both call themselves for the rest of the path, drop what the call returns, and go
-- on. `path` is the array of the names, whatever stands behind them included, and `none` is a recursion deeper
-- than the fuel, or a loop with more rounds.
use turb_os.Base.{
  ℕ, zero, suc, ◌+◌, ltb, ◌==◌, if◌then◌else◌, bit_and, Bool, false, ◌||◌, Option, none, some, List,
  [], ◌∷◌,
}
use turb_os.Base.Words.{sub64}
use turb_os.Vector.Defs.{at}
use turb_os.Vfs.Defs.{Vfs, same_text, tfs_symlink, tfs_mountpoint, get_child, add_child}

infixl 5 ◌>>=◌
abbrev pub ◌>>=◌ : {A B : Type 0} → Option A → (A → Option B) → Option B
none >>= f = none
some a >>= f = f a

abbrev pub dot : List ℕ
dot = b'.' ∷ []

abbrev pub dot_dot : List ℕ
dot_dot = b'.' ∷ b'.' ∷ []

-- The local variables of the walk, with the tree.
pub record Walk : Type 0 where
  pub vfs : Vfs
  pub parent : ℕ
  pub child : ℕ
  pub items : ℕ
  pub cleared : ℕ

-- `cleared++; items--;`
abbrev pub next_item : Walk → Walk
next_item w = record w { cleared = w.cleared + 1; items = sub64 w.items 1 }

-- A call whose result is dropped: the tree is what it leaves, the variables are the caller's.
abbrev pub Call : Type 0
Call = Walk → Option (Vfs × ℕ)

abbrev pub drop_result : Call → Walk → Option Walk
drop_result call w = call w >>= λ r. some (record w { vfs = r.0 })

-- `vfs_lock.unlock(); return childNode;`
abbrev pub unlock : Walk → Walk
unlock w = record w { vfs = record w.vfs { locked = false } }

unfoldable pub is_link : Vfs → ℕ → Bool
is_link s node =
    let kind = bit_and (s.nodes node).flags 0x07 in
    (kind == tfs_mountpoint) || (kind == tfs_symlink)

-- the first test of `openNext`
unfoldable pub follow_link : Call → Walk → Option Walk
unfolding is_link
follow_link call w =
    if is_link w.vfs w.parent
    then drop_result call (record w { parent = (w.vfs.nodes w.parent).ptr })
    else some w

-- `..`, of both walks
unfoldable pub go_up : Call → (ℕ → List ℕ) → Walk → Option Walk
go_up call path w =
    if same_text (path w.cleared) dot_dot
    then (let up = (w.vfs.nodes w.parent).parent in
        drop_result call
          (next_item (if ltb 1 w.items then record w { parent = up } else record w { child = up })))
    else some w

-- `.` of `openNext`
unfoldable pub stay : Call → (ℕ → List ℕ) → Walk → Option Walk
stay call path w =
    if same_text (path w.cleared) dot
    then drop_result call (next_item (if ltb 1 w.items then w else record w { child = w.parent }))
    else some w

-- the loop over the children, whose parent and name change when one is found
unfoldable pub child_loop : Call → (ℕ → List ℕ) → ℕ → ℕ → Walk → Option Walk
unfolding is_link
child_loop call path zero i w = none
child_loop call path (suc rounds) i w =
    let childs = (w.vfs.nodes w.parent).childs in
    let c = at childs i in
    let seen = record w { child = if is_link w.vfs c then (w.vfs.nodes c).ptr else c } in
    let rest = child_loop call path rounds (i + 1) in
    if ltb i childs.length
    then (if same_text (w.vfs.nodes seen.child).name (path w.cleared)
        then (drop_result call (next_item (record seen { parent = c })) >>= rest)
        else rest seen)
    else some w

-- what `openNext` does for a path that has items left
unfoldable pub open_step : Call → (ℕ → List ℕ) → ℕ → Walk → Option Walk
open_step call path rounds w = follow_link call w >>= go_up call path >>= stay call path >>= λ w.
    child_loop call path rounds 0 w >>= λ w. some (unlock w)

unfoldable pub open_next : ℕ → (ℕ → List ℕ) → Walk → Option (Vfs × ℕ)
open_next zero path w = none
open_next (suc fuel) path w =
    let step = open_step (open_next fuel path) path fuel w in
    (if ltb 0 w.items then step else some w) >>= λ w. some ((unlock w).vfs, w.child)

-- the first test of `createNext`
unfoldable pub take_child : Call → (ℕ → List ℕ) → Walk → Option Walk
take_child call path w =
    let found = get_child w.vfs w.parent (path w.cleared) in
    if found == 0
    then some w
    else drop_result call (
        next_item
          (if ltb 1 w.items then record w { parent = found } else record w { child = found }))

-- `.` of `createNext`, which does what `..` does
unfoldable pub stay_up : Call → (ℕ → List ℕ) → Walk → Option Walk
stay_up call path w =
    if same_text (path w.cleared) dot
    then (let up = (w.vfs.nodes w.parent).parent in
        drop_result call
          (next_item (if ltb 1 w.items then record w { parent = up } else record w { child = up })))
    else some w

-- the end of `createNext`; the heap gives the address of the next node.
unfoldable pub add_item : Bool → (ℕ → ℕ) → (ℕ → List ℕ) → Walk → Walk
add_item granted heap path w =
    let node = heap w.vfs.given in
    let counted = record w.vfs { given = w.vfs.given + 1 } in
    let added = record w { vfs = add_child granted node w.parent (path w.cleared) counted } in
    next_item
      (if ltb 1 w.items then record added { parent = node } else record added { child = node })

unfoldable pub create_step : Call → Bool → (ℕ → ℕ) → (ℕ → List ℕ) → Walk → Option Walk
create_step call granted heap path w =
    take_child call path w >>= go_up call path >>= stay_up call path >>= λ w.
    some (add_item granted heap path w)

unfoldable pub create_next : ℕ → Bool → (ℕ → ℕ) → (ℕ → List ℕ) → Walk → Option (Vfs × ℕ)
create_next zero granted heap path w = none
create_next (suc fuel) granted heap path w =
    let step = create_step (create_next fuel granted heap path) granted heap path w in
    (if ltb 0 w.items then step else some w) >>= λ w. some ((unlock w).vfs, w.child)
