-- ===== src/Vfs/Create.antt =====
-- `createNext` at the last name of a path, when there is no child of that name and when there is one.
use turb_os.Base.{
  ℕ, suc, ◌+◌, ◌≡◌, ◌≢◌, ◌<◌, refl, ap, ◌∙◌, ◌==◌, Bool, true, false, some, List, ◌∷◌, arith,
}
use turb_os.Vector.Defs.{at}
use turb_os.Vector.Refinement.{IsUsable}
use turb_os.Vfs.Children.{childs_of, find_child-same, get_child-add_child}
use turb_os.Vfs.Defs.{Vfs, same_text, or_root, get_child, add_child}
use turb_os.Vfs.Walk.{
  Walk, dot, dot_dot, take_child, go_up, stay_up, add_item, create_step, create_next,
}

-- The tree when `createNext` has added `name` and returns.
abbrev pub created : Bool → (ℕ → ℕ) → List ℕ → Walk → Vfs
created granted heap name w =
    let counted = record w.vfs { given = w.vfs.given + 1 } in
    record (add_child granted (heap w.vfs.given) w.parent name counted) { locked = false }

-- A name that is neither `.` nor `..`.
abbrev pub IsPlain : List ℕ → Type 0
IsPlain name = (same_text name dot ≡ false) × (same_text name dot_dot ≡ false)

module _ (granted : Bool) (heap : ℕ → ℕ) (path : ℕ → List ℕ) where
  create_next-absent :
      (f : ℕ) (w : Walk)
      → w.items ≡ 1
      → get_child w.vfs w.parent (path w.cleared) ≡ 0
      → IsPlain (path w.cleared)
      → create_next (suc f) granted heap path w
        ≡ some (created granted heap (path w.cleared) w, heap w.vfs.given)
  unfolding create_next create_step take_child go_up stay_up add_item
  create_next-absent f w one absent plain = rw (one, absent, plain.1, plain.0) refl

  -- At the last name of a path, if there is a child of that name, `createNext` does not return it: it goes on
  -- with what stands behind the name, and if that is neither `.` nor `..` it adds a child of that name and returns
  -- the new node.
  pub create_next-present :
      (f : ℕ) (w : Walk)
      → w.items ≡ 1
      → get_child w.vfs w.parent (path w.cleared) ≢ 0
      → IsPlain (path (w.cleared + 1))
      → create_next (suc (suc f)) granted heap path w
        ≡ some (created granted heap (path (w.cleared + 1)) w, heap w.vfs.given)
  unfolding create_next create_step take_child go_up stay_up add_item add_child
  create_next-present f w one present plain =
      let found : (get_child w.vfs w.parent (path w.cleared) == 0) ≡ false = ground arith in
      rw (one, found, plain.1, plain.0) refl

-- With memory from the heap, `createNext` at the last name of a path, which is neither empty nor `.` nor `..` and for
-- which the parent has no child yet, returns the node that the heap gives, `getChild` then finds that node by the
-- name, and the lock is free. The node must not be in use, and the children must be nodes in a vector that is set
-- up with room for them, or one with which nothing was done yet, for the first child.
pub get_child-create_next :
    (heap : ℕ → ℕ) (path : ℕ → List ℕ) (f c : ℕ) (cs : List ℕ) (w : Walk)
    → w.items ≡ 1
    → path w.cleared ≡ c ∷ cs
    → IsPlain (path w.cleared)
    → IsUsable (childs_of w.vfs w.parent)
    → or_root w.vfs w.parent ≢ heap w.vfs.given
    → ((j : ℕ) → j < (childs_of w.vfs w.parent).length → at (childs_of w.vfs w.parent) j ≢ 0)
    → ((j : ℕ)
        → j < (childs_of w.vfs w.parent).length
        → at (childs_of w.vfs w.parent) j ≢ heap w.vfs.given)
    → get_child w.vfs w.parent (c ∷ cs) ≡ 0
    → ((create_next (suc f) true heap path w)
        ≡ some (created true heap (c ∷ cs) w, heap w.vfs.given))
      × (get_child (created true heap (c ∷ cs) w) w.parent (c ∷ cs) ≡ heap w.vfs.given)
unfolding get_child
get_child-create_next heap path f c cs w one named plain valid other full fresh absent =
    let name = c ∷ cs in
    let parent = w.parent in
    let node = heap w.vfs.given in
    let counted : Vfs = record w.vfs { given = w.vfs.given + 1 } in
    let added = add_child true node parent name counted in
    let freed : Vfs = record added { locked = false } in
    let old = childs_of w.vfs parent in
    let new = childs_of added parent in
    let before =
      find_child-same w.vfs counted old old name old.length 0 (λ j lo hi. (refl, refl)) ∙ absent in
    let after = find_child-same added freed new new name new.length 0 (λ j lo hi. (refl, refl)) in
    (
      create_next-absent true heap path f w one (ap (get_child w.vfs parent) named ∙ absent) plain
          ∙ ap (λ n. some (created true heap n w, node)) named,
      after ∙ get_child-add_child node parent c cs counted valid other full fresh before,
    )
