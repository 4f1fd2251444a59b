-- ===== src/Vfs/Children.antt =====
-- A child that is added is found by its name.
use mathlib.Core.Path.{subst}
use turb_os.Base.{
  ℕ, zero, suc, ◌+◌, ◌≤◌, ◌<◌, ◌≡◌, ◌≢◌, refl, sym, ap, ◌∙◌, ◌==◌, if◌then◌else◌, if_true, if_false,
  Bool-cases, true, false, List, [], ◌∷◌, inl, inr, arith,
}
use turb_os.Vector.Defs.{init, push_to, TurboVector, push_back, at}
use turb_os.Vector.Laws.{IsValid, IsPushed, push_to-IsPushed, push_back-IsPushed}
use turb_os.Vector.Refinement.{IsUsable}
use turb_os.Vfs.Defs.{Vfs, same_text, or_root, find_child, get_child, attach, add_child}

same_text_refl : (xs : List ℕ) → same_text xs xs ≡ true
unfolding same_text
same_text_refl [] = refl
same_text_refl (x ∷ xs) = let e : (x == x) ≡ true = ground arith in rw (e, same_text_refl xs) refl

-- The search depends on the first `left` children from `i` on and their names alone.
pub find_child-same :
    (s u : Vfs) (cs ds : TurboVector ℕ) (name : List ℕ) (left i : ℕ)
    → ((j : ℕ)
        → i ≤ j
        → j < i + left
        → (at ds j ≡ at cs j) × ((u.nodes (at cs j)).name ≡ (s.nodes (at cs j)).name))
    → find_child u ds name left i ≡ find_child s cs name left i
unfolding find_child
find_child-same s u cs ds name zero i h = refl
find_child-same s u cs ds name (suc left) i h =
    let here = h i (omega arith) (omega arith) in
    let rest =
      find_child-same s u cs ds name left (i + 1) (λ j lo hi. h j (omega arith) (omega arith)) in
    rw (here.0, here.1, rest) refl

-- One more child, at the end: it is found if none before it is, by its name.
find_child-last :
    (s : Vfs) (cs : TurboVector ℕ) (name : List ℕ) (left i : ℕ)
    → find_child s cs name left i ≡ 0
    → ((j : ℕ) → i ≤ j → j < i + left → at cs j ≢ 0)
    → (s.nodes (at cs (i + left))).name ≡ name
    → find_child s cs name (suc left) i ≡ at cs (i + left)
unfolding find_child
find_child-last s cs name zero i absent full e =
    let place : i + 0 ≡ i = omega arith in
    let named : (s.nodes (at cs i)).name ≡ name =
      subst (λ j. (s.nodes (at cs j)).name ≡ name) place e in
    rw (named, place, same_text_refl name) refl
find_child-last s cs name (suc left) i absent full e =
    let place : i + suc left ≡ (i + 1) + left = omega arith in
    let test = same_text (s.nodes (at cs i)).name name in
    let rest = find_child s cs name left (i + 1) in
    elim (Bool-cases test) [
      | inl t ↦
          absurd (full i (omega arith) (omega arith) (sym (if_true test (at cs i) rest t) ∙ absent))
      | inr f ↦
          let later =
            find_child-last s cs name left (i + 1) (sym (if_false test (at cs i) rest f) ∙ absent)
              (λ j lo hi. full j (omega arith) (omega arith))
              (subst (λ j. (s.nodes (at cs j)).name ≡ name) place e) in
          if_false test (at cs i) (find_child s cs name (suc left) (i + 1)) f
          ∙ later
          ∙ ap (at cs) (sym place)
    ]

module _ (node parent : ℕ) (name : List ℕ) (s : Vfs) where
  -- What `add_child` leaves of the other nodes, of the node that it adds, and of the children of its parent.
  name-add_child :
      (q : ℕ) → q ≢ node → ((add_child true node parent name s).nodes q).name ≡ (s.nodes q).name
  unfolding add_child attach
  name-add_child q other =
      let apart : (q == node) ≡ false = ground arith in
      elim (Bool-cases (q == or_root s parent)) [
        | inl t ↦
            let same : q ≡ or_root s parent = ground arith in
            let apart' : (or_root s parent == node) ≡ false = ground arith in
            rw (t, apart', ap (λ r. (s.nodes r).name) same) refl
        | inr f ↦ rw (f, apart) refl
      ]

  name-added :
      or_root s parent ≢ node → ((add_child true node parent name s).nodes node).name ≡ name
  unfolding add_child attach
  name-added other =
      let apart : (node == or_root s parent) ≡ false = ground arith in
      let here : (node == node) ≡ true = ground arith in rw (apart, here) refl

  childs-add_child :
      or_root s parent ≢ node
      → ((add_child true node parent name s).nodes (or_root s parent)).childs
        ≡ push_back true (s.nodes (or_root s parent)).childs node
  unfolding add_child attach
  childs-add_child other =
      let apart : (or_root s parent == node) ≡ false = ground arith in
      let here : (or_root s parent == or_root s parent) ≡ true = ground arith in
      rw (here, apart) refl

  or_root-add_child : or_root (add_child true node parent name s) parent ≡ or_root s parent
  unfolding add_child attach
  or_root-add_child = refl

abbrev pub childs_of : Vfs → ℕ → TurboVector ℕ
childs_of s parent = (s.nodes (or_root s parent)).childs

-- A push to a vector of children that is set up, or to one with which nothing was done yet.
push_back-child :
    (v : TurboVector ℕ) (x i : ℕ) → IsUsable v → i ≤ v.length → IsPushed v x i (push_back true v x)
unfolding push_back init at
push_back-child v x i (inr valid) le = push_back-IsPushed v x i valid le
push_back-child v x i (inl (unset, empty)) le =
    let fresh = init v in
    let valid : IsValid fresh = record {
      initialised = refl;
      length_le = omega arith;
      capacity_pos = omega arith;
      capacity_lt = omega arith;
    } in
    let pushed = push_to-IsPushed fresh x i valid (omega arith) in
    let made : push_back true v x ≡ push_to true fresh x =
      ap (λ r. push_to true r x) (if_false v.is_init v fresh unset) in
    let start = sym empty in
    subst
      (λ n.
        (at (push_back true v x) i ≡ (if i == n then x else at v i))
        × ((push_back true v x).length ≡ n + 1)
        × ((push_back true v x).length ≤ (push_back true v x).capacity)
        × ((push_back true v x).is_init ≡ true))
      start (subst (λ w. IsPushed fresh x i w) (sym made) pushed)

-- With memory from the heap, a child that is added under a name that its parent has no child of yet is the one
-- that `getChild` then finds by that name, if the node is not in use and the parent's children are nodes.
pub get_child-add_child :
    (node parent c : ℕ) (cs : List ℕ) (s : Vfs)
    → IsUsable (childs_of s parent)
    → or_root s parent ≢ node
    → ((j : ℕ) → j < (childs_of s parent).length → at (childs_of s parent) j ≢ 0)
    → ((j : ℕ) → j < (childs_of s parent).length → at (childs_of s parent) j ≢ node)
    → get_child s parent (c ∷ cs) ≡ 0
    → get_child (add_child true node parent (c ∷ cs) s) parent (c ∷ cs) ≡ node
unfolding get_child
get_child-add_child node parent c cs s valid other full fresh absent =
    let name = c ∷ cs in
    let old = childs_of s parent in
    let new = push_back true old node in
    let u = add_child true node parent name s in
    let pushed = λ (j : ℕ) (le : j ≤ old.length). push_back-child old node j valid le in
    let kept : (j : ℕ) → j < old.length → at new j ≡ at old j = λ j lt.
      (pushed j (omega arith)).0 ∙ if_false (j == old.length) node (at old j) (ground arith) in
    let last : at new old.length ≡ node =
      (pushed old.length (omega arith)).0
      ∙ if_true (old.length == old.length) node (at old old.length) (ground arith) in
    let still : find_child u new name old.length 0 ≡ 0 =
      find_child-same s u old new name old.length 0 (λ j lo hi. (
        kept j (omega arith),
        name-add_child node parent name s (at old j) (fresh j (omega arith)),
      ))
      ∙ absent in
    let start : 0 + old.length ≡ old.length = omega arith in
    let place : at new (0 + old.length) ≡ node = ap (at new) start ∙ last in
    let found =
      find_child-last u new name old.length 0 still
        (λ j lo hi e. full j (omega arith) (sym (kept j (omega arith)) ∙ e))
        (ap (λ q. (u.nodes q).name) place ∙ name-added node parent name s other) in
    let count : new.length ≡ suc old.length = (pushed old.length (omega arith)).1 ∙ omega arith in
    let childs : (u.nodes (or_root u parent)).childs ≡ new =
      ap (λ q. (u.nodes q).childs) (or_root-add_child node parent name s)
      ∙ childs-add_child node parent name s other in
    ap (λ v. find_child u v name v.length 0) childs
    ∙ ap (λ n. find_child u new name n 0) count
    ∙ found
    ∙ place
