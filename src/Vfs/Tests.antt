-- ===== src/Vfs/Tests.antt =====
-- The theorems on the file system at a folder `/` with the children `etc` and `usr`.
use turb_os.Base.{
  ℕ, zero, suc, ◌+◌, ◌≡◌, ◌≢◌, refl, ◌==◌, if◌then◌else◌, true, false, inr, some, List, [], ◌∷◌,
  arith,
}
use turb_os.Vector.Defs.{at}
use turb_os.Vector.Laws.{IsValid}
use turb_os.Vfs.Children.{childs_of}
use turb_os.Vfs.Create.{created, create_next-present, get_child-create_next}
use turb_os.Vfs.Defs.{Node, Vfs, same_text, tfs_folder, find_child, get_child}
use turb_os.Vfs.Open.{IsMissing, open_next-missing}
use turb_os.Vfs.Walk.{Walk, is_link, open_next, create_next}

abbrev etc : List ℕ
etc = b'e' ∷ b't' ∷ b'c' ∷ []

abbrev usr : List ℕ
usr = b'u' ∷ b's' ∷ b'r' ∷ []

abbrev bin : List ℕ
bin = b'b' ∷ b'i' ∷ b'n' ∷ []

abbrev folder : List ℕ → ℕ → Node
folder name length = record {
  name = name;
  mode = 0;
  flags = tfs_folder;
  ptr = 0;
  fs = 0;
  parent = 1;
  childs = record { items = λ i. i + 2; length = length; capacity = 10; is_init = true };
  path = [];
}

abbrev tree : Vfs
tree = record {
  nodes =
      λ q. if q == 1 then folder (b'/' ∷ []) 2 else if q == 2 then folder etc 0 else folder usr 0;
  root = 1;
  locked = true;
  is_init = true;
  freed = [];
  given = 0;
}

abbrev heap : ℕ → ℕ
heap n = n + 100

abbrev walk : Walk
walk = record { vfs = tree; parent = 1; child = 0; items = 1; cleared = 0 }

abbrev one_name : List ℕ → ℕ → List ℕ
one_name name i = if i == 0 then name else bin

tree-IsValid : IsValid (childs_of tree 1)
tree-IsValid = record {
  initialised = refl;
  length_le = omega arith;
  capacity_pos = omega arith;
  capacity_lt = omega arith;
}

neither_is_bin : IsMissing (one_name bin) walk
unfolding is_link same_text at
neither_is_bin zero lt = (refl, refl)
neither_is_bin (suc zero) lt = (refl, refl)
neither_is_bin (suc (suc j)) lt = absurd (omega arith)

etc_is_there : get_child tree 1 etc ≢ 0
unfolding get_child find_child same_text at
etc_is_there e = absurd (omega arith)

get_child-create_next_example :
    (create_next 1 true heap (one_name bin) walk ≡ some (created true heap bin walk, 100))
    × (get_child (created true heap bin walk) 1 bin ≡ 100)
unfolding get_child find_child same_text at
get_child-create_next_example =
    get_child-create_next heap (one_name bin) 0 (b'b') (b'i' ∷ b'n' ∷ []) walk refl refl
      (refl, refl) (inr tree-IsValid) (λ e. omega arith) (λ j lt e. omega arith)
      (λ j lt e. omega arith) refl

create_next-present_example :
    create_next 2 true heap (one_name etc) walk ≡ some (created true heap bin walk, 100)
unfolding get_child find_child same_text at
create_next-present_example =
    create_next-present true heap (one_name etc) 0 walk refl etc_is_there (refl, refl)

open_next-missing_example :
    open_next 4 (one_name bin) walk ≡ some (record tree { locked = false }, 3)
unfolding is_link same_text at
open_next-missing_example =
    open_next-missing (one_name bin) 3 1 walk refl (refl, refl) refl neither_is_bin refl
      (omega arith)
