-- ===== src/Vfs/Defs.antt =====
-- The nodes of the tree stand in a store by their addresses; address 0 is `nullptr`. Names and paths are texts
-- without their zero byte, and are taken to fit in their arrays.
use turb_os.Base.{
  ℕ, zero, suc, ◌+◌, ◌==◌, if◌then◌else◌, Bool, true, false, ◌&&◌, List, [], ◌∷◌, ◌++◌,
}
use turb_os.Vector.Defs.{TurboVector, push_back, remove, at}

pub record Node : Type 0 where
  pub name : List ℕ
  pub mode : ℕ
  pub flags : ℕ
  pub ptr : ℕ
  pub fs : ℕ
  pub parent : ℕ
  pub childs : TurboVector ℕ
  pub path : List ℕ

-- `TFS_FILE` and `TFS_FOLDER`, `TFS_SYMLINK` and `TFS_MOUNTPOINT`
abbrev pub tfs_file : ℕ
tfs_file = 0x01

abbrev pub tfs_folder : ℕ
tfs_folder = 0x02

abbrev pub tfs_symlink : ℕ
tfs_symlink = 0x06

abbrev pub tfs_mountpoint : ℕ
tfs_mountpoint = 0x08

-- The variables of turbo::vfs with the nodes; `freed` is what was given back, the last one first, and `given`
-- counts the nodes that the walk has made.
pub record Vfs : Type 0 where
  pub nodes : ℕ → Node
  pub root : ℕ
  pub locked : Bool
  pub is_init : Bool
  pub freed : List ℕ
  pub given : ℕ

-- `*p = x` in the store
abbrev pub set_node : ℕ → Node → Vfs → Vfs
set_node p x s = record s { nodes = λ q. if q == p then x else s.nodes q }

-- `!strcmp(a, b)`
unfoldable pub same_text : List ℕ → List ℕ → Bool
same_text [] [] = true
same_text [] (y ∷ ys) = false
same_text (x ∷ xs) [] = false
same_text (x ∷ xs) (y ∷ ys) = (x == y) && same_text xs ys

abbrev pub or_root : Vfs → ℕ → ℕ
or_root s parent = if parent == 0 then s.root else parent

-- the loop of `getChild` from `i` on
unfoldable pub find_child : Vfs → TurboVector ℕ → List ℕ → ℕ → ℕ → ℕ
find_child s childs path zero i = 0
find_child s childs path (suc left) i =
    let child = at childs i in
    let rest = find_child s childs path left (i + 1) in
    if same_text (s.nodes child).name path then child else rest

-- `*path == '\0'` is the empty text.
unfoldable pub get_child : Vfs → ℕ → List ℕ → ℕ
get_child s parent [] = 0
get_child s parent (x ∷ xs) =
    let childs = (s.nodes (or_root s parent)).childs in find_child s childs (x ∷ xs) childs.length 0

-- `parent->childs.push_back(node);`, with whether the heap gives memory
unfoldable pub attach : Bool → ℕ → ℕ → Vfs → Vfs
attach granted parent node s =
    let p = s.nodes parent in
    set_node parent (record p { childs = push_back granted p.childs node }) s

-- `addChild`, with the address that the heap gives; what the code does not set is what stood there.
unfoldable pub add_child : Bool → ℕ → ℕ → List ℕ → Vfs → Vfs
unfolding attach
add_child granted node parent name s =
    let parent = or_root s parent in
    let fs = (s.nodes parent).fs in
    attach granted parent node
      (set_node node (record (s.nodes node) { name = name; parent = parent; fs = fs }) s)

unfoldable pub add_dir : Bool → ℕ → ℕ → List ℕ → Vfs → Vfs
unfolding attach
add_dir granted node parent name s =
    let parent = or_root s parent in
    let p = s.nodes parent in
    attach granted parent node (
      set_node node
        (record (s.nodes node) {
          name = name;
          parent = parent;
          fs = p.fs;
          flags = tfs_folder;
          path = p.path ++ (b'/' ∷ name);
        })
        s)

unfoldable pub add_file : Bool → ℕ → ℕ → List ℕ → Vfs → Vfs
unfolding attach
add_file granted node parent name s =
    let parent = or_root s parent in
    let fs = (s.nodes parent).fs in
    attach granted parent node (
      set_node node
        (record (s.nodes node) { name = name; parent = parent; fs = fs; flags = tfs_file }) s)

-- `for (…) free(node->childs[i]);` from `i` on
unfoldable pub free_childs : TurboVector ℕ → ℕ → ℕ → List ℕ → List ℕ
free_childs childs zero i freed = freed
free_childs childs (suc left) i freed = free_childs childs left (i + 1) (at childs i ∷ freed)

-- what `removeChild` does with the child at `i`
unfoldable pub cut_child : ℕ → ℕ → Vfs → Vfs
unfolding free_childs
cut_child parent i s =
    let node = at (s.nodes parent).childs i in
    let childs = (s.nodes node).childs in
    let emptied =
      set_node node (record (s.nodes node) { childs = record childs { is_init = false } }) s in
    let p = emptied.nodes parent in
    set_node parent (record p { childs = remove p.childs i })
      (record emptied { freed = node ∷ free_childs childs childs.length 0 s.freed })

-- the loop of `removeChild` from `i` on
unfoldable pub remove_loop : ℕ → ℕ → ℕ → List ℕ → Vfs → Vfs
remove_loop zero parent i name s = s
remove_loop (suc left) parent i name s =
    let rest = remove_loop left parent (i + 1) name s in
    if same_text (s.nodes (at (s.nodes parent).childs i)).name name
    then cut_child parent i s
    else rest

unfoldable pub remove_child : ℕ → List ℕ → Vfs → Vfs
remove_child parent name s =
    let parent = or_root s parent in remove_loop (s.nodes parent).childs.length parent 0 name s

-- `mount_root`, with the address that the heap gives
unfoldable pub mount_root : Bool → ℕ → ℕ → Vfs → Vfs
mount_root granted node fs s =
    let s1 = add_child granted node s.root (b'/' ∷ []) s in
    let s2 = set_node s1.root (record (s1.nodes s1.root) { ptr = node }) s1 in
    set_node node (record (s2.nodes node) { flags = tfs_folder; fs = fs }) s2

-- `ROOTNAME`
abbrev rootname : List ℕ
rootname = b'[' ∷ b'R' ∷ b'O' ∷ b'O' ∷ b'T' ∷ b']' ∷ []

-- `init`, with the address that the heap gives; the vector of children is constructed.
unfoldable pub init_vfs : ℕ → Vfs → Vfs
init_vfs node s =
    let n = s.nodes node in
    let childs = record n.childs { length = 0; capacity = 0; is_init = false } in
    let root = record n { flags = tfs_mountpoint; name = rootname; fs = 0; childs = childs } in
    if s.is_init then s else record (set_node node root s) { root = node; is_init = true }
