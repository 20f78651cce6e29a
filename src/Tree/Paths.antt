-- ===== src/Tree/Paths.antt =====
-- `FilterTree::serialiseToStringPaths` of src/backend/filtertree.cpp: a path for each filter, by which
-- state files name it. A string is the list of its bytes, and a filter its position in the pre-order.
pub mod Nonce
pub mod Named
pub mod Parents
use depict_isosurfaces.Prelude.{
  ℕ, zero, suc, ◌+◌, ◌%◌, ◌^◌, Bool, true, false, ◌||◌, Option, none, some, ◌>>=◌, List, [], ◌∷◌,
  ◌++◌, take, length, if◌then◌else◌,
}
use depict_isosurfaces.Text.Decimal.{dec}
use depict_isosurfaces.State.Stashes.{text_eq}
use depict_isosurfaces.Tree.Order.{TreeOps}
use depict_isosurfaces.Tree.Refresh.{top}

abbrev pub Text : Type 0
Text = List ℕ

-- `enumeratedPaths.find(path) != enumeratedPaths.end()`
unfoldable pub has_path : List Text → Text → Bool
has_path [] s = false
has_path (p ∷ ps) s = text_eq p s || has_path ps s

-- `PATH_NONCE`
abbrev pub path_nonce : Text
path_nonce = b'$' ∷ b'>' ∷ []

-- `pathStack.top()+typeString()+string(PATH_NONCE)+tailStr`, for the count as an unsigned int.
unfoldable pub nonce_path : Text → Text → ℕ → Text
nonce_path parent type_string count = (parent ++ type_string) ++ path_nonce ++ dec (count % 2 ^ 32)

-- `while(find(testPath) != end()) { nonceIncrement++; ... }`, from a count on.
unfoldable pub nonce_loop : List Text → Text → Text → ℕ → ℕ → Option Text
nonce_loop paths parent type_string zero count = none
nonce_loop paths parent type_string (suc n) count =
    let again = nonce_loop paths parent type_string n (suc count) in
    let next_path = nonce_path parent type_string count in
    if has_path paths next_path then again else some next_path

-- The first path tried has a slash before the type. The loop tries one count more than there are
-- paths.
unfoldable pub test_path : List Text → Text → Text → Option Text
test_path paths parent type_string =
    let first = parent ++ b'/' ∷ type_string in
    let others = nonce_loop paths parent type_string (suc (length paths)) 1 in
    if has_path paths first then others else some first

module _ (t : TreeOps) (type_string : ℕ → Text) where
  -- The loop over `n` filters from `it` on. The bottom of `pathStack` is the head of its list, and the
  -- paths so far stand in the order of the filters.
  unfoldable pub path_loop : ℕ → ℕ → List Text → List Text → Option (List Text)
  path_loop zero it path_stack paths = some paths
  path_loop (suc n) it path_stack paths =
      let popped = take (t.depth it + 1) path_stack in
      let go_on =
        λ (path : Text). path_loop n (suc it) (popped ++ path ∷ []) (paths ++ path ∷ []) in
      do parent ← top popped; path ← test_path paths parent (type_string it); go_on path

  unfoldable pub serialise_to_string_paths : Option (List Text)
  serialise_to_string_paths = path_loop t.size 0 ([] ∷ []) []
