-- ===== src/ZfsCore/Directory.antt =====
-- libs/zfs-core/src/directory.rs: the index of paths (`DirectoryIndex`). A string is the list of its
-- bytes, and `BTreeMap<String, _>` is the list of its entries in the order of the keys.
pub mod Order
pub mod Paths
pub mod Index
mod Tests
use zero_os.Common.{
  ℕ, Bool, true, false, not, ◌&&◌, ◌||◌, List, [], ◌∷◌, ◌++◌, Option, none, some, ◌==◌, ltb,
  if◌then◌else◌,
}

abbrev pub Text : Type 0
Text = List ℕ

-- `str` order and equality, byte by byte
unfoldable pub text_lt : Text → Text → Bool
text_lt s [] = false
text_lt [] (y ∷ ys) = true
text_lt (x ∷ xs) (y ∷ ys) = if x == y then text_lt xs ys else ltb x y

unfoldable pub text_eq : Text → Text → Bool
text_eq [] [] = true
text_eq [] (y ∷ ys) = false
text_eq (x ∷ xs) [] = false
text_eq (x ∷ xs) (y ∷ ys) = (x == y) && text_eq xs ys

-- `text.starts_with(prefix)`
unfoldable pub starts_with : Text → Text → Bool
starts_with s [] = true
starts_with [] (y ∷ ys) = false
starts_with (x ∷ xs) (y ∷ ys) = (x == y) && starts_with xs ys

abbrev pub slash : ℕ
slash = 47

abbrev pub unless_slash : ℕ → Text → Text
unless_slash c [] = if c == slash then [] else c ∷ []
unless_slash c (d ∷ ds) = c ∷ d ∷ ds

-- The bytes without the slashes at their end.
unfoldable pub drop_slashes : Text → Text
drop_slashes [] = []
drop_slashes (c ∷ cs) = unless_slash c (drop_slashes cs)

-- `while value.ends_with('/') && value.len() > 1 { value.pop(); }`
abbrev pub trim : Text → Text
trim [] = []
trim (c ∷ cs) = c ∷ drop_slashes cs

abbrev pub rooted : Text → Text
rooted [] = []
rooted (c ∷ cs) = if c == slash then c ∷ cs else slash ∷ c ∷ cs

unfoldable pub normalize : Text → Text
normalize [] = slash ∷ []
normalize (c ∷ cs) = trim (rooted (c ∷ cs))

abbrev pub Index : Type 0 → Type 0
Index E = List (Text × E)

module _ {E : Type 0} where
  -- `BTreeMap::insert`, `get` and `remove` on the list
  unfoldable pub put : Text → E → Index E → Index E
  put key entry [] = (key, entry) ∷ []
  put key entry (x ∷ xs) =
      if text_eq key x.0
      then (key, entry) ∷ xs
      else if text_lt key x.0
      then (key, entry) ∷ x ∷ xs
      else x ∷ put key entry xs

  unfoldable pub lookup : Text → Index E → Option E
  lookup key [] = none
  lookup key (x ∷ xs) = if text_eq key x.0 then some x.1 else lookup key xs

  unfoldable pub delete : Text → Index E → Index E
  delete key [] = []
  delete key (x ∷ xs) = if text_eq key x.0 then xs else x ∷ delete key xs

  unfoldable pub insert : Text → E → Index E → Index E
  insert path entry index = put (normalize path) entry index

  unfoldable pub get : Text → Index E → Option E
  get path index = lookup (normalize path) index

  unfoldable pub remove : Text → Index E → Option E × Index E
  remove path index = (lookup (normalize path) index, delete (normalize path) index)

  -- `range(from..)`
  unfoldable pub range_from : Text → Index E → Index E
  range_from from [] = []
  range_from from (x ∷ xs) = if text_lt x.0 from then range_from from xs else x ∷ xs

  -- The entries up to the first whose path does not start so.
  unfoldable pub take_prefixed : Text → Index E → Index E
  take_prefixed prefix [] = []
  take_prefixed prefix (x ∷ xs) =
      if not (starts_with x.0 prefix) then [] else x ∷ take_prefixed prefix xs

  unfoldable pub list_prefix : Text → Index E → Index E
  list_prefix prefix index = take_prefixed (normalize prefix) (range_from (normalize prefix) index)
