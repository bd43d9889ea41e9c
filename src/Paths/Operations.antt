-- ===== src/Paths/Operations.antt =====
-- The operations of `std::path` on paths that are compared, hashed and sorted: a `PathBuf` is the
-- list of its components, which is what `==`, `Hash` and `Ord` of `Path` read.
use tryke.Prelude.{
  ℕ, ◌≡◌, refl, Bool, true, false, ◌&&◌, ◌||◌, List, [], ◌∷◌, ◌++◌, Option, none, some, Text, codes,
  Eq, text_le, ◌==◌, nat_eq, list_eq, option_eq, if◌then◌else◌, arith, ==_refl,
}
use tryke.Paths.{Component, root_dir, cur_dir, parent_dir, normal, component_eq, components}

abbrev pub PathBuf : Type 0
PathBuf = List Component

-- The equality of paths, by name.
abbrev pub path_eq : Eq PathBuf
path_eq = list_eq

-- The order of `Component`'s constructors, then of the text.
abbrev rank : Component → ℕ
rank root_dir = 0
rank cur_dir = 1
rank parent_dir = 2
rank (normal s) = 3

unfoldable pub component_le : Component → Component → Bool
component_le (normal s) (normal t) = text_le s t
component_le a b = tryke.Prelude.leb (rank a) (rank b)

-- `Ord` of `Path`.
unfoldable pub path_le : PathBuf → PathBuf → Bool
unfolding component_le
path_le [] q = true
path_le (a ∷ p) [] = false
path_le (a ∷ p) (b ∷ q) = let rest = path_le p q in if a == b then rest else component_le a b

unfoldable pub strip_prefix : PathBuf → PathBuf → Option PathBuf
strip_prefix [] p = some p
strip_prefix (b ∷ base) [] = none
strip_prefix (b ∷ base) (c ∷ p) = let rest = strip_prefix base p in if b == c then rest else none

-- `path.starts_with(base)`, the base first.
unfoldable pub starts_with : PathBuf → PathBuf → Bool
starts_with [] p = true
starts_with (b ∷ base) [] = false
starts_with (b ∷ base) (c ∷ p) = b == c && starts_with base p

-- `base.join(path)`: an absolute path takes the place of the base, and a `.` is left out except at
-- the very start.
unfoldable pub join : PathBuf → PathBuf → PathBuf
join base (root_dir ∷ p) = root_dir ∷ p
join [] p = p
join (b ∷ base) (cur_dir ∷ p) = (b ∷ base) ++ p
join (b ∷ base) p = (b ∷ base) ++ p

-- A path from its text.
abbrev pub path : Text → PathBuf
path s = components s

-- The last component, when it is a name.
unfoldable pub file_name : PathBuf → Option Text
file_name [] = none
file_name (normal s ∷ []) = some s
file_name (_ ∷ []) = none
file_name (_ ∷ c ∷ p) = file_name (c ∷ p)

unfoldable pub parent : PathBuf → Option PathBuf
parent [] = none
parent (root_dir ∷ []) = none
parent (_ ∷ []) = some []
parent (a ∷ c ∷ p) = elim (parent (c ∷ p)) [ some q ↦ some (a ∷ q) | none ↦ none ]

-- What stands before and after the last dot.
unfoldable pub rsplit_dot : Text → Option (Text × Text)
rsplit_dot [] = none
rsplit_dot (c ∷ s) = elim (rsplit_dot s) [
  | some (before, after) ↦ some (c ∷ before, after)
  | none ↦ if c == b'.' then some ([], s) else none
]

abbrev pub after_dot : Option (Text × Text) → Option Text
after_dot none = none
after_dot (some ([], after)) = none
after_dot (some (c ∷ before, after)) = some after

abbrev pub stem_of : Text → Option (Text × Text) → Text
stem_of name none = name
stem_of name (some ([], after)) = name
stem_of name (some (c ∷ before, after)) = c ∷ before

-- `Path::extension`: a name that begins with its only dot has none.
unfoldable pub extension : PathBuf → Option Text
unfolding file_name rsplit_dot
extension p = elim (file_name p) [ some name ↦ after_dot (rsplit_dot name) | none ↦ none ]

-- `Path::with_file_name` on a path that has a file name.
unfoldable pub with_last : Text → PathBuf → PathBuf
with_last s [] = []
with_last s (_ ∷ []) = normal s ∷ []
with_last s (a ∷ c ∷ p) = a ∷ with_last s (c ∷ p)

-- `Path::with_extension`, for an extension that is not empty: a path without a file name stays.
unfoldable pub with_extension : Text → PathBuf → PathBuf
unfolding file_name rsplit_dot with_last
with_extension ext p = elim (file_name p) [
  | some name ↦ with_last (stem_of name (rsplit_dot name) ++ b'.' ∷ ext) p
  | none ↦ p
]

-- `path.extension().is_some_and(|ext| ext == "py")`
unfoldable pub is_python : PathBuf → Bool
unfolding extension
is_python p = extension p == some (codes "py")

operations_run :
    (is_python (path (codes "a/b.py")) ≡ true)
    × (is_python (path (codes "a/.py")) ≡ false)
    × (with_extension (codes "py") (path (codes "/r/a.b")) ≡ path (codes "/r/a.py"))
    × (join (path (codes "/r")) (path (codes "./a")) ≡ path (codes "/r/a"))
unfolding is_python extension file_name rsplit_dot with_extension with_last join components
operations_run = (refl, refl, refl, refl)
