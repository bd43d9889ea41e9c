-- ===== src/Discover/Imports.antt =====
-- crates/tryke_types/src/lib.rs and crates/tryke_discovery/src/source.rs: module names, the paths
-- that an import may stand for, and which of them a project has.
use tryke.Prelude.{
  ◌↔◌, ◌⊎◌, false, ◌||◌, List, [], ◌∷◌, ◌++◌, map, Option, none, some, Text, codes, split_on,
  is_empty, filter, any, contains, Eq, if◌then◌else◌, unwrap_or, contains-append, Member,
  contains-filter,
}
use tryke.Prelude
use tryke.Paths.{Component, root_dir, cur_dir, parent_dir, normal, component_eq, components}
use tryke.Paths.Operations.{
  PathBuf, starts_with, strip_prefix, join, with_extension, file_name, rsplit_dot, stem_of,
  with_last, path,
}

-- `path.with_extension("")`
unfoldable pub without_extension : PathBuf → PathBuf
unfolding file_name rsplit_dot with_last
without_extension p = elim (file_name p) [
  | some name ↦ with_last (stem_of name (rsplit_dot name)) p
  | none ↦ p
]

-- `Component::as_os_str`.
abbrev component_text : Component → Text
component_text root_dir = codes "/"
component_text cur_dir = codes "."
component_text parent_dir = codes ".."
component_text (normal s) = s

abbrev pub dotted : PathBuf → Option Text
dotted [] = none
dotted (c ∷ p) = some (tryke.Prelude.join (codes ".") (map component_text (c ∷ p)))

unfoldable pub module_of_path : PathBuf → PathBuf → Option Text
unfolding strip_prefix without_extension
module_of_path root file = elim (strip_prefix root file) [
  | some relative ↦ dotted (without_extension relative)
  | none ↦ none
]

unfoldable pub path_to_module : PathBuf → PathBuf → Text
unfolding module_of_path
path_to_module root file = unwrap_or (module_of_path root file) []

-- `for part in module_of_path.split('.') { path = path.join(part); }`
unfoldable pub join_parts : PathBuf → List Text → PathBuf
unfolding join components
join_parts p [] = p
join_parts p (part ∷ parts) = join_parts (join p (path part)) parts

abbrev pub init_file : PathBuf
init_file = path (codes "__init__.py")

abbrev both : PathBuf → List PathBuf
both p = with_extension (codes "py") p ∷ join p init_file ∷ []

unfoldable pub candidate_absolute_import_paths : List PathBuf → Text → List PathBuf
unfolding starts_with with_extension join join_parts split_on components
candidate_absolute_import_paths [] name = []
candidate_absolute_import_paths (root ∷ src_roots) name =
    filter (starts_with root) (both (join_parts root (split_on b'.' name)))
    ++ candidate_absolute_import_paths src_roots name

unfoldable pub candidate_relative_import_paths : PathBuf → PathBuf → Text → List PathBuf
unfolding starts_with with_extension join join_parts split_on components
candidate_relative_import_paths root base [] = filter (starts_with root) (join base init_file ∷ [])
candidate_relative_import_paths root base (c ∷ name) =
    filter (starts_with root) (both (join_parts base (split_on b'.' (c ∷ name))))

module _ {P : Type 0} ⦃e : Eq P⦄ where
  -- The first candidate of a group that the project has.
  unfoldable pub first_existing : List P → List P → Option P
  unfolding contains
  first_existing project_files [] = none
  first_existing project_files (candidate ∷ group) =
      if contains project_files candidate
      then some candidate
      else first_existing project_files group

  -- The loop over the groups: what was seen, and what is returned, in order.
  abbrev resolved : Option P → List P → List P → List P × List P
  resolved none seen out = (seen, out)
  resolved (some c) seen out = if contains seen c then (seen, out) else (c ∷ seen, out ++ c ∷ [])

  unfoldable pub resolve_from : List P → List (List P) → List P × List P → List P
  unfolding first_existing contains
  resolve_from project_files [] (seen, out) = out
  resolve_from project_files (group ∷ groups) (seen, out) =
      resolve_from project_files groups (resolved (first_existing project_files group) seen out)

  unfoldable pub resolve_import_candidate_groups : List (List P) → List P → List P
  unfolding resolve_from
  resolve_import_candidate_groups groups project_files = resolve_from project_files groups ([], [])

  -- What each group stands for, where it stands for a file.
  abbrev pub somes : List (Option P) → List P
  somes [] = []
  somes (none ∷ os) = somes os
  somes (some p ∷ os) = p ∷ somes os
