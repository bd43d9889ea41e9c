-- ===== src/Paths.antt =====
-- `std::path` on Unix, as far as the program uses it: a path is its text, and two paths are equal
-- when their components are.
pub mod Operations
use tryke.Prelude.{
  ℕ, ◌≡◌, ◌↔◌, Bool, true, false, ◌&&◌, not, List, [], ◌∷◌, map, Text, codes, split_on, Eq, ◌==◌,
  nat_eq, list_eq, if◌then◌else◌, filter, is_empty, arith,
}

pub data Component : Type 0 where
  root_dir cur_dir parent_dir : Component
  normal : Text → Component

abbrev component_beq : Component → Component → Bool
component_beq root_dir root_dir = true
component_beq cur_dir cur_dir = true
component_beq parent_dir parent_dir = true
component_beq (normal s) (normal t) = s == t
component_beq _ _ = false

pub component_beq_iff : (a b : Component) → (component_beq a b ≡ true) ↔ (a ≡ b)
component_beq_iff root_dir b = ground arith
component_beq_iff cur_dir b = ground arith
component_beq_iff parent_dir b = ground arith
component_beq_iff (normal s) root_dir = ground arith
component_beq_iff (normal s) cur_dir = ground arith
component_beq_iff (normal s) parent_dir = ground arith
component_beq_iff (normal s) (normal t) = ground (arith, (list_eq {A = ℕ}).beq_iff s t)

instance abbrev pub component_eq : Eq Component
component_eq = record { beq = component_beq; beq_iff = component_beq_iff }

-- The text of a `PathBuf`.
abbrev pub FilePath : Type 0
FilePath = Text

abbrev component : Text → Component
component s = if s == codes ".." then parent_dir else normal s

-- Empty pieces, from repeated or trailing separators, and `.` are skipped.
abbrev pieces : List Text → List Component
pieces ss = map component (filter (λ s. not (is_empty s) && not (s == codes ".")) ss)

-- A `.` counts at the very start only.
abbrev relative : List Text → List Component
relative [] = []
relative (s ∷ ss) = if s == codes "." then cur_dir ∷ pieces ss else pieces (s ∷ ss)

-- `Path::components`.
unfoldable pub components : FilePath → List Component
unfolding split_on
components [] = []
components (c ∷ p) =
    if c == b'/' then root_dir ∷ pieces (split_on b'/' p) else relative (split_on b'/' (c ∷ p))

components_runs :
    components (codes "/a//b/./../c.py/")
    ≡ root_dir ∷ normal (codes "a") ∷ normal (codes "b") ∷ parent_dir ∷ normal (codes "c.py") ∷ []
unfolding components
components_runs = ground arith
