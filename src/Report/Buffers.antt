-- ===== src/Report/Buffers.antt =====
-- crates/tryke/src/execution.rs: the buffers, a `HashMap` from files to results with their indexes.
use mathlib.Core.List.{Perm, perm_middle, Mem, not-mem-nil, eq-or-mem_of_mem-cons, mem-cons_self}
use mathlib.Core.Bool.{Bool-set}
use mathlib.Core.Logic.{∥∥₁_elim}
use tryke.Prelude.{==_refl, ◌||◌}
use mathlib.Core.List.Perm
use tryke.Prelude.{
  contains, ==→eq, arith, ℕ, ◌≡◌, refl, true, inl, inr, List, [], ◌∷◌, ◌++◌, map, append_assoc,
  Option, none, some, ◌==◌, list_eq, option_eq, nat_eq, if◌then◌else◌, Bool-cases, concat,
}
use tryke.Prelude.Sort.{swap_blocks}
use tryke.Paths.{component_eq}
use tryke.Types.Outcome.{TestResult}
use tryke.Schedule.Units.{FileKey}

abbrev pub Buffer : Type 0
Buffer = List (ℕ × TestResult)

abbrev pub BufferMap : Type 0
BufferMap = List (FileKey × Buffer)

-- `buffers.entry(file).or_default().push(e)`.
unfoldable pub push : FileKey → ℕ × TestResult → BufferMap → BufferMap
push file e [] = (file, e ∷ []) ∷ []
push file e ((f, buf) ∷ rest) =
    let further = push file e rest in
    if f == file then (f, buf ++ e ∷ []) ∷ rest else (f, buf) ∷ further

-- `buffers.remove(file)`: the buffer, and the map without it.
unfoldable pub take_out : FileKey → BufferMap → Option Buffer × BufferMap
take_out file [] = (none, [])
take_out file ((f, buf) ∷ rest) =
    let further = take_out file rest in
    if f == file then (some buf, rest) else (further.0, (f, buf) ∷ further.1)

abbrev pub contents : BufferMap → Buffer
contents bufs = concat (map (λ b. b.1) bufs)

abbrev pub or_none : Option Buffer → Buffer
or_none none = []
or_none (some buf) = buf

pub push-perm :
    (file : FileKey) (e : ℕ × TestResult) (bufs : BufferMap)
    → Perm (contents (push file e bufs)) (e ∷ contents bufs)
unfolding push
push-perm file e [] = Perm.rfl
push-perm file e ((f, buf) ∷ rest) = elim (Bool-cases (f == file)) [
  | inl h ↦ rw (h, append_assoc) (perm_middle buf (contents rest))
  | inr h ↦
      rw h (
        Perm.trans (Perm.append_left buf (push-perm file e rest)) (perm_middle buf (contents rest)))
]

pub take_out-perm :
    (file : FileKey) (bufs : BufferMap)
    → Perm (contents bufs) (or_none (take_out file bufs).0 ++ contents (take_out file bufs).1)
unfolding take_out
take_out-perm file [] = Perm.rfl
take_out-perm file ((f, buf) ∷ rest) = elim (Bool-cases (f == file)) [
  | inl h ↦ rw h Perm.rfl
  | inr h ↦ rw h (
      Perm.trans (Perm.append_left buf (take_out-perm file rest))
        (swap_blocks (or_none (take_out file rest).0) buf (contents (take_out file rest).1)))
]

abbrev pub files_of : BufferMap → List FileKey
files_of bufs = map (λ b. b.0) bufs

-- A file that is buffered is taken out once.
take_out-files :
    (file : FileKey) (bufs : BufferMap)
    → contains (files_of bufs) file ≡ true
    → Perm (files_of bufs) (file ∷ files_of (take_out file bufs).1)
unfolding take_out contains
take_out-files file [] h = cc
take_out-files file ((f, buf) ∷ rest) h = elim (Bool-cases (f == file)) [
  | inl e ↦ rw (e, ==→eq f file e) Perm.rfl
  | inr e ↦
      let further = take_out-files file rest (ground (arith, h, e)) in
      rw e (Perm.trans (Perm.cons f further) (Perm.swap file f (files_of (take_out file rest).1)))
]

Mem-contains : (file : FileKey) (files : List FileKey) → Mem file files → contains files file ≡ true
unfolding contains
Mem-contains file [] m = absurd (not-mem-nil m)
Mem-contains file (f ∷ files) m =
    ∥∥₁_elim (eq-or-mem_of_mem-cons m) (Bool-set (f == file || contains files file) true) (λ either.
      elim either [
        | inl e ↦ rw (e, ==_refl f) refl
        | inr later ↦ ground (arith, Mem-contains file files later)
      ])

-- Taking out the next file of a list that has each buffered file once.
pub take_out-listed :
    (file : FileKey) (files : List FileKey) (bufs : BufferMap)
    → Perm (files_of bufs) (file ∷ files)
    → Perm (files_of (take_out file bufs).1) files
take_out-listed file files bufs h = Perm.cons_inv (
    Perm.trans
      (Perm.symm (
        take_out-files file bufs
          (Mem-contains file (files_of bufs) ((Perm.mem_iff h).1 mem-cons_self))))
      h)
