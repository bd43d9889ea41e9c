-- ===== src/Prelude/Dict.antt =====
-- A hash map as an association list. The order of the entries stands for the map's own, on which
-- nothing may rely.
use tryke.Prelude.Equality.{Eq, ◌==◌}
use tryke.Prelude.Tests.{if◌then◌else◌, is_some}
use tryke.Prelude.Lists.{filter}
use tryke.Prelude.Sets.{contains}
use mathlib.Core.Bool.{not}
use mathlib.Core.Path.{◌≡◌, refl, ap, ◌∙◌}
use mathlib.Core.Option.{Option, none, some}
use mathlib.Core.List.{List, [], ◌∷◌, map}
use native.Mathlib.Omega.{arith}

abbrev pub Dict : Type 0 → Type 0 → Type 0
Dict K V = List (K × V)

module _ {K V : Type 0} ⦃e : Eq K⦄ where
  unfoldable pub get : K → Dict K V → Option V
  get k [] = none
  get k ((j, v) ∷ rest) = if j == k then some v else get k rest

  unfoldable pub insert : K → V → Dict K V → Dict K V
  insert k v [] = (k, v) ∷ []
  insert k v ((j, old) ∷ rest) =
      let kept = insert k v rest in if j == k then (j, v) ∷ rest else (j, old) ∷ kept

  unfoldable pub remove : K → Dict K V → Dict K V
  remove k [] = []
  remove k ((j, v) ∷ rest) = if j == k then remove k rest else (j, v) ∷ remove k rest

  pub get-empty : (k : K) → get k (let m : Dict K V = [] in m) ≡ none
  unfolding get
  get-empty k = refl

  pub get-insert :
      (k j : K) (v : V) (m : Dict K V) → get j (insert k v m) ≡ (if k == j then some v else get j m)
  unfolding get insert
  get-insert k j v [] = refl
  get-insert k j v ((i, w) ∷ m) =
      ground (arith, e.beq_iff k j, e.beq_iff i k, e.beq_iff i j, get-insert k j v m)

  pub get-remove :
      (k j : K) (m : Dict K V) → get j (remove k m) ≡ (if k == j then none else get j m)
  unfolding get remove
  get-remove k j [] = ground arith
  get-remove k j ((i, w) ∷ m) =
      ground (arith, e.beq_iff k j, e.beq_iff i k, e.beq_iff i j, get-remove k j m)

  -- The iteration of a map: each key once, with the value that a lookup finds.
  unfoldable pub entries : Dict K V → List (K × V)
  entries [] = []
  entries ((k, v) ∷ rest) = (k, v) ∷ filter (λ e. not (k == e.0)) (entries rest)

  unfoldable pub keys : Dict K V → List K
  unfolding entries
  keys m = map (λ e. e.0) (entries m)

  unfoldable pub dict_values : Dict K V → List V
  unfolding entries
  dict_values m = map (λ e. e.1) (entries m)

  get-filter :
      (k j : K) (m : Dict K V)
      → get j (filter (λ e. not (k == e.0)) m) ≡ (if k == j then none else get j m)
  unfolding get
  get-filter k j [] = ground arith
  get-filter k j ((i, w) ∷ m) =
      ground (arith, e.beq_iff k j, e.beq_iff k i, e.beq_iff i j, get-filter k j m)

  pub get-entries : (j : K) (m : Dict K V) → get j (entries m) ≡ get j m
  unfolding get entries
  get-entries j [] = refl
  get-entries j ((i, w) ∷ m) =
      ground (arith, e.beq_iff i j, get-filter i j (entries m), get-entries j m)

  contains-keys_of : (j : K) (m : Dict K V) → contains (map (λ e. e.0) m) j ≡ is_some (get j m)
  unfolding get contains
  contains-keys_of j [] = refl
  contains-keys_of j ((i, w) ∷ m) = ground (arith, e.beq_iff i j, contains-keys_of j m)

  pub contains-keys : (j : K) (m : Dict K V) → contains (keys m) j ≡ is_some (get j m)
  unfolding keys
  contains-keys j m = contains-keys_of j (entries m) ∙ ap is_some (get-entries j m)

  -- The last entry for a key, which is what stays of a loop that stores them in turn.
  unfoldable pub get_last : K → Dict K V → Option V
  get_last k [] = none
  get_last k ((j, v) ∷ rest) = elim (get_last k rest) [
    | some w ↦ some w
    | none ↦ if j == k then some v else none
  ]

  get_last-filter :
      (k j : K) (m : Dict K V)
      → get_last j (filter (λ e. not (k == e.0)) m) ≡ (if k == j then none else get_last j m)
  unfolding get_last
  get_last-filter k j [] = ground arith
  get_last-filter k j ((i, w) ∷ m) =
      ground (arith, e.beq_iff k j, e.beq_iff k i, e.beq_iff i j, get_last-filter k j m)

  pub get_last-entries : (j : K) (m : Dict K V) → get_last j (entries m) ≡ get j m
  unfolding get get_last entries
  get_last-entries j [] = refl
  get_last-entries j ((i, w) ∷ m) =
      ground (arith, e.beq_iff i j, get_last-filter i j (entries m), get_last-entries j m)
