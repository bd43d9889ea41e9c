-- ===== src/Schedule/Grouping.antt =====
-- Grouping by a key in order of first occurrence: `IndexMap::entry(key).or_default().push(item)`
-- over a list, as in crates/tryke_runner/src/schedule.rs.
use mathlib.Core.List.{Perm, perm_middle}
use mathlib.Core.List.Perm
use mathlib.Core.List.{append-nil}
use tryke.Prelude.{
  distinct, ℕ, zero, suc, ◌≤◌, ◌≡◌, refl, sym, ap, inl, inr, Bool, true, false, not, List, [], ◌∷◌,
  ◌++◌, map, append_assoc, Eq, ◌==◌, ==_refl, ==_comm, ==-cases, if◌then◌else◌, Bool-cases, length,
  filter, filter-filter_self, filter_comm, length-filter-le, concat, All, All-filter, arith,
}

module _ {ℓ κ} {A : Type ℓ} {K : Type κ} ⦃e : Eq K⦄ (key : A → K) where
  insert_entry : K → A → List (K × List A) → List (K × List A)
  insert_entry k a [] = (k, a ∷ []) ∷ []
  insert_entry k a ((j, xs) ∷ m) =
      if j == k then (j, xs ++ a ∷ []) ∷ m else (j, xs) ∷ insert_entry k a m

  group_from : List (K × List A) → List A → List (K × List A)
  unfolding insert_entry
  group_from m [] = m
  group_from m (t ∷ ts) = group_from (insert_entry (key t) t m) ts

  unfoldable pub group_by : List A → List (K × List A)
  unfolding group_from
  group_by ts = group_from [] ts

  abbrev pub contents : List (K × List A) → List A
  contents m = concat (map (λ g. g.1) m)

  insert_entry-perm :
      (k : K) (a : A) (m : List (K × List A))
      → Perm (contents (insert_entry k a m)) (a ∷ contents m)
  unfolding insert_entry
  insert_entry-perm k a [] = Perm.rfl
  insert_entry-perm k a ((j, xs) ∷ m) = elim (Bool-cases (j == k)) [
    | inl h ↦ rw (h, append_assoc) (perm_middle xs (contents m))
    | inr h ↦
        rw h
          (Perm.trans (Perm.append_left xs (insert_entry-perm k a m)) (perm_middle xs (contents m)))
  ]

  group_from-perm :
      (m : List (K × List A)) (ts : List A) → Perm (contents (group_from m ts)) (contents m ++ ts)
  unfolding group_from
  group_from-perm m [] = rw append-nil Perm.rfl
  group_from-perm m (t ∷ ts) = Perm.trans (group_from-perm (insert_entry (key t) t m) ts) (
      Perm.trans (Perm.append_right ts (insert_entry-perm (key t) t m))
        (Perm.symm (perm_middle (contents m) ts)))

  -- Grouping loses nothing and adds nothing.
  pub group_by-perm : (ts : List A) → Perm (contents (group_by ts)) ts
  unfolding group_by
  group_by-perm ts = group_from-perm [] ts

  abbrev pub same : K → A → Bool
  same k a = key a == k

  abbrev other : K → A → Bool
  other k a = not (key a == k)

  -- The first entry takes what has its key, and the rest of the map sees only the other items.
  group_from-cons :
      (k : K) (xs : List A) (m : List (K × List A)) (ts : List A)
      → group_from ((k, xs) ∷ m) ts
        ≡ (k, xs ++ filter (same k) ts) ∷ group_from m (filter (other k) ts)
  unfolding group_from insert_entry
  group_from-cons k xs m [] = rw append-nil
  group_from-cons k xs m (t ∷ ts) = elim (==-cases (key t) k) [
    | inl h ↦ rw (h, ==_refl k, group_from-cons k (xs ++ t ∷ []) m ts, append_assoc)
    | inr h ↦ rw (==_comm k (key t), h, group_from-cons k xs (insert_entry (key t) t m) ts)
  ]

  group_by-cons :
      (t : A) (ts : List A)
      → group_by (t ∷ ts)
        ≡ (key t, t ∷ filter (same (key t)) ts) ∷ group_by (filter (other (key t)) ts)
  unfolding group_by group_from insert_entry
  group_by-cons t ts = group_from-cons (key t) (t ∷ []) [] ts

  filter_apart :
      (j k : K) (ts : List A)
      → (j == k) ≡ false
      → filter (same j) (filter (other k) ts) ≡ filter (same j) ts
  filter_apart j k [] h = refl
  filter_apart j k (t ∷ ts) h =
      ground (arith, filter_apart j k ts h, e.beq_iff (key t) k, e.beq_iff (key t) j, e.beq_iff j k)

  -- The keys: those of the items, each once.
  distinct-filter :
      (k : K) (ts : List A)
      → distinct (map key (filter (other k) ts))
        ≡ filter (λ j. not (k == j)) (distinct (map key ts))
  unfolding distinct
  distinct-filter k [] = refl
  distinct-filter k (t ∷ ts) = elim (==-cases (key t) k) [
    | inl h ↦
        simp (h, ==_refl k, distinct-filter k ts)
          (sym (filter-filter_self (λ j. not (k == j)) (distinct (map key ts))))
    | inr h ↦
        rw (==_comm k (key t), h, distinct-filter k ts)
          (ap (λ l. key t ∷ l) (filter_comm _ _ (distinct (map key ts))))
  ]

  abbrev pub entries : List K → List A → List (K × List A)
  entries ks ts = map (λ k. (k, filter (same k) ts)) ks

  entries-cons :
      (t : A) (ts : List A) (ks : List K)
      → All (λ k. not (key t == k) ≡ true) ks
      → entries ks (filter (other (key t)) ts) ≡ entries ks (t ∷ ts)
  entries-cons t ts [] h = refl
  entries-cons t ts (k ∷ ks) h = ground (
    arith,
    filter_apart k (key t) ts,
    e.beq_iff k (key t),
    e.beq_iff (key t) k,
    entries-cons t ts ks h.1,
  )

  group_by-eq :
      (n : ℕ) (ts : List A) → length ts ≤ n → group_by ts ≡ entries (distinct (map key ts)) ts
  unfolding distinct
  group_by-eq n [] h = unfold group_by group_from in refl
  group_by-eq zero (t ∷ ts) h = absurd (omega arith)
  group_by-eq (suc n) (t ∷ ts) h =
      rw
        (
          group_by-cons t ts,
          group_by-eq n (filter (other (key t)) ts)
              (omega (arith, length-filter-le (other (key t)) ts)),
          distinct-filter (key t) ts,
          ==_refl (key t),
        )
        (ap (λ l. (key t, t ∷ filter (same (key t)) ts) ∷ l)
          (entries-cons t ts _ (All-filter (λ j. not (key t == j)) (distinct (map key ts)))))

  -- The groups by description: one for each key, in order of first occurrence, with the items of
  -- that key in their order.
  pub group_by-eq-entries : (ts : List A) → group_by ts ≡ entries (distinct (map key ts)) ts
  group_by-eq-entries ts = group_by-eq (length ts) ts (omega arith)
