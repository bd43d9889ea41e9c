-- ===== src/Graph/Affected.antt =====
-- crates/tryke_discovery/src/filesystem/import_graph.rs: `affected_files` is reachability in the
-- reverse index.
use mathlib.Core.Bool.{false≢true}
use tryke.Prelude.{
  ℕ, zero, suc, ◌≡◌, ◌↔◌, ◌⊎◌, refl, sym, ◌∙◌, subst, inl, inr, true, false, ◌||◌, List, [], ◌∷◌,
  ◌++◌, some, contains, contains-append, Eq, ==_refl, ==-cases, Bool-cases, length, arith,
}
use tryke.Graph.Maps.{succs, values, contains-values, insert_set, contains-insert_set}
use tryke.Graph.{ImportGraph, enqueue, search_from, extend_set, search_fuel, affected_files}
use tryke.Graph.Mirror.{has_edge, IsMirror}
use tryke.Graph.Search.{
  enqueue-visited, enqueue-queued, enqueue-new, enqueue_old, enqueue_fresh, enqueue_bound,
  search_from-ends, unseen-le,
}

module _ {P : Type 0} ⦃e : Eq P⦄ where
  -- `x` is `changed` or imports, through other files, what is.
  pub data Reaches (g : ImportGraph P) (changed : List P) : P → Type 0 where
    start : {x : P} → contains changed x ≡ true → Reaches g changed x
    step : {x y : P} → Reaches g changed x → has_edge g.forward y x ≡ true → Reaches g changed y

  module _ (g : ImportGraph P) (changed : List P) (mirror : IsMirror g) where
    -- What the loop keeps: all that is visited is reached, and what is visited and waits no longer
    -- has all its importers visited.
    record IsSearch (v q : List P) : Type 0 where
      started : (x : P) → contains changed x ≡ true → contains v x ≡ true
      reached : (x : P) → contains v x ≡ true → Reaches g changed x
      waits : (x : P) → contains q x ≡ true → contains v x ≡ true
      closed :
          (x : P)
          → contains v x ≡ true
          → (contains q x ≡ true) ⊎ ((y : P) → has_edge g.reverse x y ≡ true → contains v y ≡ true)

    enqueue-waits :
        (fs v q : List P)
        → ((x : P) → contains q x ≡ true → contains v x ≡ true)
        → (x : P) → contains (enqueue fs (v, q)).1 x ≡ true
        → contains (enqueue fs (v, q)).0 x ≡ true
    unfolding enqueue contains
    enqueue-waits [] v q h x hx = h x hx
    enqueue-waits (f ∷ fs) v q h x hx = elim (Bool-cases (contains v f)) [
      | inl old ↦ along (enqueue_old f fs v q old) (enqueue-waits fs v q h x) hx
      | inr new ↦
          along (enqueue_fresh f fs v q new)
            (enqueue-waits fs (f ∷ v) (q ++ f ∷ [])
              (λ y hy. ground (arith, contains-append q (f ∷ []) y, h y, hy)) x)
            hx
    ]
      where
        along :
            {a b : List P × List P}
            → a ≡ b
            → (contains b.1 x ≡ true → contains b.0 x ≡ true)
            → contains a.1 x ≡ true
            → contains a.0 x ≡ true
        along eq k = subst (λ c. contains c.1 x ≡ true → contains c.0 x ≡ true) (sym eq) k

    IsSearch-step :
        (f : P) (v q : List P)
        → IsSearch v (f ∷ q)
        → IsSearch (enqueue (succs g.reverse f) (v, q)).0 (enqueue (succs g.reverse f) (v, q)).1
    IsSearch-step f v q s = record {
      started = λ x h. rw (enqueue-visited (succs g.reverse f) v q x, s.started x h);
      reached = λ x h. reached_next x h (Bool-cases (contains v x));
      waits =
          enqueue-waits (succs g.reverse f) v q
            (λ x h. s.waits x (unfold contains in ground (arith, h)));
      closed = λ x h. closed_next x h (Bool-cases (contains v x));
    }
      where
        importers : List P
        importers = succs g.reverse f

        at_front : contains (f ∷ q) f ≡ true
        at_front = unfold contains in rw (==_refl f)

        reached_next :
            (x : P)
            → contains (enqueue importers (v, q)).0 x ≡ true
            → (contains v x ≡ true) ⊎ (contains v x ≡ false)
            → Reaches g changed x
        reached_next x h (inl old) = s.reached x old
        reached_next x h (inr new) =
            step (s.reached f (s.waits f at_front))
              (ground (arith, mirror x f, enqueue-visited (succs g.reverse f) v q x, h, new))

        kept : (y : P) → contains v y ≡ true → contains (enqueue importers (v, q)).0 y ≡ true
        kept y h = rw (enqueue-visited importers v q y, h)

        closed_next :
            (x : P)
            → contains (enqueue importers (v, q)).0 x ≡ true
            → (contains v x ≡ true) ⊎ (contains v x ≡ false)
            → (contains (enqueue importers (v, q)).1 x ≡ true)
              ⊎ ((y : P)
                  → has_edge g.reverse x y ≡ true
                  → contains (enqueue importers (v, q)).0 y ≡ true)
        closed_next x h (inr new) = inl (enqueue-new importers v q x h new)
        closed_next x h (inl old) = elim (s.closed x old) [
          | inr all ↦ inr (λ y hy. kept y (all y hy))
          | inl waiting ↦ elim (==-cases f x) [
            | inr ne ↦
                inl
                  (enqueue-queued importers v q x (unfold contains in ground (arith, waiting, ne)))
            | inl eq ↦ inr (λ y hy.
                rw
                  (
                    enqueue-visited importers v q y,
                    subst (λ z. has_edge g.reverse z y ≡ true) (sym eq) hy,
                  )
                  (ground arith))
          ]
        ]

    search_from-IsSearch :
        (n : ℕ) (v q r : List P)
        → IsSearch v q
        → search_from g.reverse n (v, q) ≡ some r
        → IsSearch r []
    unfolding search_from
    search_from-IsSearch n v [] r s h = subst (λ l. IsSearch l []) (cc) s
    search_from-IsSearch zero v (f ∷ q) r s h = cc
    search_from-IsSearch (suc n) v (f ∷ q) r s h =
        search_from-IsSearch n _ _ r (IsSearch-step f v q s) h

    -- The initial loop queues the changed files.
    IsSearch-start : IsSearch (enqueue changed ([], [])).0 (enqueue changed ([], [])).1
    unfolding contains
    IsSearch-start = record {
      started = λ x h. rw (enqueue-visited changed [] [] x, h);
      reached = λ x h. start (rw (enqueue-visited changed [] [] x) at h);
      waits = enqueue-waits changed [] [] (λ x h. h);
      closed = λ x h. inl (enqueue-new changed [] [] x h refl);
    }

    extend_set-contains :
        (v fs : List P) (x : P) → contains (extend_set v fs) x ≡ (contains v x || contains fs x)
    unfolding extend_set contains
    extend_set-contains v [] x = ground arith
    extend_set-contains v (f ∷ fs) x =
        ground (arith, extend_set-contains (insert_set f v) fs x, contains-insert_set f v x)

    Reaches-visited :
        (r : List P) → IsSearch r [] → {x : P} → Reaches g changed x → contains r x ≡ true
    Reaches-visited r s (start h) = s.started _ h
    Reaches-visited r s (step {x = x} {y = y} d h) = elim (s.closed x (Reaches-visited r s d)) [
      | inl waiting ↦ absurd (unfold contains in false≢true waiting)
      | inr all ↦ all y (mirror y x ∙ h)
    ]

    known : List P
    known = changed ++ values g.reverse

    search_ends :
        (r : List P) × (search_from g.reverse (search_fuel g changed) (enqueue changed ([], []))
          ≡ some r)
    unfolding search_fuel known
    search_ends =
        search_from-ends g.reverse known
          (λ k x h.
            ground (
              arith,
              contains-append changed (values g.reverse) x,
              contains-values g.reverse k x h,
            ))
          (length known) (enqueue changed ([], [])).0 (enqueue changed ([], [])).1
          (omega (
            arith,
            enqueue_bound known changed [] []
                (λ x h. ground (arith, contains-append changed (values g.reverse) x, h)),
            unseen-le known [],
          ))

    -- For a graph whose two indexes agree, the search ends within its fuel, and a file is in the
    -- result exactly when it is one of the changed files, reaches one of them through any chain of the
    -- graph's import edges, or is itself always dirty. A file that only imports a file that is always
    -- dirty is left out.
    pub affected_files_iff :
        (r : List P) × (affected_files g changed ≡ some r)
        × ((x : P)
            → (contains r x ≡ true) ↔ (Reaches g changed x ⊎ (contains g.always_dirty x ≡ true)))
    unfolding affected_files
    affected_files_iff =
        let (v, found) = search_ends in
        let s = search_from-IsSearch (search_fuel g changed) _ _ v IsSearch-start found in
        (extend_set v g.always_dirty, rw (found, affected_files), λ x. (into v s x, out_of v s x))
      where
        into :
            (v : List P)
            → IsSearch v []
            → (x : P) → contains (extend_set v g.always_dirty) x ≡ true
            → Reaches g changed x ⊎ (contains g.always_dirty x ≡ true)
        into v s x h = elim (Bool-cases (contains v x)) [
          | inl visited ↦ inl (s.reached x visited)
          | inr missed ↦ inr (ground (arith, extend_set-contains v g.always_dirty x, h, missed))
        ]

        out_of :
            (v : List P)
            → IsSearch v []
            → (x : P) → Reaches g changed x ⊎ (contains g.always_dirty x ≡ true)
            → contains (extend_set v g.always_dirty) x ≡ true
        out_of v s x (inl d) =
            ground (arith, extend_set-contains v g.always_dirty x, Reaches-visited v s d)
        out_of v s x (inr h) = ground (arith, extend_set-contains v g.always_dirty x, h)
