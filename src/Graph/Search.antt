-- ===== src/Graph/Search.antt =====
-- crates/tryke_discovery/src/filesystem/import_graph.rs: the breadth-first search ends within its
-- fuel, and what it has visited when it ends.
use tryke.Prelude.{
  ℕ, zero, suc, ◌+◌, ◌≤◌, ◌≡◌, refl, inl, inr, true, false, not, ◌||◌, List, [], ◌∷◌, ◌++◌, some,
  contains, contains-append, Eq, ==_refl, Bool-cases, filter, length, length-append,
  length-filter-le, arith,
}
use tryke.Graph.Maps.{Map, succs}
use tryke.Graph.{enqueue, search_from}
use tryke.Graph.Mirror.{has_edge}

module _ {P : Type 0} ⦃e : Eq P⦄ where
  -- The visited set grows by the given files, and the queue by those that are new.
  pub enqueue-visited :
      (fs v q : List P) (x : P) → contains (enqueue fs (v, q)).0 x ≡ (contains v x || contains fs x)
  unfolding enqueue contains
  enqueue-visited [] v q x = ground arith
  enqueue-visited (f ∷ fs) v q x =
      ground
        (arith, e.beq_iff f x, enqueue-visited fs v q x, enqueue-visited fs (f ∷ v) (q ++ f ∷ []) x)

  pub enqueue-queued :
      (fs v q : List P) (x : P) → contains q x ≡ true → contains (enqueue fs (v, q)).1 x ≡ true
  unfolding enqueue contains
  enqueue-queued [] v q x h = h
  enqueue-queued (f ∷ fs) v q x h = ground (
    arith,
    enqueue-queued fs v q x,
    enqueue-queued fs (f ∷ v) (q ++ f ∷ []) x,
    contains-append q (f ∷ []) x,
  )

  pub enqueue-new :
      (fs v q : List P) (x : P)
      → contains (enqueue fs (v, q)).0 x ≡ true
      → contains v x ≡ false
      → contains (enqueue fs (v, q)).1 x ≡ true
  unfolding enqueue contains
  enqueue-new [] v q x h n = ground arith
  enqueue-new (f ∷ fs) v q x h n = ground (
    arith,
    enqueue-new fs v q x,
    enqueue-new fs (f ∷ v) (q ++ f ∷ []) x,
    enqueue-queued fs (f ∷ v) (q ++ f ∷ []) x,
    contains-append q (f ∷ []) x,
  )

  -- How many of the known files are not visited.
  pub unseen : List P → List P → ℕ
  unseen known v = length (filter (λ x. not (contains v x)) known)

  pub unseen-le : (known v : List P) → unseen known v ≤ length known
  unfolding unseen
  unseen-le known v = length-filter-le (λ x. not (contains v x)) known

  unseen_mono : (known v : List P) (f : P) → unseen known (f ∷ v) ≤ unseen known v
  unfolding unseen contains
  unseen_mono [] v f = omega arith
  unseen_mono (k ∷ known) v f = ground (arith, unseen_mono known v f)

  unseen-cons :
      (known v : List P) (f : P)
      → contains known f ≡ true
      → contains v f ≡ false
      → suc (unseen known (f ∷ v)) ≤ unseen known v
  unfolding unseen contains
  unseen-cons [] v f h n = cc
  unseen-cons (k ∷ known) v f h n =
      ground (arith, e.beq_iff k f, e.beq_iff f k, unseen-cons known v f, unseen_mono known v f)

  pub enqueue_old :
      (f : P) (fs v q : List P) → contains v f ≡ true → enqueue (f ∷ fs) (v, q) ≡ enqueue fs (v, q)
  unfolding enqueue
  enqueue_old f fs v q h = ground (arith, h)

  pub enqueue_fresh :
      (f : P) (fs v q : List P)
      → contains v f ≡ false
      → enqueue (f ∷ fs) (v, q) ≡ enqueue fs (f ∷ v, q ++ f ∷ [])
  unfolding enqueue
  enqueue_fresh f fs v q h = ground (arith, h)

  -- Each file that enters the queue leaves the unvisited ones.
  pub enqueue_bound :
      (known fs v q : List P)
      → ((x : P) → contains fs x ≡ true → contains known x ≡ true)
      → unseen known (enqueue fs (v, q)).0 + length (enqueue fs (v, q)).1
        ≤ unseen known v + length q
  unfolding contains
  enqueue_bound known [] v q h = unfold enqueue in omega arith
  enqueue_bound known (f ∷ fs) v q h =
      let rest : (x : P) → contains fs x ≡ true → contains known x ≡ true =
        λ x hx. h x (ground (arith, hx)) in
      elim (Bool-cases (contains v f)) [
        | inl old ↦ rw (enqueue_old f fs v q old) (enqueue_bound known fs v q rest)
        | inr new ↦ rw (enqueue_fresh f fs v q new) (
            omega (
              arith,
              enqueue_bound known fs (f ∷ v) (q ++ f ∷ []) rest,
              unseen-cons known v f (h f (rw (==_refl f))) new,
              length-append {0} q (f ∷ []),
            ))
      ]

  pub search_from-ends :
      (reverse : Map P) (known : List P)
      → ((k x : P) → has_edge reverse k x ≡ true → contains known x ≡ true)
      → (n : ℕ) (v q : List P) → unseen known v + length q ≤ n
      → (r : List P) × (search_from reverse n (v, q) ≡ some r)
  unfolding search_from
  search_from-ends reverse known h n v [] hn = (v, refl)
  search_from-ends reverse known h zero v (f ∷ q) hn = absurd (omega arith)
  search_from-ends reverse known h (suc n) v (f ∷ q) hn =
      let next = enqueue (succs reverse f) (v, q) in
      search_from-ends reverse known h n next.0 next.1
        (omega (arith, enqueue_bound known (succs reverse f) v q (h f)))
