-- ===== src/Command/Apart.antt =====
-- crates/tryke/src/discovery.rs: paths of which none is below another.
use tryke.Prelude.{
  All, length, ◌≤◌, leb→le, ◌≡◌, refl, sym, subst, Bool, true, false, ◌||◌, List, [], ◌∷◌, ◌++◌,
  inl, inr, any, list_eq, nat_eq, Bool-cases, arith, append-nil, append_assoc,
}
use tryke.Prelude.Sort.{sort_by, insert_sorted, IsSorted}
use tryke.Paths.{component_eq}
use tryke.Paths.Operations.{PathBuf, starts_with}
use tryke.Command.{shorter, dedupe}

starts_with_refl : (p : PathBuf) → starts_with p p ≡ true
unfolding starts_with
starts_with_refl [] = refl
starts_with_refl (c ∷ p) = ground (arith, component_eq.beq_iff c c, starts_with_refl p)

-- A path is one of the roots or below one.
abbrev pub covered : List PathBuf → PathBuf → Bool
covered roots p = any (λ kept. starts_with kept p) roots

any-append : (f : PathBuf → Bool) (ps qs : List PathBuf) → any f (ps ++ qs) ≡ (any f ps || any f qs)
any-append f [] qs = refl
any-append f (p ∷ ps) qs = ground (arith, any-append f ps qs)

-- No path is below one that stands before it.
abbrev pub AreApart : List PathBuf → Type 0
AreApart [] = Unit
AreApart (r ∷ rs) = All (λ q. starts_with r q ≡ false) rs × AreApart rs

-- No path of the list is below another one.
abbrev pub AreDisjoint : List PathBuf → Type 0
AreDisjoint [] = Unit
AreDisjoint (r ∷ rs) =
    All (λ q. (starts_with r q ≡ false) × (starts_with q r ≡ false)) rs × AreDisjoint rs

All-snoc :
    (P : PathBuf → Type 0) (xs : List PathBuf) (x : PathBuf) → All P xs → P x → All P (xs ++ x ∷ [])
All-snoc P [] x h p = (p, tt)
All-snoc P (y ∷ ys) x h p = (h.0, All-snoc P ys x h.1 p)

AreApart-snoc :
    (rs : List PathBuf) (r : PathBuf) → AreApart rs → covered rs r ≡ false → AreApart (rs ++ r ∷ [])
AreApart-snoc [] r h e = (tt, tt)
AreApart-snoc (q ∷ rs) r h e = (
  All-snoc (λ k. starts_with q k ≡ false) rs r h.0 (ground (arith, e)),
  AreApart-snoc rs r h.1 (ground (arith, e)),
)

starts_with_trans :
    (k w p : PathBuf) → starts_with k w ≡ true → starts_with w p ≡ true → starts_with k p ≡ true
unfolding starts_with
starts_with_trans [] w p h e = refl
starts_with_trans (a ∷ k) [] p h e = absurd (ground (arith, h))
starts_with_trans (a ∷ k) (b ∷ w) [] h e = absurd (ground (arith, e))
starts_with_trans (a ∷ k) (b ∷ w) (c ∷ p) h e =
    ground (arith, h, e, component_eq.beq_iff a b, starts_with_trans k w p)

covered_below :
    (kept : List PathBuf) (w p : PathBuf)
    → covered kept w ≡ true
    → starts_with w p ≡ true
    → covered kept p ≡ true
covered_below [] w p h e = h
covered_below (k ∷ kept) w p h e =
    ground (arith, h, e, starts_with_trans k w p, covered_below kept w p)

pub dedupe-covered :
    (ws kept : List PathBuf) (p : PathBuf)
    → covered (dedupe kept ws) p ≡ (covered kept p || covered ws p)
unfolding dedupe
dedupe-covered [] kept p = ground arith
dedupe-covered (w ∷ ws) kept p = elim (Bool-cases (covered kept w)) [
  | inl below ↦ rw below (ground (arith, dedupe-covered ws kept p, covered_below kept w p below))
  | inr apart ↦ rw apart (
      ground (
        arith,
        dedupe-covered ws (kept ++ w ∷ []) p,
        any-append (λ k. starts_with k p) kept (w ∷ []),
      ))
]

pub dedupe-AreApart : (ws kept : List PathBuf) → AreApart kept → AreApart (dedupe kept ws)
unfolding dedupe
dedupe-AreApart [] kept h = h
dedupe-AreApart (w ∷ ws) kept h = elim (Bool-cases (covered kept w)) [
  | inl below ↦ rw below (dedupe-AreApart ws kept h)
  | inr apart ↦ rw apart (dedupe-AreApart ws (kept ++ w ∷ []) (AreApart-snoc kept w h apart))
]

-- What is left of a sorted list without one element is sorted.
All-without :
    (P : PathBuf → Type 0) (xs : List PathBuf) (x : PathBuf) (ys : List PathBuf)
    → All P (xs ++ x ∷ ys)
    → All P (xs ++ ys)
All-without P [] x ys h = h.1
All-without P (z ∷ xs) x ys h = (h.0, All-without P xs x ys h.1)

IsSorted-without :
    (xs : List PathBuf) (x : PathBuf) (ys : List PathBuf)
    → IsSorted shorter (xs ++ x ∷ ys)
    → IsSorted shorter (xs ++ ys)
IsSorted-without [] x ys h = h.1
IsSorted-without (z ∷ xs) x ys h = (All-without _ xs x ys h.0, IsSorted-without xs x ys h.1)

pub dedupe-IsSorted :
    (ws kept : List PathBuf) → IsSorted shorter (kept ++ ws) → IsSorted shorter (dedupe kept ws)
unfolding dedupe
dedupe-IsSorted [] kept h = subst (λ l. IsSorted shorter l) (append-nil kept) h
dedupe-IsSorted (w ∷ ws) kept h = elim (Bool-cases (covered kept w)) [
  | inl below ↦ rw below (dedupe-IsSorted ws kept (IsSorted-without kept w ws h))
  | inr apart ↦ rw apart (
      dedupe-IsSorted ws (kept ++ w ∷ [])
        (subst (λ l. IsSorted shorter l) (sym (append_assoc kept (w ∷ []) ws)) h))
]

-- A path that starts one of no more components is that one.
starts_with_shorter : (q r : PathBuf) → starts_with q r ≡ true → length r ≤ length q → q ≡ r
unfolding starts_with
starts_with_shorter [] [] h e = refl
starts_with_shorter [] (b ∷ r) h e = absurd (omega (arith, e))
starts_with_shorter (a ∷ q) [] h e = absurd (ground (arith, h))
starts_with_shorter (a ∷ q) (b ∷ r) h e =
    ground (arith, h, e, component_eq.beq_iff a b, starts_with_shorter q r)

apart_back :
    (r q : PathBuf) → starts_with r q ≡ false → shorter r q ≡ true → starts_with q r ≡ false
apart_back r q h e = elim (Bool-cases (starts_with q r)) [
  | inl back ↦ absurd (
      ground (
        arith,
        h,
        starts_with_refl r,
        starts_with_shorter q r back (leb→le (length r) (length q) e),
      ))
  | inr apart ↦ apart
]

All-both :
    (r : PathBuf) (qs : List PathBuf)
    → All (λ q. starts_with r q ≡ false) qs
    → All (λ q. shorter r q ≡ true) qs
    → All (λ q. (starts_with r q ≡ false) × (starts_with q r ≡ false)) qs
All-both r [] h e = tt
All-both r (q ∷ qs) h e = ((h.0, apart_back r q h.0 e.0), All-both r qs h.1 e.1)

pub AreApart-AreDisjoint : (rs : List PathBuf) → AreApart rs → IsSorted shorter rs → AreDisjoint rs
AreApart-AreDisjoint [] h e = tt
AreApart-AreDisjoint (r ∷ rs) h e = (All-both r rs h.0 e.0, AreApart-AreDisjoint rs h.1 e.1)

pub shorter_total : (p q : PathBuf) → shorter p q ≡ false → shorter q p ≡ true
shorter_total p q h = ground (arith, h)

pub shorter_trans : (p q r : PathBuf) → shorter p q ≡ true → shorter q r ≡ true → shorter p r ≡ true
shorter_trans p q r h e = ground (arith, h, e)

any-insert_sorted :
    (f : PathBuf → Bool) (x : PathBuf) (xs : List PathBuf)
    → any f (insert_sorted shorter x xs) ≡ (f x || any f xs)
any-insert_sorted f x [] = refl
any-insert_sorted f x (y ∷ ys) = ground (arith, any-insert_sorted f x ys)

pub any-sort_by : (f : PathBuf → Bool) (xs : List PathBuf) → any f (sort_by shorter xs) ≡ any f xs
any-sort_by f [] = refl
any-sort_by f (x ∷ xs) =
    ground (arith, any-insert_sorted f x (sort_by shorter xs), any-sort_by f xs)
