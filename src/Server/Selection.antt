-- ===== src/Server/Selection.antt =====
-- crates/tryke_server/src/handler.rs: which tests a run request selects.
use tryke.Prelude.{
  ◌≡◌, ◌↔◌, Option, none, some, contains, refl, ◌∙◌, sym, Bool, true, ◌&&◌, List, [], ◌∷◌, Text,
  filter, unwrap_or, list_eq, nat_eq, arith,
}
use tryke.Types.{TestItem, id}
use tryke.Filter.Syntax.{Result, ok, err, out_of_fuel}
use tryke.Filter.Matching.{TestFilter, from_args, matches}
use tryke.Filter.Matches.{apply-filter}
use tryke.Server.Protocol.{RunParams}
use tryke.Server.Handler.{select_tests, wanted_by, filtered_by}

module _ (to_lowercase : Text → Text) where
  -- Whether a filter, where the arguments of the request make one, keeps the test.
  abbrev pub passes : Result TestFilter → TestItem → Bool
  passes (ok f) test = matches to_lowercase f test
  passes _ test = true

  filter-filter_and :
      (p q : TestItem → Bool) (ts : List TestItem)
      → filter q (filter p ts) ≡ filter (λ t. p t && q t) ts
  filter-filter_and p q [] = refl
  filter-filter_and p q (t ∷ ts) = ground (arith, filter-filter_and p q ts)

  filter_true : (ts : List TestItem) → filter (λ t. true) ts ≡ ts
  filter_true [] = refl
  filter_true (t ∷ ts) = ground (arith, filter_true ts)

  filtered_by-eq :
      (r : Result TestFilter) (ts : List TestItem)
      → filtered_by to_lowercase r ts ≡ filter (passes r) ts
  filtered_by-eq (ok f) ts = apply-filter to_lowercase f ts
  filtered_by-eq (err e) ts = sym (filter_true ts)
  filtered_by-eq out_of_fuel ts = sym (filter_true ts)

  abbrev pub IsListed : Option (List Text) → Text → Type 0
  IsListed none i = Unit
  IsListed (some ids) i = contains ids i ≡ true

  abbrev pub Fits : Result TestFilter → TestItem → Type 0
  Fits (ok f) t = matches to_lowercase f t ≡ true
  Fits _ t = Unit

  wanted_by-IsListed :
      (o : Option (List Text)) (t : TestItem) → (wanted_by o t ≡ true) ↔ IsListed o (id t)
  wanted_by-IsListed none t = (λ h. tt, λ h. refl)
  wanted_by-IsListed (some ids) t = (λ h. h, λ h. h)

  passes-Fits : (r : Result TestFilter) (t : TestItem) → (passes r t ≡ true) ↔ Fits r t
  passes-Fits (ok f) t = (λ h. h, λ h. h)
  passes-Fits (err e) t = (λ h. tt, λ h. refl)
  passes-Fits out_of_fuel t = (λ h. tt, λ h. refl)

  -- A run request selects tests by a condition of its own, in the order in which they are given and
  -- each as often as it is given: where the request lists ids, and be it none, the test's id is
  -- among them; and where the request's paths, filter and markers make a filter, it matches the test.
  pub select_tests-filter :
      (params : RunParams)
      → (keep : TestItem → Bool) × ((ts : List TestItem)
          → select_tests to_lowercase params ts ≡ filter keep ts)
        × ((t : TestItem)
            → (keep t ≡ true) ↔ (
                IsListed params.tests (id t)
                × Fits (from_args (unwrap_or params.paths []) params.filter params.markers) t))
  unfolding select_tests
  select_tests-filter params =
      let r = from_args (unwrap_or params.paths []) params.filter params.markers in
      (
        λ t. wanted_by params.tests t && passes r t,
        λ ts.
            filtered_by-eq r (filter (wanted_by params.tests) ts)
            ∙ filter-filter_and (wanted_by params.tests) _ ts,
        λ t. (
          λ h. (
            (wanted_by-IsListed params.tests t).0 (ground (arith, h)),
            (passes-Fits r t).0 (ground (arith, h)),
          ),
          λ h.
              let listed = (wanted_by-IsListed params.tests t).1 h.0 in
              let fits = (passes-Fits r t).1 h.1 in ground (arith, listed, fits),
        ),
      )
