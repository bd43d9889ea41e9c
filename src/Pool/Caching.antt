-- ===== src/Pool/Caching.antt =====
-- crates/tryke_runner/src/pool.rs: what registering a unit's hooks leaves in the cache.
use tryke.Prelude.{
  ==_refl, ==-cases, contains, contains-distinct, ℕ, ◌⊎◌, inl, inr, ◌≡◌, refl, sym, subst, ◌∙◌,
  Bool, true, false, Option, none, some, List, [], ◌∷◌, map, Text, is_empty, if◌then◌else◌,
  Bool-cases, not, arith, All, All-mono, Member, ◌==◌, list_eq, nat_eq,
}
use tryke.Prelude.Dict.{get, insert, get-insert}
use tryke.Types.{TestItem, HookItem}
use tryke.Schedule.Units.{WorkUnit}
use tryke.Pool.Wire.{RegisterHooksParams, Outside, Log, registered}
use tryke.Pool.Worker.{
  modules_of, Task, cache_hooks, module_params, accepted, ensure_worker, register_with,
  register_module, register_modules, register_hooks_for_unit, prepare,
}
use tryke.Pool.Knowing.{Cache, Knows, IsReady, SameCache, ensure_worker-Ensured}
use tryke.Pool.Ready.{cache_hooks-ReadyBut, register_module-IsReady}

-- Whether the unit with these hooks has any for the module.
abbrev pub has_hooks : List HookItem → Text → Bool
has_hooks hooks m = not (is_empty (module_params hooks m).hooks)

-- The cache has the unit's hooks for the module, if it has any.
abbrev pub Cached : List HookItem → Cache → Text → Type 0
Cached hooks cache m = has_hooks hooks m ≡ true → get m cache ≡ some (module_params hooks m)

pub get-Knows :
    (process : ℕ) (log : Log) (cache : Cache) (m : Text) (params : RegisterHooksParams)
    → All (Knows process log none) cache
    → get m cache ≡ some params
    → Member (registered process params none) log
unfolding get
get-Knows process log [] m params known e = cc
get-Knows process log ((j, v) ∷ cache) m params known e = elim (Bool-cases (j == m)) [
  | inl at_m ↦
      let found : some v ≡ some params = rw at_m at e in
      subst (λ w. Member (registered process w none) log) {x = v} (cc) (ground (arith, known.0))
  | inr past ↦ get-Knows process log cache m params known.1 (rw past at e)
]

-- What `register_module` makes of the cache.
abbrev registers : List HookItem → Text → Cache → Cache
registers hooks m cache =
    if is_empty (module_params hooks m).hooks then cache else insert m (module_params hooks m) cache

registers-Cached_here :
    (hooks : List HookItem) (m : Text) (cache : Cache) → Cached hooks (registers hooks m cache) m
registers-Cached_here hooks m cache some_hook =
    let e : is_empty (module_params hooks m).hooks ≡ false = ground (arith, some_hook) in
    rw e (get-insert m m (module_params hooks m) cache ∙ rw (==_refl m) refl)

registers-Cached :
    (hooks : List HookItem) (m k : Text) (cache : Cache)
    → ((m == k) ≡ true) ⊎ Cached hooks cache k
    → Cached hooks (registers hooks m cache) k
registers-Cached hooks m k cache h some_hook = elim (==-cases m k) [
  | inl eq ↦
      subst (λ j. Cached hooks (registers hooks m cache) j) eq (registers-Cached_here hooks m cache)
        some_hook
  | inr apart ↦
      let before : get k cache ≡ some (module_params hooks k) =
        ground (arith, h, apart, some_hook) in
      ground (arith, get-insert m k (module_params hooks m) cache, before, apart)
]

module _ (outside : Outside) (hooks : List HookItem) where
  accepted-SameCache :
      (process : ℕ) (params : RegisterHooksParams) (reply : Option Text) (task : Task)
      → SameCache task (accepted outside process params reply task)
  accepted-SameCache process params none task = refl
  accepted-SameCache process params (some err) task = refl

  register_with-SameCache :
      (params : RegisterHooksParams) (process : Option ℕ) (task : Task)
      → SameCache task (register_with outside params (process, task))
  register_with-SameCache params none task = refl
  register_with-SameCache params (some p) task = accepted-SameCache p params _ task

  register_module-cache :
      (m : Text) (task : Task)
      → IsReady task
      → (register_module outside hooks m task).state.hook_cache ≡ (
          if is_empty (module_params hooks m).hooks
          then task.state.hook_cache
          else insert m (module_params hooks m) task.state.hook_cache)
  unfolding register_module
  register_module-cache m task ready =
      let params = module_params hooks m in
      let cached = cache_hooks params task in
      let pending =
        cache_hooks-ReadyBut outside params task.state.process task.state.hook_cache task.log
          ready in
      let (process, next) = ensure_worker outside cached in
      let same : SameCache cached next =
        (ensure_worker-Ensured outside (some params) cached pending).2 in
      elim (Bool-cases (is_empty params.hooks)) [
        | inl e ↦ rw e refl
        | inr e ↦ rw e (register_with-SameCache params process next ∙ same)
      ]

  -- Registering leaves the unit's hooks of the modules in the cache.
  register_module-Cached :
      (m k : Text) (task : Task)
      → IsReady task
      → ((m == k) ≡ true) ⊎ Cached hooks task.state.hook_cache k
      → Cached hooks (register_module outside hooks m task).state.hook_cache k
  register_module-Cached m k task ready h =
      subst (λ c. Cached hooks c k) (sym (register_module-cache m task ready))
        (registers-Cached hooks m k task.state.hook_cache h)

  register_modules-Cached :
      (ms : List Text) (k : Text) (task : Task)
      → IsReady task
      → (contains ms k ≡ true) ⊎ Cached hooks task.state.hook_cache k
      → Cached hooks (register_modules outside hooks ms task).state.hook_cache k
  unfolding register_modules contains
  register_modules-Cached [] k task ready (inl h) = cc
  register_modules-Cached [] k task ready (inr h) = h
  register_modules-Cached (m ∷ ms) k task ready h =
      register_modules-Cached ms k (register_module outside hooks m task)
        (register_module-IsReady outside hooks m task ready) (now h)
    where
      now :
          (contains (m ∷ ms) k ≡ true) ⊎ Cached hooks task.state.hook_cache k
          → (contains ms k ≡ true)
            ⊎ Cached hooks (register_module outside hooks m task).state.hook_cache k
      now (inr before) = inr (register_module-Cached m k task ready (inr before))
      now (inl among) = elim (Bool-cases (m == k)) [
        | inl e ↦ inr (register_module-Cached m k task ready (inl e))
        | inr e ↦ inl (ground (arith, among, e))
      ]

has_hooks-empty :
    (hooks : List HookItem) (m : Text) → is_empty hooks ≡ true → has_hooks hooks m ≡ false
unfolding module_params
has_hooks-empty [] m e = refl
has_hooks-empty (h ∷ hooks) m e = cc

contains-modules :
    (ts : List TestItem) → All (λ t. contains (map (λ u. u.module_path) ts) t.module_path ≡ true) ts
unfolding contains
contains-modules [] = tt
contains-modules (t ∷ ts) =
    (rw (==_refl t.module_path) refl, All-mono (λ u h. ground (arith, h)) ts (contains-modules ts))

modules_of-contains :
    (ts : List TestItem) → All (λ t. contains (modules_of ts) t.module_path ≡ true) ts
modules_of-contains ts =
    All-mono (λ t h. contains-distinct (map (λ u. u.module_path) ts) t.module_path ∙ h) ts
      (contains-modules ts)

module _ (outside : Outside) where
  pub prepare-Cached :
      (u : WorkUnit) (task : Task)
      → IsReady task
      → All (λ t. Cached u.hooks (prepare outside u task).state.hook_cache t.module_path) u.tests
  unfolding prepare register_hooks_for_unit
  prepare-Cached u task ready = elim (Bool-cases (is_empty u.hooks)) [
    | inl e ↦
        All-mono (λ t _ some_hook. absurd (cc (some_hook, has_hooks-empty u.hooks t.module_path e)))
          u.tests (modules_of-contains u.tests)
    | inr e ↦ rw e (
        All-mono
          (λ t among.
            register_modules-Cached outside u.hooks (modules_of u.tests) t.module_path task ready
              (inl among))
          u.tests (modules_of-contains u.tests))
  ]
