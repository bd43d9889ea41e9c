-- ===== src/Pool/Knowing.antt =====
-- crates/tryke_runner/src/pool.rs: what a process has registered, and that a process which
-- `ensure_worker` hands out has registered all cached hooks.
use tryke.Prelude.{
  ℕ, ◌⊎◌, inl, inr, ◌≡◌, refl, sym, subst, ◌∙◌, Bool, true, false, Option, none, some, [], ◌∷◌,
  Text, Bool-cases, arith, length, All, All-mono, Member, ◌==◌, list_eq, nat_eq,
}
use tryke.Prelude.Dict.{Dict, insert}
use tryke.Pool.Wire.{RegisterHooksParams, Outside, Event, Log, registered, spawned}
use tryke.Pool.Worker.{Task, note, replay, adopt, spawn_with, ensure_with, ensure_worker}

abbrev pub Cache : Type 0
Cache = Dict Text RegisterHooksParams

-- The process has accepted the entry's hooks, or they are the ones that are about to be registered.
abbrev pub Knows : ℕ → Log → Option RegisterHooksParams → Text × RegisterHooksParams → Type 0
Knows process log pending (m, params) =
    (pending ≡ some params) ⊎ Member (registered process params none) log

abbrev pub ReadyFor : Option RegisterHooksParams → Option ℕ → Cache → Log → Type 0
ReadyFor pending none cache log = Unit
ReadyFor pending (some process) cache log = All (Knows process log pending) cache

-- The process of the task, if there is one, has accepted all cached hooks.
abbrev pub IsReady : Task → Type 0
IsReady task = ReadyFor none task.state.process task.state.hook_cache task.log

pub ReadyFor-grow :
    (pending : Option RegisterHooksParams) (process : Option ℕ) (cache : Cache) (e : Event)
    (log : Log)
    → ReadyFor pending process cache log
    → ReadyFor pending process cache (e ∷ log)
ReadyFor-grow pending none cache e log h = tt
ReadyFor-grow pending (some p) cache e log h = All-mono (λ entry k. ground (arith, k)) cache h

-- What is known with nothing pending is known in any case.
pub Knows-pending :
    (process : ℕ) (log : Log) (pending : Option RegisterHooksParams)
    → (entry : Text × RegisterHooksParams) → Knows process log none entry
    → Knows process log pending entry
Knows-pending process log pending entry (inl e) = cc
Knows-pending process log pending entry (inr m) = inr m

pub Knows-settle :
    (process : ℕ) (log : Log) (params : RegisterHooksParams)
    → (entry : Text × RegisterHooksParams) → Knows process log (some params) entry
    → Knows process (registered process params none ∷ log) none entry
Knows-settle process log params entry (inl e) = inr (inl (cc))
Knows-settle process log params entry (inr m) = inr (inr m)

pub insert-Knows :
    (process : ℕ) (params : RegisterHooksParams) (log : Log) (m : Text) (cache : Cache)
    → All (Knows process log none) cache
    → All (Knows process log (some params)) (insert m params cache)
unfolding insert
insert-Knows process params log m [] h = (inl refl, tt)
insert-Knows process params log m ((j, v) ∷ cache) h = elim (Bool-cases (j == m)) [
  | inl e ↦ rw e (inl refl, All-mono (Knows-pending process log (some params)) cache h.1)
  | inr e ↦ rw e (
    Knows-pending process log (some params) (j, v) h.0,
    insert-Knows process params log m cache h.1,
  )
]

-- What `replay` and `ensure_worker` leave as it was.
abbrev pub SameCache : Task → Task → Type 0
SameCache task next = next.state.hook_cache ≡ task.state.hook_cache

abbrev pub ReadyBut : Option RegisterHooksParams → Task → Type 0
ReadyBut pending task = ReadyFor pending task.state.process task.state.hook_cache task.log

-- What `ensure_worker` makes of a task.
abbrev pub Ensured : Option RegisterHooksParams → Task → Option ℕ × Task → Type 0
Ensured pending task (process, next) =
    ReadyBut pending next × (next.state.process ≡ process) × SameCache task next

module _ (outside : Outside) where
  replay-grows :
      (process : ℕ) (cached : Cache) (task : Task) (e : Event)
      → Member e task.log
      → Member e (replay outside process cached task).1.log
  unfolding replay
  replay-grows process [] task e h = h
  replay-grows process ((m, params) ∷ cached) task e h =
      let reply = outside.register_error task.log process params in
      ground (arith, replay-grows process cached (note (registered process params reply) task) e)

  replay-SameCache :
      (process : ℕ) (cached : Cache) (task : Task)
      → SameCache task (replay outside process cached task).1
        × ((replay outside process cached task).1.state.process ≡ task.state.process)
  unfolding replay
  replay-SameCache process [] task = (refl, refl)
  replay-SameCache process ((m, params) ∷ cached) task =
      let reply = outside.register_error task.log process params in
      ground (arith, replay-SameCache process cached (note (registered process params reply) task))

  -- A replay that comes to its end has registered all entries.
  replay-Knows :
      (process : ℕ) (cached : Cache) (task : Task)
      → (replay outside process cached task).0 ≡ true
      → All (Knows process (replay outside process cached task).1.log none) cached
  unfolding replay
  replay-Knows process [] task h = tt
  replay-Knows process ((m, params) ∷ cached) task h =
      let reply = outside.register_error task.log process params in
      let next = note (registered process params reply) task in
      ground (
        arith,
        replay-Knows process cached next,
        replay-grows process cached next (registered process params none),
      )

  adopt-Ensured :
      (pending : Option RegisterHooksParams) (process : ℕ) (finished : Bool) (task after : Task)
      → (finished ≡ true → All (Knows process after.log none) task.state.hook_cache)
      → SameCache task after × (after.state.process ≡ none)
      → Ensured pending task (adopt outside process (finished, after))
  adopt-Ensured pending process true task after known same = (
    subst (All (Knows process after.log pending)) (sym same.0)
        (All-mono (Knows-pending process after.log pending) task.state.hook_cache (known refl)),
    refl,
    same.0,
  )
  adopt-Ensured pending process false task after known same = (rw same.1 tt, same.1, same.0)

  spawn_with-Ensured :
      (pending : Option RegisterHooksParams) (reply : Option Text) (task : Task)
      → task.state.process ≡ none
      → Ensured pending task (spawn_with outside reply task)
  spawn_with-Ensured pending (some err) task free = (rw free tt, free, refl)
  spawn_with-Ensured pending none task free =
      let process = length task.log in
      let next = note (spawned process) task in
      let (finished, after) = replay outside process task.state.hook_cache next in
      let (same, kept) = replay-SameCache process task.state.hook_cache next in
      adopt-Ensured pending process finished task after
        (replay-Knows process task.state.hook_cache next) (same, kept ∙ free)

  ensure_with-Ensured :
      (pending : Option RegisterHooksParams) (process : Option ℕ) (task : Task)
      → task.state.process ≡ process
      → ReadyBut pending task
      → Ensured pending task (ensure_with outside process task)
  ensure_with-Ensured pending (some p) task e h = (h, e, refl)
  ensure_with-Ensured pending none task e h = spawn_with-Ensured pending _ task e

  pub ensure_worker-Ensured :
      (pending : Option RegisterHooksParams) (task : Task)
      → ReadyBut pending task
      → Ensured pending task (ensure_worker outside task)
  unfolding ensure_worker
  ensure_worker-Ensured pending task h = ensure_with-Ensured pending task.state.process task refl h
