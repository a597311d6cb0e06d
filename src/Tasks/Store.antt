-- ===== src/Tasks/Store.antt =====
-- The two maps of tasks against one map of tasks.
pub mod Steps
pub mod Refinement
use abundance_protocol.Prelude.{
  sym, ◌∙◌, ◌⊎◌, ℕ, ◌≡◌, ◌≢◌, refl, Bool, true, false, Option, none, some, inl, inr, List, [], ◌∷◌,
  arith, ◌==◌, if◌then◌else◌, Option-cases,
}
use abundance_protocol.Dict.{Dict, lookup, insert, erase, lookup-insert, lookup-erase}
use abundance_protocol.Result.{Result, ok, err}
use abundance_protocol.Tasks.{
  Task, Manager, Outcome, new_task, TaskError, Requirements, assigned, running, verified, finish,
  options_task, post_options, post_task, accept_bid, assign_task, start_task, complete_task,
  verify_task, get_task_by_id, either,
}

pub data Call : Type 0 where
  posts : ℕ → ℕ → ℕ → Option Requirements → ℕ → ℕ → Call
  posts_object : ℕ → Option ℕ → Option Requirements → ℕ → ℕ → ℕ → Call
  accepts : ℕ → ℕ → Call
  assigns : ℕ → ℕ → Call
  starts : ℕ → ℕ → Call
  completes : ℕ → Outcome → ℕ → Call
  verifies : ℕ → ℕ → Call

-- A call that throws changes nothing.
abbrev pub kept : Manager → Result TaskError Manager → Manager
kept s (ok s') = s'
kept s (err _) = s

unfoldable pub serve : Call → Manager → Manager
serve (posts i description type req budget now) s =
    (post_task i description type req budget now s).1
serve (posts_object i owner req budget cpu now) s = (post_options i owner req budget cpu now s).1
serve (accepts i worker) s = accept_bid i worker s
serve (assigns i worker) s = kept s (assign_task i worker s)
serve (starts i now) s = kept s (start_task i now s)
serve (completes i outcome now) s = kept s (complete_task i outcome now s)
serve (verifies i now) s = kept s (verify_task i now s)

unfoldable pub run : List Call → Manager → Manager
run [] s = s
run (c ∷ cs) s = run cs (serve c s)

-- The specification: one map from identifiers to tasks, each marked while it is active.
abbrev pub Board : Type 0
Board = ℕ → Option (Bool × Task)

abbrev pub put : ℕ → Option (Bool × Task) → Board → Board
put i v b j = if i == j then v else b j

abbrev pub while_active : (Task → Task) → Bool × Task → Bool × Task
while_active g (true, t) = (true, g t)
while_active g (false, t) = (false, t)

abbrev pub change : (Bool × Task → Bool × Task) → Option (Bool × Task) → Option (Bool × Task)
change g none = none
change g (some x) = some (g x)

abbrev pub view : Manager → Board
view s j = elim (lookup j s.active_tasks) [
  | some t ↦ some (true, t)
  | none ↦ elim (lookup j s.completed_task_objects) [ some t ↦ some (false, t) | none ↦ none ]
]

-- What each call does to the board; `poster` is the node.
abbrev pub spec : ℕ → Call → Board → Board
spec poster (posts i description type req budget now) b =
    put i (some (true, new_task i poster description type req budget now)) b
spec poster (posts_object i owner req budget cpu now) b =
    put i (some (true, options_task i poster owner req budget cpu now)) b
spec poster (accepts i worker) b =
    put i (change (while_active (λ t. record t { status = assigned })) (b i)) b
spec poster (assigns i worker) b =
    put i
      (change (while_active (λ t. record t { status = assigned; assigned_to = some worker })) (b i))
      b
spec poster (starts i now) b =
    put i (change (while_active (λ t. record t { status = running; started_at = some now })) (b i))
      b
spec poster (completes i outcome now) b =
    put i (change (λ (_, t). (false, finish outcome t)) (b i)) b
spec poster (verifies i now) b =
    put i (change (λ (a, t). (a, record t { status = verified; verified_at = some now })) (b i)) b

-- No task is in both maps.
abbrev pub IsDisjoint : Manager → Type 0
IsDisjoint s =
    (i : ℕ) → (lookup i s.active_tasks ≡ none) ⊎ (lookup i s.completed_task_objects ≡ none)

-- A task is posted under an identifier that no completed task has.
abbrev pub IsFresh : Call → Manager → Type 0
IsFresh (posts i _ _ _ _ _) s = lookup i s.completed_task_objects ≡ none
IsFresh (posts_object i _ _ _ _ _) s = lookup i s.completed_task_objects ≡ none
IsFresh _ s = Unit

-- Every identifier is fresh when its task is posted.
abbrev pub AreFresh : List Call → Manager → Type 0
AreFresh [] s = Unit
AreFresh (c ∷ cs) s = IsFresh c s × AreFresh cs (serve c s)

abbrev pub spec_run : ℕ → List Call → Board → Board
spec_run poster [] b = b
spec_run poster (c ∷ cs) b = spec_run poster cs (spec poster c b)
