-- ===== src/Tasks/Store/Steps.antt =====
-- Each method of the task manager on the two maps, and what it does to the board.
use abundance_protocol.Prelude.{
  sym, ◌∙◌, ◌⊎◌, ℕ, ◌≡◌, refl, true, false, Option, none, some, inl, inr, arith, Option-cases,
}
use abundance_protocol.Dict.{lookup, insert, erase, lookup-insert, lookup-erase}
use abundance_protocol.Tasks.{
  Task, Manager, Outcome, new_task, Requirements, assigned, running, verified, finish, post_task,
  options_task, post_options, accept_bid, assign_task, start_task, complete_task, verify_task,
  either,
}
use abundance_protocol.Tasks.Store.{
  Call, posts, posts_object, accepts, assigns, starts, completes, verifies, serve, put,
  while_active, change, view, spec, IsDisjoint,
}

-- the effect of a call, at one identifier
pub record Follows (poster : ℕ) (c : Call) (s s' : Manager) : Type 0 where
  pub disjoint : IsDisjoint s'
  pub viewed : (j : ℕ) → view s' j ≡ spec poster c (view s) j
  pub same_node : s'.node_id ≡ s.node_id

-- a task is posted under an identifier that is fresh
posted-Follows :
    (i : ℕ) (t : Task) (c : Call) (s : Manager)
    → ((j : ℕ) → spec s.node_id c (view s) j ≡ put i (some (true, t)) (view s) j)
    → IsDisjoint s
    → lookup i s.completed_task_objects ≡ none
    → Follows s.node_id c s (record s { active_tasks = insert i t s.active_tasks })
posted-Follows i t c s means h fresh = record {
  disjoint = λ j. ground (arith, h j, lookup-insert j i t s.active_tasks);
  viewed = λ j. shown j ∙ sym (means j);
  same_node = refl;
}
  where
    shown :
        (j : ℕ)
        → view (record s { active_tasks = insert i t s.active_tasks }) j
          ≡ put i (some (true, t)) (view s) j
    shown j = ground (arith, h j, lookup-insert j i t s.active_tasks)

pub serve_posts :
    (i d t : ℕ) (req : Option Requirements) (b now : ℕ) (s : Manager)
    → IsDisjoint s
    → lookup i s.completed_task_objects ≡ none
    → Follows s.node_id (posts i d t req b now) s (serve (posts i d t req b now) s)
unfolding serve post_task
serve_posts i d t req b now s =
    posted-Follows i (new_task i s.node_id d t req b now) (posts i d t req b now) s (λ j. refl)

pub serve_posts_object :
    (i : ℕ) (owner : Option ℕ) (req : Option Requirements) (b cpu now : ℕ) (s : Manager)
    → IsDisjoint s
    → lookup i s.completed_task_objects ≡ none
    → Follows s.node_id
        (posts_object i owner req b cpu now)
        s
        (serve (posts_object i owner req b cpu now) s)
unfolding serve post_options
serve_posts_object i owner req b cpu now s =
    posted-Follows i (options_task i s.node_id owner req b cpu now)
      (posts_object i owner req b cpu now) s (λ j. refl)

-- a change of an active task, in place
change_active :
    (i j : ℕ) (g : Task → Task) (s s' : Manager)
    → IsDisjoint s
    → s'.active_tasks ≡ (elim (lookup i s.active_tasks) [
      | none ↦ s.active_tasks
      | some t ↦ insert i (g t) s.active_tasks
    ])
    → s'.completed_task_objects ≡ s.completed_task_objects
    → ((lookup j s'.active_tasks ≡ none) ⊎ (lookup j s'.completed_task_objects ≡ none))
      × (view s' j ≡ put i (change (while_active g) (view s i)) (view s) j)
change_active i j g s s' h e c = elim (Option-cases (lookup i s.active_tasks)) [
  | inl missing ↦
      let e' : s'.active_tasks ≡ s.active_tasks = ground (arith, missing) in
      rw (e', c) (h j, ground (arith, missing))
  | inr (t, found) ↦
      let e' : s'.active_tasks ≡ insert i (g t) s.active_tasks = ground (arith, found) in
      rw (e', c)
        (
          ground (arith, h j, h i, found, lookup-insert j i (g t) s.active_tasks),
          ground (arith, h i, found, lookup-insert j i (g t) s.active_tasks),
        )
]

-- one task goes into the completed ones, and is taken from the active ones
complete_at :
    (i j : ℕ) (t t' : Task) (s s' : Manager)
    → IsDisjoint s
    → either (lookup i s.active_tasks) (lookup i s.completed_task_objects) ≡ some t
    → s'.active_tasks ≡ erase i s.active_tasks
    → s'.completed_task_objects ≡ insert i t' s.completed_task_objects
    → ((lookup j s'.active_tasks ≡ none) ⊎ (lookup j s'.completed_task_objects ≡ none))
      × (view s' j ≡ put i (some (false, t')) (view s) j)
complete_at i j t t' s s' h found a c =
    rw (a, c)
      (
        ground (
          arith,
          h j,
          lookup-erase j i s.active_tasks,
          lookup-insert j i t' s.completed_task_objects,
        ),
        ground (
          arith,
          h j,
          lookup-erase j i s.active_tasks,
          lookup-insert j i t' s.completed_task_objects,
        ),
      )

-- a change of a task that is not active
change_completed :
    (i j : ℕ) (t' : Task) (s s' : Manager)
    → IsDisjoint s
    → lookup i s.active_tasks ≡ none
    → s'.active_tasks ≡ s.active_tasks
    → s'.completed_task_objects ≡ insert i t' s.completed_task_objects
    → ((lookup j s'.active_tasks ≡ none) ⊎ (lookup j s'.completed_task_objects ≡ none))
      × (view s' j ≡ put i (some (false, t')) (view s) j)
change_completed i j t' s s' h idle a c =
    rw (a, c)
      (
        ground (arith, h j, idle, lookup-insert j i t' s.completed_task_objects),
        ground (arith, idle, lookup-insert j i t' s.completed_task_objects),
      )

Follows-active :
    (i : ℕ) (g : Task → Task) (c : Call) (s s' : Manager)
    → IsDisjoint s
    → ((j : ℕ)
        → spec s.node_id c (view s) j ≡ put i (change (while_active g) (view s i)) (view s) j)
    → s'.active_tasks ≡ (elim (lookup i s.active_tasks) [
      | none ↦ s.active_tasks
      | some t ↦ insert i (g t) s.active_tasks
    ])
    → s'.completed_task_objects ≡ s.completed_task_objects
    → s'.node_id ≡ s.node_id
    → Follows s.node_id c s s'
Follows-active i g c s s' h means e d n = record {
  disjoint = λ j. (change_active i j g s s' h e d).0;
  viewed = λ j. (change_active i j g s s' h e d).1 ∙ sym (means j);
  same_node = n;
}

pub serve_accepts :
    (i x : ℕ) (s : Manager)
    → IsDisjoint s
    → Follows s.node_id (accepts i x) s (serve (accepts i x) s)
unfolding serve accept_bid
serve_accepts i x s h =
    Follows-active i (λ t. record t { status = assigned }) (accepts i x) s (serve (accepts i x) s) h
      (λ j. refl) (ground (arith, Option-cases (lookup i s.active_tasks)))
      (ground (arith, Option-cases (lookup i s.active_tasks)))
      (ground (arith, Option-cases (lookup i s.active_tasks)))

pub serve_assigns :
    (i x : ℕ) (s : Manager)
    → IsDisjoint s
    → Follows s.node_id (assigns i x) s (serve (assigns i x) s)
unfolding serve assign_task
serve_assigns i x s h =
    Follows-active i (λ t. record t { status = assigned; assigned_to = some x }) (assigns i x) s
      (serve (assigns i x) s) h (λ j. refl) (ground (arith, Option-cases (lookup i s.active_tasks)))
      (ground (arith, Option-cases (lookup i s.active_tasks)))
      (ground (arith, Option-cases (lookup i s.active_tasks)))

pub serve_starts :
    (i x : ℕ) (s : Manager) → IsDisjoint s → Follows s.node_id (starts i x) s (serve (starts i x) s)
unfolding serve start_task
serve_starts i x s h =
    Follows-active i (λ t. record t { status = running; started_at = some x }) (starts i x) s
      (serve (starts i x) s) h (λ j. refl) (ground (arith, Option-cases (lookup i s.active_tasks)))
      (ground (arith, Option-cases (lookup i s.active_tasks)))
      (ground (arith, Option-cases (lookup i s.active_tasks)))

pub serve_completes :
    (i : ℕ) (o : Outcome) (now : ℕ) (s : Manager)
    → IsDisjoint s
    → Follows s.node_id (completes i o now) s (serve (completes i o now) s)
unfolding serve complete_task
serve_completes i o now s h =
    elim (Option-cases (either (lookup i s.active_tasks) (lookup i s.completed_task_objects))) [
      | inl missing ↦
          let same : serve (completes i o now) s ≡ s = ground (arith, missing) in
          rw same
            (record { disjoint = h; viewed = λ j. ground (arith, missing, h i); same_node = refl })
      | inr (t, found) ↦
          let s' = serve (completes i o now) s in
          let a : s'.active_tasks ≡ erase i s.active_tasks = ground (arith, found) in
          let c : s'.completed_task_objects ≡ insert i (finish o t) s.completed_task_objects =
            ground (arith, found) in
          record {
            disjoint = λ j. (complete_at i j t (finish o t) s s' h found a c).0;
            viewed = λ j.
                (complete_at i j t (finish o t) s s' h found a c).1 ∙ ground (arith, found, h i);
            same_node = ground (arith, found);
          }
    ]

pub serve_verifies :
    (i now : ℕ) (s : Manager)
    → IsDisjoint s
    → Follows s.node_id (verifies i now) s (serve (verifies i now) s)
unfolding serve verify_task
serve_verifies i now s h = elim (Option-cases (lookup i s.completed_task_objects)) [
  | inl missing ↦
      Follows-active i (λ t. record t { status = verified; verified_at = some now })
        (verifies i now) s (serve (verifies i now) s) h
        (λ j. ground (arith, missing, Option-cases (lookup i s.active_tasks)))
        (ground (arith, missing, Option-cases (lookup i s.active_tasks)))
        (ground (arith, missing, Option-cases (lookup i s.active_tasks)))
        (ground (arith, missing, Option-cases (lookup i s.active_tasks)))
  | inr (t, found) ↦
      let t' = record t { status = verified; verified_at = some now } in
      let s' = serve (verifies i now) s in
      let a : s'.active_tasks ≡ s.active_tasks = ground (arith, found) in
      let c : s'.completed_task_objects ≡ insert i t' s.completed_task_objects =
        ground (arith, found) in
      let idle : lookup i s.active_tasks ≡ none = ground (arith, found, h i) in
      record {
        disjoint = λ j. (change_completed i j t' s s' h idle a c).0;
        viewed = λ j. (change_completed i j t' s s' h idle a c).1 ∙ ground (arith, found, idle);
        same_node = ground (arith, found);
      }
]
