-- ===== src/Tasks.antt =====
-- src/tasks/manager.ts, class TaskManager. A task object is in one of the two maps of tasks at a time
-- and is changed in place there. Identifiers that randomUUID makes and the clock are arguments.
-- `payment` and the seconds of a task, which nothing here reads again, and the events that are
-- published on the bus stay out. In requirements 0 and `false` stand for what is
-- missing, which the code treats alike.
pub mod Matching
pub mod Store
use abundance_protocol.Prelude.{
  ℕ, ◌+◌, ◌*◌, Bool, true, false, Option, none, some, List, ltb, ◌==◌, ◌&&◌, ◌||◌, if◌then◌else◌,
}
use abundance_protocol.Dict.{Dict, lookup, insert, erase, values}
use abundance_protocol.Result.{Result, ok, err}

pub data TaskStatus : Type 0 where
  posted opened assigned running completed verified : TaskStatus

pub record Requirements : Type 0 where
  pub min_cpu : ℕ
  pub min_cpu_cores : ℕ
  pub min_memory : ℕ
  pub min_memory_mb : ℕ
  pub min_gpu : Bool
  pub min_gpu_vram : ℕ
  pub gpu : Bool
  pub gpu_memory : ℕ

pub record Gpu : Type 0 where
  pub vram : Option ℕ

pub record Capabilities : Type 0 where
  pub cores : Option ℕ
  pub memory : Option ℕ
  pub gpu : Option Gpu

pub record Task : Type 0 where
  pub task_id : ℕ
  pub poster_id : ℕ
  pub type : ℕ
  pub description : ℕ
  pub requirements : Option Requirements
  pub budget : ℕ
  pub status : TaskStatus
  pub created_at : ℕ
  pub assigned_to : Option ℕ
  pub started_at : Option ℕ
  pub result_hash : Option ℕ
  pub verified_at : Option ℕ

pub record TaskResult : Type 0 where
  pub task_id : ℕ
  pub worker_id : ℕ
  pub output : ℕ
  pub metrics : ℕ
  pub completed_at : ℕ

pub record Manager : Type 0 where
  pub node_id : ℕ
  pub capabilities : Capabilities
  pub active_tasks : Dict Task
  pub completed_tasks : Dict TaskResult
  pub task_workers : Dict ℕ
  pub completed_task_objects : Dict Task

pub data TaskError : Type 0 where
  not_found : TaskError

-- completeTask's second and third argument: a string, with metrics or without; an object that has
-- the key `resultHash`; anything else
pub data Outcome : Type 0 where
  output : ℕ → Option ℕ → Outcome
  result_object : Option ℕ → Outcome
  nothing : Outcome

-- the task that postTask makes
abbrev pub new_task : ℕ → ℕ → ℕ → ℕ → Option Requirements → ℕ → ℕ → Task
new_task new_id poster description type requirements budget now = record {
  task_id = new_id;
  poster_id = poster;
  type = type;
  description = description;
  requirements = requirements;
  budget = budget;
  status = posted;
  created_at = now;
  assigned_to = none;
  started_at = none;
  result_hash = none;
  verified_at = none;
}

-- postTask with its full arguments, and createTask
unfoldable pub post_task : ℕ → ℕ → ℕ → Option Requirements → ℕ → ℕ → Manager → Task × Manager
post_task new_id description type requirements budget now s =
    let task = new_task new_id s.node_id description type requirements budget now in
    (task, record s { active_tasks = insert new_id task s.active_tasks })

-- the task that postTask makes of an object: open where it names an owner, who is the poster unless the
-- name is empty
abbrev pub options_task : ℕ → ℕ → Option ℕ → Option Requirements → ℕ → ℕ → ℕ → Task
options_task new_id poster owner requirements budget compute_cpu now =
    let task = new_task new_id poster 0 compute_cpu requirements budget now in
    elim owner [
      | none ↦ task
      | some o ↦ record task { status = opened; poster_id = if o == 0 then poster else o }
    ]

-- postTask with an object
unfoldable pub post_options :
    ℕ → Option ℕ → Option Requirements → ℕ → ℕ → ℕ → Manager → Task × Manager
post_options new_id owner requirements budget compute_cpu now s =
    let task = options_task new_id s.node_id owner requirements budget compute_cpu now in
    (task, record s { active_tasks = insert new_id task s.active_tasks })

-- `??` and `||` on two lookups: an object is truthy
abbrev pub either : {A : Type 0} → Option A → Option A → Option A
either (some a) q = some a
either none q = q

unfoldable pub accept_bid : ℕ → ℕ → Manager → Manager
accept_bid i worker s = elim (lookup i s.active_tasks) [
  | none ↦ s
  | some t ↦ record s {
    active_tasks = insert i (record t { status = assigned }) s.active_tasks;
    task_workers = insert i worker s.task_workers;
  }
]

unfoldable pub assign_task : ℕ → ℕ → Manager → Result TaskError Manager
assign_task i worker s = elim (lookup i s.active_tasks) [
  | none ↦ err not_found
  | some t ↦ ok (record s {
    active_tasks =
        insert i (record t { status = assigned; assigned_to = some worker }) s.active_tasks;
    task_workers = insert i worker s.task_workers;
  })
]

unfoldable pub start_task : ℕ → ℕ → Manager → Result TaskError Manager
start_task i now s = elim (lookup i s.active_tasks) [
  | none ↦ err not_found
  | some t ↦ ok (record s {
    active_tasks = insert i (record t { status = running; started_at = some now }) s.active_tasks;
  })
]

-- the changes of completeTask to the task
unfoldable pub finish : Outcome → Task → Task
finish (output h _) t = record t { status = completed; result_hash = some h }
finish (result_object h) t = record t { status = completed; result_hash = h }
finish nothing t = record t { status = completed }

-- `this.completedTasks.set(…)`, where there are metrics
abbrev results : ℕ → Outcome → ℕ → Manager → Dict TaskResult
results i (output h (some metrics)) now s =
    insert i
      (record {
        task_id = i;
        worker_id = s.node_id;
        output = h;
        metrics = metrics;
        completed_at = now;
      })
      s.completed_tasks
results i _ now s = s.completed_tasks

unfoldable pub complete_task : ℕ → Outcome → ℕ → Manager → Result TaskError Manager
complete_task i outcome now s =
    elim (either (lookup i s.active_tasks) (lookup i s.completed_task_objects)) [
      | none ↦ err not_found
      | some t ↦ ok (record s {
        completed_task_objects = insert i (finish outcome t) s.completed_task_objects;
        completed_tasks = results i outcome now s;
        active_tasks = erase i s.active_tasks;
      })
    ]

-- The task is changed in the map that it is in; `isValid` is not read.
unfoldable pub verify_task : ℕ → ℕ → Manager → Result TaskError Manager
verify_task i now s = elim (lookup i s.completed_task_objects) [
  | some t ↦ ok (record s {
    completed_task_objects =
        insert i (record t { status = verified; verified_at = some now }) s.completed_task_objects;
  })
  | none ↦ elim (lookup i s.active_tasks) [
    | none ↦ err not_found
    | some t ↦ ok (record s {
      active_tasks =
          insert i (record t { status = verified; verified_at = some now }) s.active_tasks;
    })
  ]
]

unfoldable pub get_active_tasks : Manager → List Task
get_active_tasks s = values s.active_tasks

unfoldable pub get_history : Manager → List Task
get_history s = values s.completed_task_objects

unfoldable pub get_task_by_id : Manager → ℕ → Option Task
get_task_by_id s i = either (lookup i s.active_tasks) (lookup i s.completed_task_objects)
