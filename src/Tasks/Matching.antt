-- ===== src/Tasks/Matching.antt =====
-- Which tasks a node can take (src/tasks/manager.ts: calculateCost, canHandleTask, bidOnTask).
use abundance_protocol.Prelude.{
  ℕ, ◌+◌, ◌*◌, ◌≡◌, Bool, true, false, Option, none, some, arith, ltb, ◌==◌, ◌&&◌, if◌then◌else◌,
}
use abundance_protocol.Dict.{lookup}
use abundance_protocol.Tasks.{Requirements, Gpu, Capabilities, Task, Manager}

-- calculateCost where seconds are given, with 0 for a missing one
unfoldable pub calculate_cost : ℕ → ℕ → ℕ
calculate_cost cpu_seconds gpu_seconds = cpu_seconds * 1 + gpu_seconds * 5

-- `a < n`, which is false where `a` is undefined
abbrev pub below : Option ℕ → ℕ → Bool
below none n = false
below (some a) n = ltb a n

-- `n && a < n`
abbrev pub lacks : Option ℕ → ℕ → Bool
lacks a n = if n == 0 then false else below a n

-- `n && (!caps.gpu || caps.gpu.vram < n)`
abbrev pub lacks_vram : Option Gpu → ℕ → Bool
lacks_vram none n = if n == 0 then false else true
lacks_vram (some g) n = lacks g.vram n

abbrev pub has_gpu : Capabilities → Bool
has_gpu caps = elim caps.gpu [ none ↦ false | some _ ↦ true ]

unfoldable pub can_handle_task : Capabilities → Task → Bool
can_handle_task caps task = elim task.requirements [
  | none ↦ true
  | some req ↦
      if lacks caps.cores req.min_cpu
      then false
      else if lacks caps.cores req.min_cpu_cores
      then false
      else if lacks caps.memory req.min_memory
      then false
      else if lacks caps.memory req.min_memory_mb
      then false
      else if req.min_gpu && (if has_gpu caps then false else true)
      then false
      else if lacks_vram caps.gpu req.min_gpu_vram
      then false
      else true
]

-- The answer to a bid: accepted, or the reason.
pub data BidAnswer : Type 0 where
  accepted task_not_found too_few_cores too_little_memory too_little_vram gpu_required : BidAnswer
  too_little_gpu_memory : BidAnswer

unfoldable pub answer : Capabilities → Requirements → BidAnswer
answer caps req =
    if lacks caps.cores req.min_cpu_cores
    then too_few_cores
    else if lacks caps.memory req.min_memory_mb
    then too_little_memory
    else if lacks_vram caps.gpu req.min_gpu_vram
    then too_little_vram
    else if req.gpu && (if has_gpu caps then false else true)
    then gpu_required
    else if lacks_vram caps.gpu req.gpu_memory
    then too_little_gpu_memory
    else accepted

unfoldable pub bid_on_task : Manager → ℕ → Option Capabilities → BidAnswer
bid_on_task s i worker = elim (lookup i s.active_tasks) [
  | none ↦ task_not_found
  | some task ↦ elim task.requirements [
    | none ↦ accepted
    | some req ↦ answer (elim worker [ none ↦ s.capabilities | some caps ↦ caps ]) req
  ]
]

-- A bid with the node's own capabilities, on an active task that the node can handle, is accepted or
-- refused for the graphics card only: for `gpu` or `gpuMemory`, which canHandleTask does not read.
bid_on_task_capable :
    (s : Manager) (i : ℕ) {task : Task} {req : Requirements}
    → lookup i s.active_tasks ≡ some task
    → task.requirements ≡ some req
    → can_handle_task s.capabilities task ≡ true
    → bid_on_task s i none ≡ (
        if req.gpu && (if has_gpu s.capabilities then false else true)
        then gpu_required
        else if lacks_vram s.capabilities.gpu req.gpu_memory
        then too_little_gpu_memory
        else accepted)
unfolding bid_on_task answer can_handle_task
bid_on_task_capable s i {task} {req} found needs able = ground (arith, found, needs)
