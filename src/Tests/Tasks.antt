-- ===== src/Tests/Tasks.antt =====
-- A node that posts a task, assigns it, and completes it.
use abundance_protocol.Prelude.{◌≡◌, refl, none, some, List, [], ◌∷◌, inl}
use abundance_protocol.Tasks.{Manager, output}
use abundance_protocol.Tasks.Store.{
  Call, posts, assigns, starts, completes, verifies, run, view, spec_run, IsDisjoint,
}
use abundance_protocol.Tasks.Store.Refinement.{run_refines}

abbrev idle_node : Manager
idle_node = record {
  node_id = 7;
  capabilities = record { cores = some 4; memory = some 8; gpu = none };
  active_tasks = [];
  completed_tasks = [];
  task_workers = [];
  completed_task_objects = [];
}

abbrev one_task : List Call
one_task =
    posts 1 3 2 none 100 10
    ∷ assigns 1 5
    ∷ starts 1 11
    ∷ completes 1 (output 42 none) 20
    ∷ verifies 1 30
    ∷ verifies 2 30
    ∷ []

run_refines_example :
    IsDisjoint (run one_task idle_node)
    × (view (run one_task idle_node) ≡ spec_run 7 one_task (view idle_node))
run_refines_example =
    run_refines one_task idle_node (λ i. inl refl) (refl, (tt, (tt, (tt, (tt, (tt, tt))))))
