-- ===== src/Tasks/Store/Refinement.antt =====
-- The task manager against its specification, over any calls.
use mathlib.Core.Path.{fun_ext}
use abundance_protocol.Prelude.{◌≡◌, refl, List, [], ◌∷◌}
use abundance_protocol.Tasks.{Manager}
use abundance_protocol.Tasks.Store.{
  Call, posts, posts_object, accepts, assigns, starts, completes, verifies, serve, run, view, spec,
  spec_run, IsDisjoint, IsFresh, AreFresh,
}
use abundance_protocol.Tasks.Store.Steps.{
  Follows, serve_posts, serve_posts_object, serve_accepts, serve_assigns, serve_starts,
  serve_completes, serve_verifies,
}

serve-Follows :
    (c : Call) (s : Manager) → IsDisjoint s → IsFresh c s → Follows s.node_id c s (serve c s)
serve-Follows (posts i d t req b now) s h fresh = serve_posts i d t req b now s h fresh
serve-Follows (posts_object i o req b cpu now) s h fresh =
    serve_posts_object i o req b cpu now s h fresh
serve-Follows (accepts i w) s h fresh = serve_accepts i w s h
serve-Follows (assigns i w) s h fresh = serve_assigns i w s h
serve-Follows (starts i now) s h fresh = serve_starts i now s h
serve-Follows (completes i o now) s h fresh = serve_completes i o now s h
serve-Follows (verifies i now) s h fresh = serve_verifies i now s h

-- The two maps of tasks refine one: whatever is called, postTask with an object included, in whatever order, the manager shows the board
-- that the same calls leave by the specification, and no task is in both maps, if none was before and
-- tasks are posted under identifiers that no completed task has. A call that throws is one that the
-- specification passes over.
pub run_refines :
    (cs : List Call) (s : Manager)
    → IsDisjoint s
    → AreFresh cs s
    → IsDisjoint (run cs s) × (view (run cs s) ≡ spec_run s.node_id cs (view s))
unfolding run serve
run_refines [] s h fresh = (h, refl)
run_refines (c ∷ cs) s h (first, rest) =
    let f = serve-Follows c s h first in
    let (d, v) = run_refines cs (serve c s) f.disjoint rest in
    let shown : view (serve c s) ≡ spec s.node_id c (view s) = fun_ext f.viewed in
    (d, rw (f.same_node, shown) at v)
