-- ===== src/Security/Firecracker/Eviction.antt =====
-- What an eviction leaves (src/security/firecrackerHardening.ts: enforceVMLimit, evictIdleVMs).
pub mod Machines
use mathlib.Core.Path.{subst}
use abundance_protocol.Prelude.{
  ℕ, zero, suc, ◌≤◌, ◌≢◌, ◌⊎◌, sym, ◌||◌, Option, none, some, List, [], ◌∷◌, ◌==◌, if◌then◌else◌,
  length, arith, inl, inr,
}
use abundance_protocol.Dict.{Dict, lookup-erase}
use abundance_protocol.Governance.Proposals.{sort_by, insert_by}
use abundance_protocol.Sorting.{
  IsOf, All-insert_by, of_sort_by, of_take, sort_by_of, take-IsSorted, sort_by-IsSorted,
}
use abundance_protocol.Security.Firecracker.{
  VmMetadata, IdleVm, is_idle, idle_vms, longer_idle, to_evict, FirecrackerHardening, fire,
}
use abundance_protocol.Security.Firecracker.Limits.{length-erase}
use abundance_protocol.Security.Firecracker.Eviction.Machines.{IsDistinct}

-- What evictIdleVMs chooses are idle machines, and every idle machine that it spares has been idle no longer than any
-- that it chooses.
pub evict_lru :
    (threshold now : ℕ) (count : Option ℕ) (m : Dict VmMetadata) (v w : IdleVm)
    → IsOf v (to_evict threshold count now m)
    → IsOf w (idle_vms threshold now m)
    → IsOf v (idle_vms threshold now m)
      × (IsOf w (to_evict threshold count now m) ⊎ (w.idle_time ≤ v.idle_time))
unfolding to_evict
evict_lru threshold now count m v w chosen idle =
    let xs = idle_vms threshold now m in
    let n = elim count as (λ _. ℕ) [ none ↦ length (sort_by longer_idle xs) | some n ↦ n ] in
    let ordered =
      sort_by-IsSorted longer_idle (λ a b h. ground arith) (λ a b c h k. ground arith) xs in
    (
      of_sort_by longer_idle v xs (of_take longer_idle n (sort_by longer_idle xs) v chosen),
      elim (take-IsSorted longer_idle n (sort_by longer_idle xs) v w ordered chosen
          (sort_by_of longer_idle w xs idle)) [
            | inl also ↦ inl also
            | inr shorter ↦ inr (ground arith)
          ],
    )

ids_of : List IdleVm → List ℕ
ids_of [] = []
ids_of (v ∷ vs) = v.id ∷ ids_of vs

-- The next n timers.
abbrev pub fire_times : ℕ → FirecrackerHardening → FirecrackerHardening
fire_times zero s = s
fire_times (suc n) s = fire_times n (fire s)
