-- ===== src/Security/Firecracker/Limits.antt =====
-- How many machines there are at a time (src/security/firecrackerHardening.ts), however the methods are called.
use abundance_protocol.Prelude.{
  ℕ, suc, ◌-◌, ◌≤◌, ◌≡◌, refl, Bool, Option, some, List, [], ◌∷◌, ◌++◌, ltb, leb, ◌==◌, length,
  take, All, arith, inl, inr, Bool-cases, Option-cases,
}
use abundance_protocol.Dict.{Dict, lookup, insert, erase}
use abundance_protocol.Security.Firecracker.{
  IdleVm, FirecrackerHardening, new_firecracker_hardening, new_vm, register_vm, unregister_vm,
  evict_loop, evict_idle_vms, to_evict, enforce_vm_limit, fire, get_active_vm_count, pin_cpu,
  physical_loop, disable_hyperthreading,
}

-- A call of a method, with the answers of the host, or a timer that fires.
pub data Call : Type 0 where
  registers : ℕ → ℕ → ℕ → ℕ → ℕ → Call
  unregisters : ℕ → Call
  evicts : (ℕ → Bool) → ℕ → Option ℕ → ℕ → Call
  enforces : (ℕ → Bool) → ℕ → ℕ → Call
  pins : Bool → ℕ → List ℕ → Call
  disables : Bool → (ℕ → Option ℕ) → ℕ → Call
  fires : Call

unfoldable pub perform : Call → FirecrackerHardening → FirecrackerHardening
perform (registers vm_id pid rootfs_path started active) s =
    (register_vm vm_id pid rootfs_path started active s).1
perform (unregisters vm_id) s = unregister_vm vm_id s
perform (evicts kill threshold count now) s = evict_idle_vms kill threshold count now s
perform (enforces kill max now) s = (enforce_vm_limit kill max now s).1
perform (pins ran vm_id cores) s = (pin_cpu ran vm_id cores s).1
perform (disables ran siblings vm_id) s = (disable_hyperthreading ran siblings vm_id s).1
perform fires s = fire s

unfoldable pub run : List Call → FirecrackerHardening → FirecrackerHardening
run [] s = s
run (c ∷ cs) s = run cs (perform c s)

-- No limit above `bound` is set.
abbrev pub IsLimited : ℕ → Call → Type 0
IsLimited bound (enforces kill max now) = max ≤ bound
IsLimited bound _ = Unit

module _ {V : Type 0} where
  pub length-erase : (k : ℕ) (m : Dict V) → length (erase k m) ≤ length m
  length-erase k [] = omega arith
  length-erase k ((j, v) ∷ m) = ground (arith, length-erase k m)

  length-insert : (k : ℕ) (v : V) (m : Dict V) → length (insert k v m) ≤ suc (length m)
  length-insert k v [] = omega arith
  length-insert k v ((j, w) ∷ m) = ground (arith, length-insert k v m)

  length-insert_found :
      (k : ℕ) (v w : V) (m : Dict V) → lookup k m ≡ some w → length (insert k v m) ≡ length m
  length-insert_found k v w [] h = cc
  length-insert_found k v w ((j, x) ∷ m) h = elim (Bool-cases (j == k)) [
    | inl e ↦ rw e refl
    | inr e ↦
        let h' : lookup k m ≡ some w = rw e at h in rw (e, length-insert_found k v w m h') refl
  ]

-- The loop of an eviction starts timers and changes nothing else.
pub record IsSame (s t : FirecrackerHardening) : Type 0 where
  pub vms : t.active_vms ≡ s.active_vms
  pub limit : t.max_vms ≡ s.max_vms

pub evict_loop-IsSame :
    (kill : ℕ → Bool) (vs : List IdleVm) (s : FirecrackerHardening)
    → IsSame s (evict_loop kill vs s)
unfolding evict_loop
evict_loop-IsSame kill [] s = record { vms = refl; limit = refl }
evict_loop-IsSame kill (v ∷ vs) s = elim (Option-cases (lookup v.id s.active_vms)) [
  | inl e ↦ rw (e, evict_loop) (evict_loop-IsSame kill vs s)
  | inr (vm, e) ↦ elim (Bool-cases (kill vm.pid)) [
    | inl sent ↦
        let same = evict_loop-IsSame kill vs (record s { timers = s.timers ++ (v.id ∷ []) }) in
        rw (e, sent, evict_loop) (record { vms = same.vms; limit = same.limit })
    | inr lost ↦ rw (e, lost, evict_loop) (evict_loop-IsSame kill vs s)
  ]
]

module _ (bound : ℕ) where
  pub record IsWithin (s : FirecrackerHardening) : Type 0 where
    pub few : length s.active_vms ≤ bound
    pub limited : s.max_vms ≤ bound

  -- A method that leaves the limit and adds no machine.
  shrinks :
      (s t : FirecrackerHardening)
      → length t.active_vms ≤ length s.active_vms
      → t.max_vms ≡ s.max_vms
      → IsWithin s
      → IsWithin t
  shrinks s t less same h = record {
    few = let few = h.few in omega arith;
    limited = let limited = h.limited in omega arith;
  }

  evict_loop-IsWithin :
      (kill : ℕ → Bool) (vs : List IdleVm) (s : FirecrackerHardening)
      → IsWithin s
      → IsWithin (evict_loop kill vs s)
  evict_loop-IsWithin kill vs s h =
      let same = evict_loop-IsSame kill vs s in
      record { few = rw same.vms h.few; limited = rw same.limit h.limited }

  register_vm-IsWithin :
      (vm_id pid rootfs_path started active : ℕ) (s : FirecrackerHardening)
      → IsWithin s
      → IsWithin (register_vm vm_id pid rootfs_path started active s).1
  unfolding register_vm
  register_vm-IsWithin vm_id pid rootfs_path started active s h =
      elim (Bool-cases (leb s.max_vms (length s.active_vms))) [
        | inl full ↦ rw full h
        | inr free ↦
            let limited = h.limited in
            let new = new_vm vm_id pid rootfs_path started active in
            let grown = length-insert vm_id new s.active_vms in
            rw free (record { few = ground arith; limited = limited })
      ]

  pin_cpu-IsWithin :
      (ran : Bool) (vm_id : ℕ) (cores : List ℕ) (s : FirecrackerHardening)
      → IsWithin s
      → IsWithin (pin_cpu ran vm_id cores s).1
  unfolding pin_cpu
  pin_cpu-IsWithin ran vm_id cores s h = elim (Option-cases (lookup vm_id s.active_vms)) [
    | inl e ↦ rw (e, pin_cpu) h
    | inr (vm, e) ↦ elim (Bool-cases ran) [
      | inl done ↦
          let pinned = record vm { pinned_cores = some cores } in
          rw (e, done, pin_cpu)
            (record {
              few = rw (length-insert_found vm_id pinned vm s.active_vms e) h.few;
              limited = h.limited;
            })
      | inr failed ↦ rw (e, failed, pin_cpu) h
    ]
  ]

  enforce_vm_limit-IsWithin :
      (kill : ℕ → Bool) (max now : ℕ) (s : FirecrackerHardening)
      → max ≤ bound
      → IsWithin s
      → IsWithin (enforce_vm_limit kill max now s).1
  unfolding enforce_vm_limit evict_idle_vms
  enforce_vm_limit-IsWithin kill max now s below h =
      let limited = record s { max_vms = max } in
      let h' : IsWithin limited = record { few = h.few; limited = below } in
      elim (Bool-cases (ltb max (length s.active_vms))) [
        | inl over ↦
            let excess = length s.active_vms - max in
            rw over
              (evict_loop-IsWithin kill (to_evict 0 (some excess) now s.active_vms) limited h')
        | inr under ↦ rw under h'
      ]

  disable_hyperthreading-IsWithin :
      (ran : Bool) (siblings : ℕ → Option ℕ) (vm_id : ℕ) (s : FirecrackerHardening)
      → IsWithin s
      → IsWithin (disable_hyperthreading ran siblings vm_id s).1
  unfolding disable_hyperthreading
  disable_hyperthreading-IsWithin ran siblings vm_id s h =
      let cores = physical_loop siblings 64 0 [] in
      elim (Option-cases (lookup vm_id s.active_vms)) [
        | inl e ↦ rw (e, disable_hyperthreading) h
        | inr (vm, e) ↦ elim (Bool-cases (ltb 0 (length cores))) [
          | inl some_core ↦
              rw (e, some_core, disable_hyperthreading)
                (pin_cpu-IsWithin ran vm_id (take 2 cores) s h)
          | inr no_core ↦ rw (e, no_core, disable_hyperthreading) h
        ]
      ]

  perform-IsWithin :
      (c : Call) (s : FirecrackerHardening)
      → IsLimited bound c
      → IsWithin s
      → IsWithin (perform c s)
  unfolding perform evict_idle_vms unregister_vm fire
  perform-IsWithin (registers vm_id pid rootfs_path started active) s l h =
      register_vm-IsWithin vm_id pid rootfs_path started active s h
  perform-IsWithin (unregisters vm_id) s l h = elim (Option-cases (lookup vm_id s.active_vms)) [
    | inl e ↦ rw (e, unregister_vm) h
    | inr (vm, e) ↦
        let t = record s { active_vms = erase vm_id s.active_vms } in
        rw (e, unregister_vm) (shrinks s t (length-erase vm_id s.active_vms) refl h)
  ]
  perform-IsWithin (evicts kill threshold count now) s l h =
      evict_loop-IsWithin kill (to_evict threshold count now s.active_vms) s h
  perform-IsWithin (enforces kill max now) s l h = enforce_vm_limit-IsWithin kill max now s l h
  perform-IsWithin (pins ran vm_id cores) s l h = pin_cpu-IsWithin ran vm_id cores s h
  perform-IsWithin (disables ran siblings vm_id) s l h =
      disable_hyperthreading-IsWithin ran siblings vm_id s h
  perform-IsWithin fires s l h = fired s.timers refl
    where
      fired : (ids : List ℕ) → s.timers ≡ ids → IsWithin (fire s)
      fired [] e = rw (e, fire) h
      fired (id ∷ ids) e =
          let t = record s { timers = ids; active_vms = erase id s.active_vms } in
          rw (e, fire) (shrinks s t (length-erase id s.active_vms) refl h)

  run-IsWithin :
      (cs : List Call) (s : FirecrackerHardening)
      → All (IsLimited bound) cs
      → IsWithin s
      → IsWithin (run cs s)
  unfolding run
  run-IsWithin [] s l h = h
  run-IsWithin (c ∷ cs) s l h = run-IsWithin cs (perform c s) l.1 (perform-IsWithin c s l.0 h)

-- Whatever methods are called, in whatever order, and however their commands on the host end, there are never more
-- machines than the highest limit that is set, or 100, the limit at the start, if that is higher.
pub run_few :
    (bound : ℕ) (cs : List Call)
    → 100 ≤ bound
    → All (IsLimited bound) cs
    → get_active_vm_count (run cs new_firecracker_hardening) ≤ bound
unfolding new_firecracker_hardening
run_few bound cs enough l =
    let start : IsWithin bound new_firecracker_hardening = record {
      few = omega arith;
      limited = enough;
    } in
    (run-IsWithin bound cs new_firecracker_hardening l start).few
