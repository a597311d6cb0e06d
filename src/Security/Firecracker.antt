-- ===== src/Security/Firecracker.antt =====
-- FirecrackerHardening (src/security/firecrackerHardening.ts): the machines that it keeps track of. A method
-- that awaits commands on the host runs here as one step, and what the commands answer is its argument. The
-- callback of setTimeout in evictIdleVMs is a step of its own.
pub mod Limits
pub mod Eviction
pub mod Egress
use abundance_protocol.Prelude.{
  ℕ, zero, suc, ◌+◌, ◌-◌, Bool, true, false, Option, none, some, List, [], ◌∷◌, ◌++◌, ltb, leb,
  if◌then◌else◌, length, take, includes,
}
use abundance_protocol.Result.{Result, ok, err}
use abundance_protocol.Dict.{Dict, lookup, insert, erase}
use abundance_protocol.Governance.Proposals.{sort_by}

-- The paths that are made of an identifier: `bucky/${vmId}` and `/proc/${pid}/ns/net`.
pub data HostPath : Type 0 where
  cgroup : ℕ → HostPath
  net_ns : ℕ → HostPath

pub record VmMetadata : Type 0 where
  pub id : ℕ
  pub pid : ℕ
  pub start_time : ℕ
  pub last_activity : ℕ
  pub cgroup_path : HostPath
  pub net_ns_path : HostPath
  pub rootfs_path : ℕ
  pub pinned_cores : Option (List ℕ)
  pub snapshot_path : Option ℕ

-- `timers` has the machines whose five seconds of grace still run, in the order in which they end.
pub record FirecrackerHardening : Type 0 where
  pub active_vms : Dict VmMetadata
  pub max_vms : ℕ
  pub timers : List ℕ

pub data FirecrackerError : Type 0 where
  vm_not_found : FirecrackerError
  vm_limit_reached : FirecrackerError
  empty_policy : FirecrackerError
  host_error : FirecrackerError

unfoldable pub new_firecracker_hardening : FirecrackerHardening
new_firecracker_hardening = record { active_vms = []; max_vms = 100; timers = [] }

abbrev pub new_vm : ℕ → ℕ → ℕ → ℕ → ℕ → VmMetadata
new_vm vm_id pid rootfs_path started active = record {
  id = vm_id;
  pid = pid;
  start_time = started;
  last_activity = active;
  cgroup_path = cgroup vm_id;
  net_ns_path = net_ns pid;
  rootfs_path = rootfs_path;
  pinned_cores = none;
  snapshot_path = none;
}

-- The clock is read twice.
unfoldable pub register_vm :
    ℕ
    → ℕ
    → ℕ
    → ℕ
    → ℕ
    → FirecrackerHardening
    → Result FirecrackerError (Unit {0}) × FirecrackerHardening
register_vm vm_id pid rootfs_path started active s =
    if leb s.max_vms (length s.active_vms) then (err vm_limit_reached, s) else (
      ok tt,
      record s {
        active_vms = insert vm_id (new_vm vm_id pid rootfs_path started active) s.active_vms;
      },
    )

-- Errors of the cleanup are ignored.
unfoldable pub unregister_vm : ℕ → FirecrackerHardening → FirecrackerHardening
unregister_vm vm_id s = elim (lookup vm_id s.active_vms) [
  | none ↦ s
  | some vm ↦ record s { active_vms = erase vm_id s.active_vms }
]

pub record IdleVm : Type 0 where
  pub id : ℕ
  pub idle_time : ℕ

-- now - vm.lastActivity > idleThresholdMs; the difference is then above 0
abbrev pub is_idle : ℕ → ℕ → VmMetadata → Bool
is_idle threshold now vm = ltb (vm.last_activity + threshold) now

unfoldable pub idle_vms : ℕ → ℕ → Dict VmMetadata → List IdleVm
idle_vms threshold now [] = []
idle_vms threshold now ((id, vm) ∷ vms) =
    let rest = idle_vms threshold now vms in
    if is_idle threshold now vm
    then record { id = id; idle_time = now - vm.last_activity } ∷ rest
    else rest

abbrev pub longer_idle : IdleVm → IdleVm → Bool
longer_idle a b = ltb b.idle_time a.idle_time

-- idleVMs.slice(0, evictCount)
unfoldable pub to_evict : ℕ → Option ℕ → ℕ → Dict VmMetadata → List IdleVm
to_evict threshold count now vms =
    let idle = sort_by longer_idle (idle_vms threshold now vms) in
    take (elim count [ none ↦ length idle | some n ↦ n ]) idle

module _ (kill : ℕ → Bool) where
  -- the loop over the machines to evict; `kill pid` is whether the signal is sent
  unfoldable pub evict_loop : List IdleVm → FirecrackerHardening → FirecrackerHardening
  evict_loop [] s = s
  evict_loop (v ∷ vs) s = elim (lookup v.id s.active_vms) [
    | none ↦ evict_loop vs s
    | some vm ↦
        evict_loop vs (if kill vm.pid then record s { timers = s.timers ++ (v.id ∷ []) } else s)
  ]

  unfoldable pub evict_idle_vms : ℕ → Option ℕ → ℕ → FirecrackerHardening → FirecrackerHardening
  evict_idle_vms threshold count now s = evict_loop (to_evict threshold count now s.active_vms) s

  -- The answer is that of the Map before any of the timers has fired.
  unfoldable pub enforce_vm_limit : ℕ → ℕ → FirecrackerHardening → Bool × FirecrackerHardening
  enforce_vm_limit max now s =
      let limited = record s { max_vms = max } in
      let after =
        if ltb max (length s.active_vms)
        then evict_idle_vms 0 (some (length s.active_vms - max)) now limited
        else limited in
      (leb (length after.active_vms) max, after)

-- The callback of the timer that ends first.
unfoldable pub fire : FirecrackerHardening → FirecrackerHardening
fire s = elim s.timers [
  | [] ↦ s
  | id ∷ ids ↦ record s { timers = ids; active_vms = erase id s.active_vms }
]

abbrev pub get_active_vm_count : FirecrackerHardening → ℕ
get_active_vm_count s = length s.active_vms

-- pinCPU; `ran` is whether both the command and the file's write went through.
unfoldable pub pin_cpu :
    Bool
    → ℕ
    → List ℕ
    → FirecrackerHardening
    → Result FirecrackerError (Unit {0}) × FirecrackerHardening
pin_cpu ran vm_id cores s = elim (lookup vm_id s.active_vms) [
  | none ↦ (err vm_not_found, s)
  | some vm ↦
      if ran
      then (
        ok tt,
        record s {
          active_vms = insert vm_id (record vm { pinned_cores = some cores }) s.active_vms;
        },
      )
      else (err host_error, s)
]

-- The loop over the first CPUs: `siblings i` is the first number of the i-th list of siblings, `none` a
-- CPU that is not there.
unfoldable pub physical_loop : (ℕ → Option ℕ) → ℕ → ℕ → List ℕ → List ℕ
physical_loop siblings zero i cores = cores
physical_loop siblings (suc n) i cores = elim (siblings i) [
  | none ↦ cores
  | some core ↦
      physical_loop siblings n (i + 1) (if includes core cores then cores else cores ++ (core ∷ []))
]

unfoldable pub disable_hyperthreading :
    Bool
    → (ℕ → Option ℕ)
    → ℕ
    → FirecrackerHardening
    → Result FirecrackerError (Unit {0}) × FirecrackerHardening
disable_hyperthreading ran siblings vm_id s = elim (lookup vm_id s.active_vms) [
  | none ↦ (err vm_not_found, s)
  | some vm ↦
      let cores = physical_loop siblings 64 0 [] in
      if ltb 0 (length cores) then pin_cpu ran vm_id (take 2 cores) s else (ok tt, s)
]
