-- ===== src/Tests/Firecracker.antt =====
-- Two machines, and packets that are a host and a port.
use abundance_protocol.Sorting.{IsOf}
use abundance_protocol.Prelude.{
  inl, inr, ◌++◌, ℕ, ◌≤◌, ◌≡◌, ◌⊎◌, refl, Bool, true, false, ◌&&◌, Option, none, some, List, [],
  ◌∷◌, ltb, ◌==◌, ◌%◌, if◌then◌else◌, arith,
}
use abundance_protocol.Result.{err}
use abundance_protocol.Governance.Proposals.{sort_by, insert_by}
use abundance_protocol.Security.Firecracker.{
  VmMetadata, IdleVm, FirecrackerHardening, host_error, new_firecracker_hardening, new_vm, idle_vms,
  to_evict, evict_loop, evict_idle_vms, enforce_vm_limit, get_active_vm_count, physical_loop,
}
use abundance_protocol.Security.Firecracker.Limits.{registers, enforces, fires, run, run_few}
use abundance_protocol.Security.Firecracker.Eviction.{evict_lru}
use abundance_protocol.Security.Firecracker.Egress.{
  EgressPolicy, Target, accept, Match, to_loopback, established, tcp_port, host, network,
  within_rate, Command, append, output, port_commands, host_commands, commands, execute,
  setup_iptables_rules, apply_network_policy,
}
use abundance_protocol.Security.Firecracker.Egress.Verdicts.{is_accept, decide, leaves, passes}
use abundance_protocol.Security.Firecracker.Egress.Iptables.{decide-IsIptables}
use abundance_protocol.Security.Firecracker.Egress.Applied.{
  apply_network_policy_iff, apply_network_policy_partial, second_policy_widens,
}

abbrev first_vm : VmMetadata
first_vm = new_vm 1 11 5 100 100

abbrev second_vm : VmMetadata
second_vm = new_vm 2 12 5 100 300

abbrev two_vms : FirecrackerHardening
two_vms = record { active_vms = (1, first_vm) ∷ (2, second_vm) ∷ []; max_vms = 100; timers = [] }

abbrev packet_matches : Match → ℕ × ℕ → Bool
packet_matches to_loopback p = p.0 == 127
packet_matches (tcp_port n) p = p.1 == n
packet_matches (host ip) p = p.0 == ip
packet_matches (network a _ _ _ _) p = a == 10 && ltb p.0 20
packet_matches (within_rate n) p = true
packet_matches _ p = false

abbrev packet_verdict : List Command → ℕ × ℕ → Target
packet_verdict = decide packet_matches

abbrev web_only : EgressPolicy
web_only = record {
  allowed_ports = 443 ∷ [];
  allowed_hosts = 60 ∷ 61 ∷ [];
  block_internal_mesh = true;
  max_bandwidth_mbps = 10;
}

abbrev names : ℕ → Option ℕ
names n = if n == 60 then some 80 else none

abbrev all_run : Command → Bool
all_run c = true

-- The rule for established connections fails.
abbrev two_rules : Command → Bool
two_rules (append output established accept) = false
two_rules _ = true

-- A port that is not allowed, on a host that is not: the bandwidth rule lets it through.
any_host_leaves : leaves packet_matches names web_only (50, 22) ≡ true
any_host_leaves = refl

-- A node of the mesh on an allowed port
mesh_leaves : leaves packet_matches names web_only (10, 443) ≡ true
mesh_leaves = refl

mesh_stays : leaves packet_matches names web_only (10, 22) ≡ false
mesh_stays = refl

stops : (apply_network_policy names true two_rules 1 web_only two_vms).0 ≡ err host_error
unfolding apply_network_policy setup_iptables_rules execute commands port_commands host_commands
stops = refl

-- An older rule, for a host that the policy does not allow.
abbrev old_rules : List Command
old_rules = append output (host 50) accept ∷ []

apply_network_policy_iff_example :
    is_accept (
      packet_verdict
        (old_rules ++ (apply_network_policy names true all_run 1 web_only two_vms).1)
        (10, 22))
    ≡ passes packet_matches old_rules (leaves packet_matches names web_only (10, 22)) (10, 22)
unfolding apply_network_policy setup_iptables_rules execute commands port_commands host_commands
apply_network_policy_iff_example =
    apply_network_policy_iff packet_matches packet_verdict (decide-IsIptables packet_matches)
      old_rules names true all_run 1 web_only two_vms (10, 22) refl

apply_network_policy_partial_example :
    ((apply_network_policy names true two_rules 1 web_only two_vms).1 ≡ [])
    ⊎ (passes packet_matches old_rules (leaves packet_matches names web_only (127, 22)) (127, 22)
        ≡ true)
unfolding apply_network_policy setup_iptables_rules execute commands port_commands host_commands
apply_network_policy_partial_example =
    apply_network_policy_partial packet_matches packet_verdict (decide-IsIptables packet_matches)
      old_rules names true two_rules 1 web_only two_vms (127, 22) refl

-- Only one host, and no bandwidth.
abbrev one_host : EgressPolicy
one_host = record {
  allowed_ports = [];
  allowed_hosts = 60 ∷ [];
  block_internal_mesh = true;
  max_bandwidth_mbps = 0;
}

second_policy_widens_example :
    is_accept (
      packet_verdict
        ((apply_network_policy names true all_run 1 web_only two_vms).1
          ++ (apply_network_policy names true two_rules 1 one_host two_vms).1)
        (50, 22))
    ≡ true
unfolding apply_network_policy setup_iptables_rules execute commands port_commands host_commands
second_policy_widens_example =
    second_policy_widens packet_matches packet_verdict (decide-IsIptables packet_matches) names
      names true true all_run two_rules 1 web_only one_host two_vms two_vms (50, 22) refl refl

run_few_example :
    get_active_vm_count (
      run
        (registers 1 11 5 100 100
          ∷ registers 2 12 5 100 300
          ∷ enforces (λ pid. true) 1 400
          ∷ fires
          ∷ [])
        new_firecracker_hardening)
    ≤ 100
run_few_example =
    run_few 100
      (registers 1 11 5 100 100
        ∷ registers 2 12 5 100 300
        ∷ enforces (λ pid. true) 1 400
        ∷ fires
        ∷ [])
      (omega arith) (tt, (tt, (omega arith, (tt, tt))))

-- The machine that has been idle for longer goes.
oldest_goes : (enforce_vm_limit (λ pid. true) 1 400 two_vms).1.timers ≡ 1 ∷ []
unfolding enforce_vm_limit evict_idle_vms evict_loop to_evict idle_vms sort_by insert_by
oldest_goes = refl

abbrev idle_first : IdleVm
idle_first = record { id = 1; idle_time = 300 }

abbrev idle_second : IdleVm
idle_second = record { id = 2; idle_time = 100 }

evict_lru_example :
    IsOf idle_first (idle_vms 0 400 two_vms.active_vms)
    × (IsOf idle_second (to_evict 0 (some 1) 400 two_vms.active_vms) ⊎ (100 ≤ 300))
unfolding to_evict idle_vms sort_by insert_by
evict_lru_example =
    evict_lru 0 400 (some 1) two_vms.active_vms idle_first idle_second (inl refl) (inr (inl refl))

-- Four CPUs, the last two of which are siblings of the first two.
abbrev paired : ℕ → Option ℕ
paired n = if ltb n 4 then some (n % 2) else none

two_cores : physical_loop paired 64 0 [] ≡ 0 ∷ 1 ∷ []
unfolding physical_loop
two_cores = refl
