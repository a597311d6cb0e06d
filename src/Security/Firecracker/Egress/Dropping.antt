-- ===== src/Security/Firecracker/Egress/Dropping.antt =====
-- The commands of a policy set the policy of the OUTPUT chain to DROP, and to nothing else
-- (src/security/firecrackerHardening.ts: setupIptablesRules).
use abundance_protocol.Prelude.{
  ℕ, Bool, true, false, ◌≡◌, refl, Option, none, some, List, [], ◌∷◌, ◌++◌, ltb, ◌==◌, inl, inr,
  Bool-cases,
}
use abundance_protocol.Security.Firecracker.Egress.{
  EgressPolicy, output, input, forward, drop, Command, set_policy, append, port_commands,
  host_added, host_commands, mesh_commands, rate_commands, commands,
}
use abundance_protocol.Security.Firecracker.Egress.Verdicts.{policy_of}

-- Commands that set the policy of the OUTPUT chain to DROP at most.
abbrev pub IsDropping : List Command → Type 0
IsDropping [] = Unit
IsDropping (set_policy output u ∷ cs) = (u ≡ drop) × IsDropping cs
IsDropping (set_policy input u ∷ cs) = IsDropping cs
IsDropping (set_policy forward u ∷ cs) = IsDropping cs
IsDropping (append chain m u ∷ cs) = IsDropping cs

pub policy_of-IsDropping : (cs : List Command) → IsDropping cs → policy_of drop cs ≡ drop
policy_of-IsDropping [] h = refl
policy_of-IsDropping (set_policy output u ∷ cs) h = rw h.0 (policy_of-IsDropping cs h.1)
policy_of-IsDropping (set_policy input u ∷ cs) h = policy_of-IsDropping cs h
policy_of-IsDropping (set_policy forward u ∷ cs) h = policy_of-IsDropping cs h
policy_of-IsDropping (append chain m u ∷ cs) h = policy_of-IsDropping cs h

pub IsDropping-++ : (cs ds : List Command) → IsDropping cs → IsDropping ds → IsDropping (cs ++ ds)
IsDropping-++ [] ds h k = k
IsDropping-++ (set_policy output u ∷ cs) ds h k = (h.0, IsDropping-++ cs ds h.1 k)
IsDropping-++ (set_policy input u ∷ cs) ds h k = IsDropping-++ cs ds h k
IsDropping-++ (set_policy forward u ∷ cs) ds h k = IsDropping-++ cs ds h k
IsDropping-++ (append chain m u ∷ cs) ds h k = IsDropping-++ cs ds h k

port_commands-IsDropping : (ports : List ℕ) → IsDropping (port_commands ports)
unfolding port_commands
port_commands-IsDropping [] = tt
port_commands-IsDropping (p ∷ ps) = port_commands-IsDropping ps

host_added-IsDropping :
    (o : Option ℕ) (cs : List Command) → IsDropping cs → IsDropping (host_added o cs)
host_added-IsDropping none cs h = h
host_added-IsDropping (some ip) cs h = elim (Bool-cases (ip == 0)) [
  | inl e ↦ rw e h
  | inr e ↦ rw e h
]

host_commands-IsDropping :
    (resolve : ℕ → Option ℕ) (names : List ℕ) → IsDropping (host_commands resolve names)
unfolding host_commands
host_commands-IsDropping resolve [] = tt
host_commands-IsDropping resolve (n ∷ ns) =
    host_added-IsDropping (resolve n) (host_commands resolve ns)
      (host_commands-IsDropping resolve ns)

mesh_commands-IsDropping : (block : Bool) → IsDropping (mesh_commands block)
mesh_commands-IsDropping false = tt
mesh_commands-IsDropping true = tt

rate_commands-IsDropping : (mbps : ℕ) → IsDropping (rate_commands mbps)
rate_commands-IsDropping mbps = elim (Bool-cases (ltb 0 mbps)) [ inl e ↦ rw e tt | inr e ↦ rw e tt ]

pub commands-IsDropping :
    (resolve : ℕ → Option ℕ) (policy : EgressPolicy) → IsDropping (commands resolve policy)
unfolding commands
commands-IsDropping resolve policy =
    let mesh = mesh_commands policy.block_internal_mesh in
    let rate = rate_commands policy.max_bandwidth_mbps in
    let hosts = host_commands resolve policy.allowed_hosts in
    (
      refl,
      IsDropping-++ (port_commands policy.allowed_ports) (hosts ++ (mesh ++ rate))
          (port_commands-IsDropping policy.allowed_ports)
          (IsDropping-++ hosts (mesh ++ rate)
            (host_commands-IsDropping resolve policy.allowed_hosts)
            (IsDropping-++ mesh rate (mesh_commands-IsDropping policy.block_internal_mesh)
              (rate_commands-IsDropping policy.max_bandwidth_mbps))),
    )
