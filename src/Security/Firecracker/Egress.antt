-- ===== src/Security/Firecracker/Egress.antt =====
-- What a machine may send (src/security/firecrackerHardening.ts: applyNetworkPolicy, setupIptablesRules).
-- A command of iptables is a value. Which packets a match takes is a parameter.
use abundance_protocol.Prelude.{
  ℕ, Bool, true, false, ◌&&◌, Option, none, some, List, [], ◌∷◌, ◌++◌, ltb, ◌==◌, if◌then◌else◌,
  length,
}
use abundance_protocol.Result.{Result, ok, err}
use abundance_protocol.Dict.{lookup}
use abundance_protocol.Security.Firecracker.{
  FirecrackerHardening, FirecrackerError, vm_not_found, empty_policy, host_error,
}
pub mod Verdicts
pub mod Dropping
pub mod Iptables
pub mod Applied

pub record EgressPolicy : Type 0 where
  pub allowed_ports : List ℕ
  pub allowed_hosts : List ℕ
  pub block_internal_mesh : Bool
  pub max_bandwidth_mbps : ℕ

pub data Chain : Type 0 where
  output : Chain
  input : Chain
  forward : Chain

pub data Target : Type 0 where
  accept : Target
  drop : Target

pub data Match : Type 0 where
  from_loopback : Match
  to_loopback : Match
  established : Match
  tcp_port : ℕ → Match
  udp_port : ℕ → Match
  host : ℕ → Match
  -- a network: the four bytes and the length of its prefix
  network : ℕ → ℕ → ℕ → ℕ → ℕ → Match
  within_rate : ℕ → Match

-- `iptables -P` and `iptables -A`
pub data Command : Type 0 where
  set_policy : Chain → Target → Command
  append : Chain → Match → Target → Command

abbrev pub default_commands : List Command
default_commands =
    set_policy output drop
    ∷ set_policy input drop
    ∷ set_policy forward drop
    ∷ append output to_loopback accept
    ∷ append input from_loopback accept
    ∷ append output established accept
    ∷ []

unfoldable pub port_commands : List ℕ → List Command
port_commands [] = []
port_commands (port ∷ ports) =
    append output (tcp_port port) accept
    ∷ append output (udp_port port) accept
    ∷ port_commands ports

-- `resolve` is the trimmed answer of dig, `none` where it fails; an empty one adds nothing.
abbrev pub host_added : Option ℕ → List Command → List Command
host_added none rest = rest
host_added (some ip) rest = if ip == 0 then rest else append output (host ip) accept ∷ rest

unfoldable pub host_commands : (ℕ → Option ℕ) → List ℕ → List Command
host_commands resolve [] = []
host_commands resolve (name ∷ names) = host_added (resolve name) (host_commands resolve names)

abbrev pub mesh_commands : Bool → List Command
mesh_commands false = []
mesh_commands true =
    append output (network 10 0 0 0 8) drop
    ∷ append output (network 172 16 0 0 12) drop
    ∷ append output (network 192 168 0 0 16) drop
    ∷ append output (network 169 254 0 0 16) drop
    ∷ []

abbrev pub rate_commands : ℕ → List Command
rate_commands mbps = if ltb 0 mbps then append output (within_rate mbps) accept ∷ [] else []

unfoldable pub commands : (ℕ → Option ℕ) → EgressPolicy → List Command
commands resolve policy =
    default_commands
    ++ (port_commands policy.allowed_ports
        ++ (host_commands resolve policy.allowed_hosts
            ++ (mesh_commands policy.block_internal_mesh
                ++ rate_commands policy.max_bandwidth_mbps)))

-- The loop that carries the commands out, up to one that fails: the commands that went through.
unfoldable pub execute :
    (Command → Bool) → List Command → Result FirecrackerError (Unit {0}) × List Command
execute runs [] = (ok tt, [])
execute runs (c ∷ cs) =
    let (result, done) = execute runs cs in
    if runs c then (result, c ∷ done) else (err host_error, [])

-- `pid_file` is whether the file with the machine's process identifier could be read.
unfoldable pub setup_iptables_rules :
    (ℕ → Option ℕ)
    → Bool
    → (Command → Bool)
    → ℕ
    → EgressPolicy
    → FirecrackerHardening
    → Result FirecrackerError (Unit {0}) × List Command
setup_iptables_rules resolve pid_file runs vm_id policy s = elim (lookup vm_id s.active_vms) [
  | none ↦ (err vm_not_found, [])
  | some vm ↦ if pid_file then execute runs (commands resolve policy) else (err host_error, [])
]

unfoldable pub apply_network_policy :
    (ℕ → Option ℕ)
    → Bool
    → (Command → Bool)
    → ℕ
    → EgressPolicy
    → FirecrackerHardening
    → Result FirecrackerError (Unit {0}) × List Command
apply_network_policy resolve pid_file runs vm_id policy s = elim (lookup vm_id s.active_vms) [
  | none ↦ (err vm_not_found, [])
  | some vm ↦
      if length policy.allowed_ports == 0 && length policy.allowed_hosts == 0
      then (err empty_policy, [])
      else setup_iptables_rules resolve pid_file runs vm_id policy s
]
