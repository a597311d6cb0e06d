-- ===== src/Security/Firecracker/Egress/Verdicts.antt =====
-- What the commands of setupIptablesRules let through. `verdict` stands for iptables: what becomes of a packet
-- that leaves a machine, after commands on a namespace without rules.
use abundance_protocol.Prelude.{
  ℕ, Bool, true, false, not, ◌&&◌, ◌||◌, ◌≡◌, refl, Option, none, some, List, [], ◌∷◌, ◌++◌, ltb,
  ◌==◌, if◌then◌else◌, arith, inl, inr, Bool-cases,
}
use abundance_protocol.Security.Firecracker.Egress.{
  EgressPolicy, output, input, forward, Target, accept, drop, Match, from_loopback, to_loopback,
  established, tcp_port, udp_port, host, network, within_rate, Command, set_policy, append,
  port_commands, host_added, host_commands, mesh_commands, rate_commands, commands,
}

abbrev pub is_accept : Target → Bool
is_accept accept = true
is_accept drop = false

-- The policy of the OUTPUT chain: the last one that is set.
abbrev pub policy_of : Target → List Command → Target
policy_of t [] = t
policy_of t (set_policy output u ∷ cs) = policy_of u cs
policy_of t (set_policy input u ∷ cs) = policy_of t cs
policy_of t (set_policy forward u ∷ cs) = policy_of t cs
policy_of t (append chain m u ∷ cs) = policy_of t cs

pub policy_of-++ :
    (t : Target) (cs ds : List Command) → policy_of t (cs ++ ds) ≡ policy_of (policy_of t cs) ds
policy_of-++ t [] ds = refl
policy_of-++ t (set_policy output u ∷ cs) ds = policy_of-++ u cs ds
policy_of-++ t (set_policy input u ∷ cs) ds = policy_of-++ t cs ds
policy_of-++ t (set_policy forward u ∷ cs) ds = policy_of-++ t cs ds
policy_of-++ t (append chain m u ∷ cs) ds = policy_of-++ t cs ds

module _ {P : Type 0} (matches : Match → P → Bool) where
  -- The first rule of the OUTPUT chain that takes the packet.
  abbrev pub first_match : List Command → Target → P → Target
  first_match [] t p = t
  first_match (append output m u ∷ cs) t p =
      let rest = first_match cs t p in if matches m p then u else rest
  first_match (append input m u ∷ cs) t p = first_match cs t p
  first_match (append forward m u ∷ cs) t p = first_match cs t p
  first_match (set_policy chain u ∷ cs) t p = first_match cs t p

  -- A chain is left by the first rule that takes the packet, and by its policy where none does; the policy
  -- is ACCEPT as long as none is set.
  abbrev pub decide : List Command → P → Target
  decide cs p = first_match cs (policy_of accept cs) p

  abbrev pub any_port : List ℕ → P → Bool
  any_port [] p = false
  any_port (port ∷ ports) p =
      matches (tcp_port port) p || (matches (udp_port port) p || any_port ports p)

  -- one of the hosts that are resolved
  abbrev pub is_host : Option ℕ → P → Bool
  is_host none p = false
  is_host (some ip) p = not (ip == 0) && matches (host ip) p

  abbrev pub any_host : (ℕ → Option ℕ) → List ℕ → P → Bool
  any_host resolve [] p = false
  any_host resolve (name ∷ names) p = is_host (resolve name) p || any_host resolve names p

  abbrev pub in_mesh : P → Bool
  in_mesh p =
      matches (network 10 0 0 0 8) p
      || (matches (network 172 16 0 0 12) p
          || (matches (network 192 168 0 0 16) p || matches (network 169 254 0 0 16) p))

  abbrev pub leaves : (ℕ → Option ℕ) → EgressPolicy → P → Bool
  leaves resolve policy p =
      matches to_loopback p
      || (matches established p
          || (any_port policy.allowed_ports p
              || (any_host resolve policy.allowed_hosts p
                  || (not (policy.block_internal_mesh && in_mesh p)
                      && (ltb 0 policy.max_bandwidth_mbps
                          && matches (within_rate policy.max_bandwidth_mbps) p)))))

  unfoldable pub lets_out : List Command → P → Bool
  lets_out cs p = is_accept (first_match cs drop p)

  lets_out-rule :
      (m : Match) (cs : List Command) (p : P)
      → lets_out (append output m accept ∷ cs) p ≡ matches m p || lets_out cs p
  unfolding lets_out
  lets_out-rule m cs p = elim (Bool-cases (matches m p)) [ inl e ↦ rw e refl | inr e ↦ rw e refl ]

  lets_out-ports :
      (ports : List ℕ) (cs : List Command) (p : P)
      → lets_out (port_commands ports ++ cs) p ≡ any_port ports p || lets_out cs p
  unfolding port_commands
  lets_out-ports [] cs p = refl
  lets_out-ports (n ∷ ns) cs p =
      rw
        (
          lets_out-rule (tcp_port n) (append output (udp_port n) accept ∷ (port_commands ns ++ cs))
              p,
          lets_out-rule (udp_port n) (port_commands ns ++ cs) p,
          lets_out-ports ns cs p,
        )
        (ground arith)

  lets_out-host_added :
      (o : Option ℕ) (cs ds : List Command) (p : P)
      → lets_out (host_added o cs ++ ds) p ≡ is_host o p || lets_out (cs ++ ds) p
  lets_out-host_added none cs ds p = refl
  lets_out-host_added (some ip) cs ds p = elim (Bool-cases (ip == 0)) [
    | inl z ↦ rw z refl
    | inr z ↦ rw z (lets_out-rule (host ip) (cs ++ ds) p)
  ]

  or_assoc : (a b c : Bool) → (a || b) || c ≡ a || (b || c)
  or_assoc a b c = ground arith

  lets_out-hosts :
      (resolve : ℕ → Option ℕ) (names : List ℕ) (cs : List Command) (p : P)
      → lets_out (host_commands resolve names ++ cs) p ≡ any_host resolve names p || lets_out cs p
  unfolding host_commands
  lets_out-hosts resolve [] cs p = refl
  lets_out-hosts resolve (n ∷ ns) cs p =
      rw
        (
          lets_out-host_added (resolve n) (host_commands resolve ns) cs p,
          lets_out-hosts resolve ns cs p,
          or_assoc (is_host (resolve n) p) (any_host resolve ns p) (lets_out cs p),
        )
        refl

  lets_out-mesh :
      (block : Bool) (cs : List Command) (p : P)
      → lets_out (mesh_commands block ++ cs) p ≡ not (block && in_mesh p) && lets_out cs p
  unfolding lets_out
  lets_out-mesh false cs p = refl
  lets_out-mesh true cs p = ground arith

  lets_out-rate :
      (mbps : ℕ) (p : P)
      → lets_out (rate_commands mbps) p ≡ ltb 0 mbps && matches (within_rate mbps) p
  unfolding lets_out
  lets_out-rate mbps p = ground arith

  pub lets_out-commands :
      (resolve : ℕ → Option ℕ) (policy : EgressPolicy) (p : P)
      → lets_out (commands resolve policy) p ≡ leaves resolve policy p
  unfolding commands lets_out
  lets_out-commands resolve policy p =
      let mesh = mesh_commands policy.block_internal_mesh in
      let rate = rate_commands policy.max_bandwidth_mbps in
      let hosts = host_commands resolve policy.allowed_hosts in
      let ports = port_commands policy.allowed_ports in
      rw
        (
          lets_out-rule to_loopback
              (append input from_loopback accept
                ∷ append output established accept
                ∷ (ports ++ (hosts ++ (mesh ++ rate))))
              p,
          lets_out-rule established (ports ++ (hosts ++ (mesh ++ rate))) p,
          lets_out-ports policy.allowed_ports (hosts ++ (mesh ++ rate)) p,
          lets_out-hosts resolve policy.allowed_hosts (mesh ++ rate) p,
          lets_out-mesh policy.block_internal_mesh rate p,
          lets_out-rate policy.max_bandwidth_mbps p,
        )
        refl

  -- What is let through stays so, whatever rules come after.
  pub lets_out-++ :
      (cs ds : List Command) (p : P) → lets_out cs p ≡ true → lets_out (cs ++ ds) p ≡ true
  unfolding lets_out
  lets_out-++ [] ds p h = cc
  lets_out-++ (set_policy chain u ∷ cs) ds p h = lets_out-++ cs ds p h
  lets_out-++ (append input m u ∷ cs) ds p h = lets_out-++ cs ds p h
  lets_out-++ (append forward m u ∷ cs) ds p h = lets_out-++ cs ds p h
  lets_out-++ (append output m u ∷ cs) ds p h = elim (Bool-cases (matches m p)) [
    | inl e ↦ let h' : is_accept u ≡ true = rw e at h in rw e h'
    | inr e ↦ rw e (lets_out-++ cs ds p (rw e at h))
  ]

  -- What the first rule that takes the packet says, or else the given answer.
  abbrev pub passes : List Command → Bool → P → Bool
  passes [] b p = b
  passes (append output m u ∷ cs) b p =
      let rest = passes cs b p in if matches m p then is_accept u else rest
  passes (append input m u ∷ cs) b p = passes cs b p
  passes (append forward m u ∷ cs) b p = passes cs b p
  passes (set_policy chain u ∷ cs) b p = passes cs b p

  pub first_match-++ :
      (cs ds : List Command) (t : Target) (p : P)
      → is_accept (first_match (cs ++ ds) t p) ≡ passes cs (is_accept (first_match ds t p)) p
  first_match-++ [] ds t p = refl
  first_match-++ (set_policy chain u ∷ cs) ds t p = first_match-++ cs ds t p
  first_match-++ (append input m u ∷ cs) ds t p = first_match-++ cs ds t p
  first_match-++ (append forward m u ∷ cs) ds t p = first_match-++ cs ds t p
  first_match-++ (append output m u ∷ cs) ds t p = elim (Bool-cases (matches m p)) [
    | inl e ↦ rw e refl
    | inr e ↦ rw e (first_match-++ cs ds t p)
  ]

  pub passes_mono :
      (cs : List Command) (b c : Bool) (p : P)
      → (b ≡ true → c ≡ true)
      → passes cs b p ≡ true
      → passes cs c p ≡ true
  passes_mono [] b c p f h = f h
  passes_mono (set_policy chain u ∷ cs) b c p f h = passes_mono cs b c p f h
  passes_mono (append input m u ∷ cs) b c p f h = passes_mono cs b c p f h
  passes_mono (append forward m u ∷ cs) b c p f h = passes_mono cs b c p f h
  passes_mono (append output m u ∷ cs) b c p f h = elim (Bool-cases (matches m p)) [
    | inl e ↦ let h' : is_accept u ≡ true = rw e at h in rw e h'
    | inr e ↦ rw e (passes_mono cs b c p f (rw e at h))
  ]
