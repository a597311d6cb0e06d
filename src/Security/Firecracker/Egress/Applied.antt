-- ===== src/Security/Firecracker/Egress/Applied.antt =====
-- What a network policy lets through once it is applied, on a machine with whatever rules it has already.
use mathlib.Core.Path.{subst}
use abundance_protocol.Prelude.{
  ℕ, Bool, true, ◌&&◌, ◌≡◌, ◌⊎◌, refl, ap, sym, ◌∙◌, Option, List, [], ◌∷◌, ◌++◌, ◌==◌, length, inl,
  inr, Bool-cases, Option-cases,
}
use abundance_protocol.Result.{Result, ok, err}
use abundance_protocol.Dict.{lookup}
use abundance_protocol.Security.Firecracker.{
  FirecrackerHardening, FirecrackerError, host_error, vm_not_found, empty_policy,
}
use abundance_protocol.Security.Firecracker.Egress.{
  EgressPolicy, output, input, forward, Target, accept, drop, Match, Command, set_policy, append,
  commands, execute, setup_iptables_rules, apply_network_policy,
}
use abundance_protocol.Security.Firecracker.Egress.Dropping.{
  IsDropping, policy_of-IsDropping, commands-IsDropping, IsDropping-++,
}
use abundance_protocol.Security.Firecracker.Egress.Verdicts.{
  policy_of-++, passes, first_match-++, passes_mono, is_accept, policy_of, leaves, lets_out,
  lets_out-commands, lets_out-++,
}
use abundance_protocol.Security.Firecracker.Egress.Iptables.{IsIptables, verdict_decides}

-- What was carried out is a beginning of the commands, and all of them where nothing is thrown.
record IsBeginning (cs : List Command) (r : Result FirecrackerError (Unit {0}) × List Command)
    : Type 0 where
  rest : List Command
  joined : r.1 ++ rest ≡ cs
  complete : r.0 ≡ ok tt → r.1 ≡ cs

execute-IsBeginning : (runs : Command → Bool) (cs : List Command) → IsBeginning cs (execute runs cs)
unfolding execute
execute-IsBeginning runs [] = record { rest = []; joined = refl; complete = λ _. refl }
execute-IsBeginning runs (c ∷ cs) = elim (Bool-cases (runs c)) [
  | inl e ↦
      let b = execute-IsBeginning runs cs in
      rw e (record {
        rest = b.rest;
        joined = ap (λ ds. c ∷ ds) b.joined;
        complete = λ h. ap (λ ds. c ∷ ds) (b.complete h);
      })
  | inr e ↦ rw e (record { rest = c ∷ cs; joined = refl; complete = λ h. cc })
]

beginning-IsDropping : (ds rest : List Command) → IsDropping (ds ++ rest) → IsDropping ds
beginning-IsDropping [] rest h = tt
beginning-IsDropping (set_policy output u ∷ ds) rest h = (h.0, beginning-IsDropping ds rest h.1)
beginning-IsDropping (set_policy input u ∷ ds) rest h = beginning-IsDropping ds rest h
beginning-IsDropping (set_policy forward u ∷ ds) rest h = beginning-IsDropping ds rest h
beginning-IsDropping (append chain m u ∷ ds) rest h = beginning-IsDropping ds rest h

execute-IsDropping :
    (runs : Command → Bool) (cs : List Command) → IsDropping cs → IsDropping (execute runs cs).1
execute-IsDropping runs cs h =
    let b = execute-IsBeginning runs cs in
    beginning-IsDropping (execute runs cs).1 b.rest (subst IsDropping (sym b.joined) h)

-- The policy of the chain is the first thing that is carried out.
first_carried :
    (t : Target) (runs : Command → Bool) (cs : List Command)
    → IsDropping cs
    → ((execute runs (set_policy output drop ∷ cs)).1 ≡ [])
      ⊎ (policy_of t (execute runs (set_policy output drop ∷ cs)).1 ≡ drop)
unfolding execute
first_carried t runs cs h = elim (Bool-cases (runs (set_policy output drop))) [
  | inl e ↦ rw e (inr (policy_of-IsDropping (execute runs cs).1 (execute-IsDropping runs cs h)))
  | inr e ↦ rw e (inl refl)
]

module _ (resolve : ℕ → Option ℕ) (pid_file : Bool) (runs : Command → Bool) (vm_id : ℕ)
    (policy : EgressPolicy) (s : FirecrackerHardening) where
  -- A call carries out nothing and throws, or it runs the commands of the policy.
  apply-cases :
      ((e : FirecrackerError) × (apply_network_policy resolve pid_file runs vm_id policy s
          ≡ (err e, [])))
      ⊎ (apply_network_policy resolve pid_file runs vm_id policy s
          ≡ execute runs (commands resolve policy))
  unfolding apply_network_policy setup_iptables_rules
  apply-cases = elim (Option-cases (lookup vm_id s.active_vms)) [
    | inl e ↦ rw (e, apply_network_policy) (inl (vm_not_found, refl))
    | inr (vm, e) ↦
        elim (Bool-cases (length policy.allowed_ports == 0 && length policy.allowed_hosts == 0)) [
          | inl b ↦ rw (e, b, apply_network_policy) (inl (empty_policy, refl))
          | inr b ↦ elim (Bool-cases pid_file) [
            | inl f ↦ rw (e, b, apply_network_policy) (rw (e, f, setup_iptables_rules) (inr refl))
            | inr f ↦
                rw (e, b, apply_network_policy)
                  (rw (e, f, setup_iptables_rules) (inl (host_error, refl)))
          ]
        ]
  ]

  apply-IsDropping : IsDropping (apply_network_policy resolve pid_file runs vm_id policy s).1
  apply-IsDropping = elim apply-cases [
    | inl (e, h) ↦ rw h tt
    | inr h ↦
        rw h
          (execute-IsDropping runs (commands resolve policy) (commands-IsDropping resolve policy))
  ]

  apply-ok :
      (apply_network_policy resolve pid_file runs vm_id policy s).0 ≡ ok tt
      → (apply_network_policy resolve pid_file runs vm_id policy s).1 ≡ commands resolve policy
  apply-ok k = elim apply-cases [
    | inl (e, h) ↦ let k' : err e ≡ ok tt = rw h at k in cc
    | inr h ↦ rw h ((execute-IsBeginning runs (commands resolve policy)).complete (rw h at k))
  ]

-- What the commands that were carried out let through, all of them do.
completed :
    {P : Type 0} (matches : Match → P → Bool) (runs : Command → Bool) (resolve : ℕ → Option ℕ)
    (policy : EgressPolicy) (p : P)
    → lets_out matches (execute runs (commands resolve policy)).1 p ≡ true
    → leaves matches resolve policy p ≡ true
completed matches runs resolve policy p h =
    let b = execute-IsBeginning runs (commands resolve policy) in
    sym (lets_out-commands matches resolve policy p)
    ∙ subst (λ cs. lets_out matches cs p ≡ true) b.joined
        (lets_out-++ matches (execute runs (commands resolve policy)).1 b.rest p h)

module _ {P : Type 0} (matches : Match → P → Bool) (verdict : List Command → P → Target)
    (iptables : IsIptables matches verdict) where
  -- What becomes of a packet, where the policy of the chain is DROP after all.
  verdict-++ :
      (earlier cs : List Command) (p : P)
      → policy_of (policy_of accept earlier) cs ≡ drop
      → is_accept (verdict (earlier ++ cs) p) ≡ passes matches earlier (lets_out matches cs p) p
  unfolding lets_out
  verdict-++ earlier cs p drops =
      rw
        (
          verdict_decides matches verdict iptables (earlier ++ cs) p,
          policy_of-++ accept earlier cs,
          drops,
        )
        (first_match-++ matches earlier cs drop p)

  -- Where a policy is applied without an error, the first of the earlier rules of the machine that takes a packet
  -- decides on it. A packet that none of them takes leaves the machine exactly if it goes to the loopback
  -- device, belongs to an established connection, goes to an allowed port on whatever host, goes to an allowed
  -- host that was resolved, or, where a bandwidth is set, stays within its rate and does not go to a blocked
  -- network of the mesh.
  pub apply_network_policy_iff :
      (earlier : List Command) (resolve : ℕ → Option ℕ) (pid_file : Bool) (runs : Command → Bool)
      (vm_id : ℕ) (policy : EgressPolicy) (s : FirecrackerHardening) (p : P)
      → (apply_network_policy resolve pid_file runs vm_id policy s).0 ≡ ok tt
      → is_accept
          (verdict (earlier ++ (apply_network_policy resolve pid_file runs vm_id policy s).1) p)
        ≡ passes matches earlier (leaves matches resolve policy p) p
  unfolding commands
  apply_network_policy_iff earlier resolve pid_file runs vm_id policy s p k =
      rw (apply-ok resolve pid_file runs vm_id policy s k) (
        verdict-++ earlier (commands resolve policy) p
          (policy_of-IsDropping (commands resolve policy) (commands-IsDropping resolve policy))
        ∙ ap (λ b. passes matches earlier b p) (lets_out-commands matches resolve policy p))

  -- Wherever a call stops, be it with an error or not, the packets that leave the machine are among those that
  -- would if it had gone through, if any command was carried out at all: those that an earlier rule lets
  -- through, and, of the packets that none takes, those that the policy does.
  pub apply_network_policy_partial :
      (earlier : List Command) (resolve : ℕ → Option ℕ) (pid_file : Bool) (runs : Command → Bool)
      (vm_id : ℕ) (policy : EgressPolicy) (s : FirecrackerHardening) (p : P)
      → is_accept
          (verdict (earlier ++ (apply_network_policy resolve pid_file runs vm_id policy s).1) p)
        ≡ true
      → ((apply_network_policy resolve pid_file runs vm_id policy s).1 ≡ [])
        ⊎ (passes matches earlier (leaves matches resolve policy p) p ≡ true)
  unfolding commands
  apply_network_policy_partial earlier resolve pid_file runs vm_id policy s p k =
      elim (apply-cases resolve pid_file runs vm_id policy s) [
        | inl (e, h) ↦ rw h (inl refl)
        | inr h ↦
            rw h
              (elim (first_carried (policy_of accept earlier) runs _
                (commands-IsDropping resolve policy).1) [
                  | inl none_done ↦ inl none_done
                  | inr dropped ↦
                      let done = (execute runs (commands resolve policy)).1 in
                      let out = sym (verdict-++ earlier done p dropped) ∙ rw h at k in
                      inr (
                        passes_mono matches earlier (lets_out matches done p)
                          (leaves matches resolve policy p) p
                          (completed matches runs resolve policy p) out)
                ])
      ]

  -- A second policy of a machine forbids nothing that the first one lets through, if the first was applied
  -- without an error: its rules come after those of the first, as many of them as are carried out.
  pub second_policy_widens :
      (resolve resolve' : ℕ → Option ℕ) (pid_file pid_file' : Bool) (runs runs' : Command → Bool)
      (vm_id : ℕ) (first second : EgressPolicy) (s s' : FirecrackerHardening) (p : P)
      → (apply_network_policy resolve pid_file runs vm_id first s).0 ≡ ok tt
      → leaves matches resolve first p ≡ true
      → is_accept (
          verdict
            ((apply_network_policy resolve pid_file runs vm_id first s).1
              ++ (apply_network_policy resolve' pid_file' runs' vm_id second s').1)
            p)
        ≡ true
  unfolding lets_out commands
  second_policy_widens resolve resolve' pid_file pid_file' runs runs' vm_id first second s s' p k
        h =
      let more = (apply_network_policy resolve' pid_file' runs' vm_id second s').1 in
      let drops =
        IsDropping-++ (commands resolve first) more (commands-IsDropping resolve first)
          (apply-IsDropping resolve' pid_file' runs' vm_id second s') in
      rw
        (
          apply-ok resolve pid_file runs vm_id first s k,
          verdict_decides matches verdict iptables (commands resolve first ++ more) p,
          policy_of-IsDropping (commands resolve first ++ more) drops,
        )
        (lets_out-++ matches (commands resolve first) more p
          (lets_out-commands matches resolve first p ∙ h))
