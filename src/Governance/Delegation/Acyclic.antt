-- ===== src/Governance/Delegation/Acyclic.antt =====
-- Cycles of delegations: setDelegation's loop that looks for one, and the chains of delegations.
use abundance_protocol.Prelude.{
  includes, ℕ, zero, suc, ◌+◌, ◌≤◌, ◌<◌, ◌≡◌, ◌≢◌, refl, false, inl, inr, Option, none, some, List,
  [], ◌∷◌, arith, Option-cases, Bool-cases, ◌==◌, length, if◌then◌else◌,
}
use abundance_protocol.Dict.{
  Dict, lookup, insert, erase, lookup-insert, lookup-insert_ne, lookup-erase,
}
use abundance_protocol.Result.{ok}
use abundance_protocol.Governance.{Delegations, Engine}
use abundance_protocol.Governance.Delegation.{
  voted_in_active, clear, out_of_fuel, walk, circular_check, clear_delegation, point,
  set_delegation,
}

-- The chain of delegations that begins at an address is finite.
pub data Ends (d : Dict ℕ) : ℕ → Type 0 where
  stop : {x : ℕ} → lookup x d ≡ none → Ends d x
  step : {x y : ℕ} → lookup x d ≡ some y → Ends d y → Ends d x

abbrev pub IsAcyclic : Dict ℕ → Type 0
IsAcyclic d = (x : ℕ) → Ends d x

-- the entries that the loop has not visited
abbrev unvisited : Dict ℕ → List ℕ → ℕ
unvisited [] vs = 0
unvisited ((k, _) ∷ d) vs = (if includes k vs then 0 else 1) + unvisited d vs

unvisited_mono : (d : Dict ℕ) (x : ℕ) (vs : List ℕ) → unvisited d (x ∷ vs) ≤ unvisited d vs
unvisited_mono [] x vs = omega arith
unvisited_mono ((k, v) ∷ d) x vs = ground (arith, unvisited_mono d x vs)

unvisited_lt :
    (d : Dict ℕ) (x : ℕ) (vs : List ℕ) {y : ℕ}
    → lookup x d ≡ some y
    → includes x vs ≡ false
    → unvisited d (x ∷ vs) < unvisited d vs
unvisited_lt [] x vs {y} h new = absurd (ground arith)
unvisited_lt ((k, v) ∷ d) x vs {y} h new =
    ground (arith, unvisited_lt d x vs {y = y}, unvisited_mono d x vs)

unvisited_all : (d : Dict ℕ) → unvisited d [] ≡ length d
unvisited_all [] = refl
unvisited_all (e ∷ d) = omega (arith, unvisited_all d)

walk_total :
    (fuel : ℕ) (d : Dict ℕ) (a x : ℕ) (vs : List ℕ)
    → unvisited d vs < fuel
    → walk fuel d a x vs ≢ out_of_fuel
unfolding walk
walk_total zero d a x vs h = absurd (omega arith)
walk_total (suc fuel) d a x vs h = elim (Option-cases (lookup x d)) [
  | inl e ↦ rw (e, walk) (cc)
  | inr (y, e) ↦ ground (arith, e, unvisited_lt d x vs e, walk_total fuel d a y (x ∷ vs))
]

-- The loop that looks for a cycle always leaves or throws: a visited entry is never visited again.
pub circular_check_total : (d : Dict ℕ) (a b : ℕ) → circular_check d a b ≢ out_of_fuel
unfolding circular_check
circular_check_total d a b = walk_total _ d a b [] (omega (arith, unvisited_all d))

walk_clear :
    (fuel : ℕ) (d : Dict ℕ) (a b x : ℕ) (vs : List ℕ)
    → a ≢ x
    → walk fuel d a x vs ≡ clear
    → Ends (insert a b d) x
unfolding walk
walk_clear zero d a b x vs ne h = absurd (ground arith)
walk_clear (suc fuel) d a b x vs ne h = elim (Option-cases (lookup x d)) [
  | inl e ↦ stop (rw (lookup-insert_ne x a b d ne) e)
  | inr (y, e) ↦
      step (rw (lookup-insert_ne x a b d ne) e)
        (walk_clear fuel d a b y (x ∷ vs) (ground (arith, e)) (ground (arith, e)))
]

Ends-insert :
    (d : Dict ℕ) (a b : ℕ) → Ends (insert a b d) b → {x : ℕ} → Ends d x → Ends (insert a b d) x
Ends-insert d a b hb {x} (stop e) = elim (Bool-cases (a == x)) [
  | inl same ↦ step (rw (lookup-insert x a b d, same)) hb
  | inr other ↦ stop (rw (lookup-insert x a b d, other) e)
]
Ends-insert d a b hb {x} (step e h) = elim (Bool-cases (a == x)) [
  | inl same ↦ step (rw (lookup-insert x a b d, same)) hb
  | inr other ↦ step (rw (lookup-insert x a b d, other) e) (Ends-insert d a b hb h)
]

Ends-erase : (d : Dict ℕ) (a : ℕ) {x : ℕ} → Ends d x → Ends (erase a d) x
Ends-erase d a {x} (stop e) = stop (ground (arith, lookup-erase x a d))
Ends-erase d a {x} (step e h) = elim (Bool-cases (a == x)) [
  | inl same ↦ stop (rw (lookup-erase x a d, same))
  | inr other ↦ step (rw (lookup-erase x a d, other) e) (Ends-erase d a h)
]

clear-IsAcyclic :
    (a : ℕ) (s : Delegations)
    → IsAcyclic s.delegations
    → IsAcyclic (clear_delegation a s).delegations
unfolding clear_delegation
clear-IsAcyclic a s h = elim (Option-cases (lookup a s.delegations)) [
  | inl e ↦ rw (e, clear_delegation) h
  | inr (old, e) ↦ elim (Bool-cases (old == 0)) [
    | inl falsy ↦ rw (e, clear_delegation) (rw falsy h)
    | inr truthy ↦ rw (e, clear_delegation) (rw truthy (λ x. Ends-erase s.delegations a (h x)))
  ]
]

-- What the guards of a delegation have established when it goes through.
pub set_delegation_guarded :
    {R : Type 0} (a b : ℕ) (s s' : Engine R)
    → set_delegation a (some b) s ≡ ok s'
    → (a ≢ b)
      × (circular_check s.delegation.delegations a b ≡ clear)
      × (voted_in_active a s.proposals ≡ false)
      × (s'.delegation ≡ point a b s.delegation)
unfolding set_delegation
set_delegation_guarded a b s s' h = ground arith

-- setDelegation, to an address or to nobody, keeps the delegations free of cycles: if every chain of
-- them ended before a call that returns, every chain ends after it.
pub set_delegation-IsAcyclic :
    {R : Type 0} (a : ℕ) (target : Option ℕ) (s s' : Engine R)
    → IsAcyclic s.delegation.delegations
    → set_delegation a target s ≡ ok s'
    → IsAcyclic s'.delegation.delegations
unfolding set_delegation circular_check point
set_delegation-IsAcyclic a none s s' h e =
    let e' : clear_delegation a s.delegation ≡ s'.delegation = cc in
    rw (← e') (clear-IsAcyclic a s.delegation h)
set_delegation-IsAcyclic a (some b) s s' h e =
    let (ne, passed, _, now) = set_delegation_guarded a b s s' e in
    let hb = walk_clear _ s.delegation.delegations a b b [] ne passed in
    rw now (λ x. Ends-insert s.delegation.delegations a b hb (h x))
