-- ===== src/Governance/Delegation/Index.antt =====
-- The reverse index against the delegations.
use abundance_protocol.Prelude.{
  includes-exclude, includes-include, exclude, include, includes, ap, ℕ, ◌≡◌, ◌≢◌, Bool, true,
  false, inl, inr, Option, none, some, List, [], arith, Option-cases, Bool-cases, ◌==◌,
  if◌then◌else◌,
}
use abundance_protocol.Dict.{Dict, lookup, lookup-insert, lookup-erase, lookup-insert_self}
use abundance_protocol.Registry.{update_key, update_key_missing, update_key_found}
use abundance_protocol.Result.{ok}
use abundance_protocol.Governance.{Engine, Delegations}
use abundance_protocol.Governance.Delegation.{
  opened, drop_old, clear_delegation, point, set_delegation,
}
use abundance_protocol.Governance.Delegation.Acyclic.{set_delegation_guarded}

-- the delegators that the index lists for an address
abbrev pub members : ℕ → Dict (List ℕ) → List ℕ
members b m = elim (lookup b m) [ none ↦ [] | some xs ↦ xs ]

abbrev pub points_to : ℕ → ℕ → Dict ℕ → Bool
points_to a b d = elim (lookup a d) [ none ↦ false | some y ↦ y == b ]

-- An address stands in the index of exactly the one that it delegates to, and nobody delegates to
-- the empty string.
pub record IsIndexed (s : Delegations) : Type 0 where
  pub agrees : (a b : ℕ) → includes a (members b s.index) ≡ points_to a b s.delegations
  pub named : (a : ℕ) → lookup a s.delegations ≢ some 0

members-remove :
    (x b k a : ℕ) (m : Dict (List ℕ))
    → includes x (members b (update_key k (exclude a) m)) ≡ (
        if k == b
        then (if a == x then false else includes x (members b m))
        else includes x (members b m))
members-remove x b k a m = elim (Option-cases (lookup k m)) [
  | inl e ↦ rw (update_key_missing k (exclude a) m e) (ground (arith, e))
  | inr (v, e) ↦
      rw (update_key_found k (exclude a) m e)
        (ground (arith, e, lookup-insert b k (exclude a v) m, includes-exclude x a v))
]

members-opened : (b k : ℕ) (m : Dict (List ℕ)) → members b (opened k m) ≡ members b m
members-opened b k m = ground (arith, lookup-insert b k [] m)

opened_found : (k : ℕ) (m : Dict (List ℕ)) → lookup k (opened k m) ≡ some (members k m)
opened_found k m = ground (arith, lookup-insert_self k [] m)

members-add :
    (x b k a : ℕ) (m : Dict (List ℕ))
    → includes x (members b (update_key k (include a) (opened k m))) ≡ (
        if k == b
        then (if a == x then true else includes x (members b m))
        else includes x (members b m))
members-add x b k a m = rw (update_key_found k (include a) (opened k m) (opened_found k m)) (
    ground (
      arith,
      lookup-insert b k (include a (members k m)) (opened k m),
      includes-include x a (members k m),
      members-opened b k m,
    ))

members-drop_old :
    (a : ℕ) (s : Delegations)
    → IsIndexed s
    → (x b : ℕ)
    → includes x (members b (drop_old a s.delegations s.index))
      ≡ (if a == x then false else points_to x b s.delegations)
unfolding drop_old
members-drop_old a s h x b = elim (Option-cases (lookup a s.delegations)) [
  | inl e ↦ rw (e, drop_old) (ground (arith, e, h.agrees x b))
  | inr (old, e) ↦
      rw (e, drop_old)
        (ground (arith, e, h.named a, h.agrees x b, members-remove x b old a s.index))
]

point-IsIndexed : (a b : ℕ) (s : Delegations) → b ≢ 0 → IsIndexed s → IsIndexed (point a b s)
unfolding point
point-IsIndexed a b s ne h = record {
  agrees = λ x y. ground (
    arith,
    members-add x y b a (drop_old a s.delegations s.index),
    members-drop_old a s h x y,
    lookup-insert x a b s.delegations,
  );
  named = λ x. ground (arith, h.named x, lookup-insert x a b s.delegations);
}

clear-IsIndexed : (a : ℕ) (s : Delegations) → IsIndexed s → IsIndexed (clear_delegation a s)
unfolding clear_delegation
clear-IsIndexed a s h = elim (Option-cases (lookup a s.delegations)) [
  | inl e ↦ rw (e, clear_delegation) h
  | inr (old, e) ↦ elim (Bool-cases (old == 0)) [
    | inl falsy ↦ rw (e, clear_delegation) (rw falsy h)
    | inr truthy ↦
        rw (e, clear_delegation)
          (rw truthy (record {
            agrees = λ x y. ground (
              arith,
              e,
              members-remove x y old a s.index,
              h.agrees x y,
              lookup-erase x a s.delegations,
            );
            named = λ x. ground (arith, h.named x, lookup-erase x a s.delegations);
          }))
  ]
]

-- setDelegation to anybody but the empty string, or to nobody, keeps the reverse index exact:
-- an address stands under another exactly when it delegates to it.
pub set_delegation-IsIndexed :
    {R : Type 0} (a : ℕ) (target : Option ℕ) (s s' : Engine R)
    → target ≢ some 0
    → IsIndexed s.delegation
    → set_delegation a target s ≡ ok s'
    → IsIndexed s'.delegation
unfolding set_delegation
set_delegation-IsIndexed a none s s' ne h e =
    let e' : clear_delegation a s.delegation ≡ s'.delegation = cc in
    rw (← e') (clear-IsIndexed a s.delegation h)
set_delegation-IsIndexed a (some b) s s' ne h e =
    let (_, _, _, now) = set_delegation_guarded a b s s' e in
    rw now (point-IsIndexed a b s.delegation (λ z. ne (ap some z)) h)
