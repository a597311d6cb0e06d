-- ===== src/Security/Firecracker/Eviction/Machines.antt =====
-- Lists of idle machines, and what is left of a Map without them (src/security/firecrackerHardening.ts).
use abundance_protocol.Prelude.{
  ℕ, zero, suc, ◌+◌, ◌≤◌, ◌<◌, ◌≡◌, ◌≢◌, refl, ap, sym, Bool, true, false, List, [], ◌∷◌, ◌==◌,
  length, take, All, arith, inl, inr, Bool-cases,
}
use abundance_protocol.Dict.{Dict, lookup, has, erase, lookup-erase}
use abundance_protocol.Governance.Proposals.{sort_by, insert_by}
use abundance_protocol.Sorting.{All-insert_by, All-sort_by}
use abundance_protocol.Security.Firecracker.{VmMetadata, IdleVm, is_idle, idle_vms}
use abundance_protocol.Security.Firecracker.Limits.{length-erase}

-- No key stands twice in a Map.
abbrev pub IsKeyed : {V : Type 0} → Dict V → Type 0
IsKeyed [] = Unit
IsKeyed ((k, v) ∷ m) = (has k m ≡ false) × IsKeyed m

-- Machines with different identifiers.
abbrev pub IsDistinct : List IdleVm → Type 0
IsDistinct [] = Unit
IsDistinct (v ∷ vs) = All (λ w. v.id ≢ w.id) vs × IsDistinct vs

module _ {A : Type 0} where
  All-map : {P Q : A → Type 0} → ((x : A) → P x → Q x) → (xs : List A) → All P xs → All Q xs
  All-map f [] h = tt
  All-map f (x ∷ xs) h = (f x h.0, All-map f xs h.1)

  pub All-take : (P : A → Type 0) (n : ℕ) (xs : List A) → All P xs → All P (take n xs)
  All-take P zero xs h = tt
  All-take P (suc n) [] h = tt
  All-take P (suc n) (x ∷ xs) h = (h.0, All-take P n xs h.1)

  pub length-take : (n : ℕ) (xs : List A) → n ≤ length xs → length (take n xs) ≡ n
  length-take zero xs h = refl
  length-take (suc n) [] h = omega arith
  length-take (suc n) (x ∷ xs) h = ap suc (length-take n xs (omega arith))

pub take-IsDistinct : (n : ℕ) (vs : List IdleVm) → IsDistinct vs → IsDistinct (take n vs)
take-IsDistinct zero vs h = tt
take-IsDistinct (suc n) [] h = tt
take-IsDistinct (suc n) (v ∷ vs) h =
    (All-take (λ w. v.id ≢ w.id) n vs h.0, take-IsDistinct n vs h.1)

insert_by-IsDistinct :
    (before : IdleVm → IdleVm → Bool) (v : IdleVm) (vs : List IdleVm)
    → All (λ w. v.id ≢ w.id) vs
    → IsDistinct vs
    → IsDistinct (insert_by before v vs)
unfolding insert_by
insert_by-IsDistinct before v [] new h = (tt, tt)
insert_by-IsDistinct before v (w ∷ ws) new h = elim (Bool-cases (before w v)) [
  | inl e ↦ rw e (
    All-insert_by before (λ x. w.id ≢ x.id) v ws (λ same. new.0 (sym same)) h.0,
    insert_by-IsDistinct before v ws new.1 h.1,
  )
  | inr e ↦ rw e (new, h)
]

pub sort_by-IsDistinct :
    (before : IdleVm → IdleVm → Bool) (vs : List IdleVm)
    → IsDistinct vs
    → IsDistinct (sort_by before vs)
unfolding sort_by
sort_by-IsDistinct before [] h = tt
sort_by-IsDistinct before (v ∷ vs) h =
    insert_by-IsDistinct before v (sort_by before vs) (All-sort_by before (λ w. v.id ≢ w.id) vs h.0)
      (sort_by-IsDistinct before vs h.1)

module _ {V : Type 0} where
  has-cons : (j k : ℕ) (v : V) (m : Dict V) → has j m ≡ true → has j ((k, v) ∷ m) ≡ true
  has-cons j k v m h = elim (Bool-cases (k == j)) [
    | inl e ↦ rw (e, has) refl
    | inr e ↦ rw (e, has) h
  ]

  has-erase : (j k : ℕ) (m : Dict V) → k ≢ j → has j m ≡ true → has j (erase k m) ≡ true
  has-erase j k m ne h =
      let e : lookup j (erase k m) ≡ lookup j m = ground (arith, lookup-erase j k m) in
      rw (e, has) h

  length-erase_found : (k : ℕ) (m : Dict V) → has k m ≡ true → suc (length (erase k m)) ≤ length m
  length-erase_found k [] h = cc
  length-erase_found k ((j, v) ∷ m) h = elim (Bool-cases (j == k)) [
    | inl e ↦ rw e (let less = length-erase k m in omega arith)
    | inr e ↦
        let h' : has k m ≡ true = rw (e, has) at h in
        rw e (let less = length-erase_found k m h' in omega arith)
  ]

-- The machines after their timers have fired.
unfoldable pub erase_all : {V : Type 0} → List IdleVm → Dict V → Dict V
erase_all [] m = m
erase_all (v ∷ vs) m = erase_all vs (erase v.id m)

pub length-erase_all :
    {V : Type 0} (vs : List IdleVm) (m : Dict V)
    → IsDistinct vs
    → All (λ v. has v.id m ≡ true) vs
    → length vs + length (erase_all vs m) ≤ length m
unfolding erase_all
length-erase_all [] m d h = omega arith
length-erase_all (v ∷ vs) m d h =
    let still : All (λ w. has w.id (erase v.id m) ≡ true) vs = kept vs d.0 h.1 in
    let less = length-erase_found v.id m h.0 in
    let rest = length-erase_all vs (erase v.id m) d.1 still in omega arith
  where
    kept :
        (ws : List IdleVm)
        → All (λ w. v.id ≢ w.id) ws
        → All (λ w. has w.id m ≡ true) ws
        → All (λ w. has w.id (erase v.id m) ≡ true) ws
    kept [] n f = tt
    kept (w ∷ ws) n f = (has-erase w.id v.id m n.0 f.0, kept ws n.1 f.1)

module _ (threshold now : ℕ) where
  pub idle_vms-found :
      (m : Dict VmMetadata) → All (λ v. has v.id m ≡ true) (idle_vms threshold now m)
  unfolding idle_vms
  idle_vms-found [] = tt
  idle_vms-found ((id, vm) ∷ m) =
      let rest : All (λ v. has v.id ((id, vm) ∷ m) ≡ true) (idle_vms threshold now m) =
        All-map (λ v h. has-cons v.id id vm m h) (idle_vms threshold now m) (idle_vms-found m) in
      elim (Bool-cases (is_idle threshold now vm)) [
        | inl e ↦ rw e (ground arith, rest)
        | inr e ↦ rw e rest
      ]

  pub idle_vms-IsDistinct :
      (m : Dict VmMetadata) → IsKeyed m → IsDistinct (idle_vms threshold now m)
  unfolding idle_vms
  idle_vms-IsDistinct [] k = tt
  idle_vms-IsDistinct ((id, vm) ∷ m) k = elim (Bool-cases (is_idle threshold now vm)) [
    | inl e ↦
        rw e
          (All-map other (idle_vms threshold now m) (idle_vms-found m), idle_vms-IsDistinct m k.1)
    | inr e ↦ rw e (idle_vms-IsDistinct m k.1)
  ]
    where
      other : (v : IdleVm) → has v.id m ≡ true → id ≢ v.id
      other v h same = let h' : has id m ≡ true = rw same h in cc

  pub length-idle_vms :
      (m : Dict VmMetadata)
      → All (λ (e : ℕ × VmMetadata). e.1.last_activity + threshold < now) m
      → length (idle_vms threshold now m) ≡ length m
  unfolding idle_vms
  length-idle_vms [] h = refl
  length-idle_vms ((id, vm) ∷ m) h = ground (arith, length-idle_vms m h.1)
