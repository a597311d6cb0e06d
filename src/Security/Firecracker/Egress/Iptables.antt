-- ===== src/Security/Firecracker/Egress/Iptables.antt =====
-- What is relied on of iptables, for a packet that leaves a machine.
use abundance_protocol.Prelude.{
  Bool, true, false, ◌≡◌, ◌⊎◌, refl, sym, ap, ◌∙◌, List, [], ◌∷◌, ◌++◌, inl, inr, Bool-cases,
}
use abundance_protocol.Security.Firecracker.Egress.{
  output, input, forward, Target, accept, Match, Command, set_policy, append,
}
use abundance_protocol.Security.Firecracker.Egress.Verdicts.{policy_of, first_match, decide}

module _ {P : Type 0} (matches : Match → P → Bool) where
  -- No rule of the OUTPUT chain takes the packet.
  abbrev pub IsUntaken : List Command → P → Type 0
  IsUntaken [] p = Unit
  IsUntaken (append output m u ∷ cs) p = (matches m p ≡ false) × IsUntaken cs p
  IsUntaken (append input m u ∷ cs) p = IsUntaken cs p
  IsUntaken (append forward m u ∷ cs) p = IsUntaken cs p
  IsUntaken (set_policy chain u ∷ cs) p = IsUntaken cs p

  -- `verdict cs p` is what becomes of a packet after the commands `cs` on a namespace without rules: the rules
  -- of the chain are traversed in the order in which they were appended, the first that takes the packet
  -- decides, and the policy of the chain where none does, which is ACCEPT unless it is set.
  pub record IsIptables (verdict : List Command → P → Target) : Type 0 where
    pub hit :
        (cs ds : List Command) (m : Match) (t : Target) (p : P)
        → IsUntaken cs p
        → matches m p ≡ true
        → verdict (cs ++ (append output m t ∷ ds)) p ≡ t
    pub miss : (cs : List Command) (p : P) → IsUntaken cs p → verdict cs p ≡ policy_of accept cs

  record IsTaken (cs : List Command) (p : P) : Type 0 where
    before : List Command
    after : List Command
    rule : Match
    target : Target
    joined : before ++ (append output rule target ∷ after) ≡ cs
    untaken : IsUntaken before p
    takes : matches rule p ≡ true
    first : (t : Target) → first_match matches cs t p ≡ target

  record IsLeft (cs : List Command) (p : P) : Type 0 where
    untaken : IsUntaken cs p
    falls : (t : Target) → first_match matches cs t p ≡ t

  -- A command that takes nothing before the others.
  later-IsTaken :
      (c : Command) (cs : List Command) (p : P)
      → ((bs : List Command) → IsUntaken bs p → IsUntaken (c ∷ bs) p)
      → ((t : Target) → first_match matches (c ∷ cs) t p ≡ first_match matches cs t p)
      → IsTaken cs p ⊎ IsLeft cs p
      → IsTaken (c ∷ cs) p ⊎ IsLeft (c ∷ cs) p
  later-IsTaken c cs p passed same (inl h) = inl (record {
    before = c ∷ h.before;
    after = h.after;
    rule = h.rule;
    target = h.target;
    joined = ap (λ ds. c ∷ ds) h.joined;
    untaken = passed h.before h.untaken;
    takes = h.takes;
    first = λ t. same t ∙ h.first t;
  })
  later-IsTaken c cs p passed same (inr h) =
      inr (record { untaken = passed cs h.untaken; falls = λ t. same t ∙ h.falls t })

  IsTaken-cases : (cs : List Command) (p : P) → IsTaken cs p ⊎ IsLeft cs p
  IsTaken-cases [] p = inr (record { untaken = tt; falls = λ t. refl })
  IsTaken-cases (set_policy chain u ∷ cs) p =
      later-IsTaken (set_policy chain u) cs p (λ bs h. h) (λ t. refl) (IsTaken-cases cs p)
  IsTaken-cases (append input m u ∷ cs) p =
      later-IsTaken (append input m u) cs p (λ bs h. h) (λ t. refl) (IsTaken-cases cs p)
  IsTaken-cases (append forward m u ∷ cs) p =
      later-IsTaken (append forward m u) cs p (λ bs h. h) (λ t. refl) (IsTaken-cases cs p)
  IsTaken-cases (append output m u ∷ cs) p = elim (Bool-cases (matches m p)) [
    | inl e ↦ inl (record {
      before = [];
      after = cs;
      rule = m;
      target = u;
      joined = refl;
      untaken = tt;
      takes = e;
      first = λ t. rw e refl;
    })
    | inr e ↦
        later-IsTaken (append output m u) cs p (λ bs h. (e, h)) (λ t. rw e refl)
          (IsTaken-cases cs p)
  ]

  pub verdict_decides :
      (verdict : List Command → P → Target)
      → IsIptables verdict
      → (cs : List Command) (p : P) → verdict cs p ≡ decide matches cs p
  verdict_decides verdict laws cs p = elim (IsTaken-cases cs p) [
    | inl h ↦
        ap (λ ds. verdict ds p) (sym h.joined)
        ∙ laws.hit h.before h.after h.rule h.target p h.untaken h.takes
        ∙ sym (h.first (policy_of accept cs))
    | inr h ↦ laws.miss cs p h.untaken ∙ sym (h.falls (policy_of accept cs))
  ]

  -- `decide` is a function that meets all of it.
  pub decide-IsIptables : IsIptables (decide matches)
  decide-IsIptables = record {
    hit = λ cs ds m t p. found cs ds m t p _;
    miss = λ cs p. fallen cs _ p;
  }
    where
      found :
          (cs ds : List Command) (m : Match) (t : Target) (p : P) (u : Target)
          → IsUntaken cs p
          → matches m p ≡ true
          → first_match matches (cs ++ (append output m t ∷ ds)) u p ≡ t
      found [] ds m t p u h e = rw e refl
      found (set_policy chain v ∷ cs) ds m t p u h e = found cs ds m t p u h e
      found (append input n v ∷ cs) ds m t p u h e = found cs ds m t p u h e
      found (append forward n v ∷ cs) ds m t p u h e = found cs ds m t p u h e
      found (append output n v ∷ cs) ds m t p u h e = rw h.0 (found cs ds m t p u h.1 e)

      fallen :
          (cs : List Command) (u : Target) (p : P) → IsUntaken cs p → first_match matches cs u p ≡ u
      fallen [] u p h = refl
      fallen (set_policy chain v ∷ cs) u p h = fallen cs u p h
      fallen (append input n v ∷ cs) u p h = fallen cs u p h
      fallen (append forward n v ∷ cs) u p h = fallen cs u p h
      fallen (append output n v ∷ cs) u p h = rw h.0 (fallen cs u p h.1)
