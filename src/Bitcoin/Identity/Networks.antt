-- ===== src/Bitcoin/Identity/Networks.antt =====
-- Which network is chosen.
use abundance_protocol.Prelude.{
  ◌≡◌, ◌⊎◌, ◌↔◌, Bool, true, false, not, ◌||◌, Option, none, some, refl, ap, arith, inl, inr,
  if◌then◌else◌,
}
use abundance_protocol.Prelude.Text.{codes, ===_eq, ===_self}
use abundance_protocol.Bitcoin.Identity.{
  Text, NetworkType, mainnet, testnet, regtest, is_text, lower_of, detect_network,
}

is_text_iff : (o : Option Text) (t : Text) → (is_text o t ≡ true) ↔ (o ≡ some t)
is_text_iff none t = (λ h. cc, λ h. cc)
is_text_iff (some u) t =
    (λ h. ap some (===_eq u t h), λ h. let e : u ≡ t = ground arith in rw e (===_self t))

-- The branches of the choice, over the four tests.
abbrev choice : Bool → Bool → Bool → Bool → NetworkType
choice main bitcoin confirmed reg =
    if main || bitcoin
    then (if not confirmed then testnet else mainnet)
    else if reg
    then regtest
    else testnet

choice_mainnet :
    (a b c d : Bool) → choice a b c d ≡ mainnet → ((a ≡ true) ⊎ (b ≡ true)) × (c ≡ true)
choice_mainnet true b c d h = (inl refl, ground arith)
choice_mainnet false b c d h = ground arith

-- Mainnet is chosen exactly where it is asked for, by either of its names and in whatever case, and
-- confirmed by 'yes'.
pub detect_network_mainnet :
    (network confirmed : Option Text)
    → (detect_network network confirmed ≡ mainnet) ↔ (
        ((lower_of network ≡ some (codes "mainnet")) ⊎ (lower_of network ≡ some (codes "bitcoin")))
        × (confirmed ≡ some (codes "yes")))
unfolding detect_network
detect_network_mainnet network confirmed =
    let main = is_text_iff (lower_of network) (codes "mainnet") in
    let bitcoin = is_text_iff (lower_of network) (codes "bitcoin") in
    let yes' = is_text_iff confirmed (codes "yes") in
    (
      λ h.
          let (named, sure) =
            choice_mainnet (is_text (lower_of network) (codes "mainnet"))
              (is_text (lower_of network) (codes "bitcoin")) (is_text confirmed (codes "yes"))
              (is_text (lower_of network) (codes "regtest")) h in
          (elim named [ inl e ↦ inl (main.0 e) | inr e ↦ inr (bitcoin.0 e) ], yes'.0 sure),
      λ h.
          rw (yes'.1 h.1)
            (elim h.0 [ inl e ↦ rw (main.1 e) refl | inr e ↦ rw (bitcoin.1 e) (ground arith) ]),
    )
