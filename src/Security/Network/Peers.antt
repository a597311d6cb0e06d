-- ===== src/Security/Network/Peers.antt =====
-- The spread of peers over subnets (src/security/networkHardening.ts: enforcePeerDiversity,
-- maintainDiverseBuckets, getSubnet24). An address is the list of the parts between its dots, `text` the
-- text that is made of parts, and `cap` the ceiling of 30% of a number, a product of binary64.
use abundance_protocol.Prelude.{
  ℕ, ◌+◌, ◌≤◌, Bool, List, [], ◌∷◌, ltb, ◌==◌, if◌then◌else◌, length, take, count, arith,
}
use abundance_protocol.Dict.{Dict, insert, lookup-insert}
use abundance_protocol.Security.Counts.{count_in, tally, excesses}

pub record Peer : Type 0 where
  pub id : ℕ
  pub ip : List ℕ

module _ (text : List ℕ → ℕ) (cap : ℕ → ℕ) where
  -- no parts stand for 'invalid'
  unfoldable pub get_subnet24 : List ℕ → ℕ
  get_subnet24 parts = if length parts == 4 then text (take 3 parts) else text []

  abbrev pub subnets : List (List ℕ) → List ℕ
  subnets [] = []
  subnets (ip ∷ ips) = get_subnet24 ip ∷ subnets ips

  abbrev pub addresses : List Peer → List (List ℕ)
  addresses [] = []
  addresses (p ∷ ps) = p.ip ∷ addresses ps

  -- Returns whether it is valid, and the counts, whose keys are the subnets.
  unfoldable pub enforce_peer_diversity : List Peer → Bool × Dict ℕ
  enforce_peer_diversity peers =
      let counts = tally (subnets (addresses peers)) [] in
      let few = if ltb (length counts) 3 then 1 else 0 in
      (few + excesses (λ n. ltb (cap (length peers)) n) counts == 0, counts)

  -- the loop over the peers of a bucket
  unfoldable pub keep_loop : ℕ → List (List ℕ) → Dict ℕ → List (List ℕ)
  keep_loop most [] counts = []
  keep_loop most (peer ∷ peers) counts =
      let subnet = get_subnet24 peer in
      let count = count_in subnet counts in
      let with_peer = keep_loop most peers (insert subnet (count + 1) counts) in
      let without_peer = keep_loop most peers counts in
      if ltb count most then peer ∷ with_peer else without_peer

  -- the loop over the buckets
  unfoldable pub sanitize : Dict (List (List ℕ)) → Dict (List (List ℕ)) → Dict (List (List ℕ))
  sanitize [] sanitized = sanitized
  sanitize ((bucket_id, peers) ∷ buckets) sanitized =
      sanitize buckets (insert bucket_id (keep_loop (cap (length peers)) peers []) sanitized)

  unfoldable pub maintain_diverse_buckets : Dict (List (List ℕ)) → Dict (List (List ℕ))
  maintain_diverse_buckets buckets = sanitize buckets []

  -- Of a bucket's peers no more are kept for a subnet than the cap, those counted before included.
  keep_loop_few :
      (k most : ℕ) (peers : List (List ℕ)) (counts : Dict ℕ)
      → count_in k counts ≤ most
      → count k (subnets (keep_loop most peers counts)) + count_in k counts ≤ most
  unfolding keep_loop
  keep_loop_few k most [] counts h = ground arith
  keep_loop_few k most (peer ∷ peers) counts h =
      let subnet = get_subnet24 peer in
      let n = count_in subnet counts + 1 in
      ground (
        arith,
        h,
        keep_loop_few k most peers counts h,
        keep_loop_few k most peers (insert subnet n counts),
        lookup-insert k subnet n counts,
      )
