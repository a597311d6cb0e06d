-- ===== src/Security/Agreement/Geography.antt =====
-- The spread of a quorum over regions and networks (src/security/networkHardening.ts:
-- enforceGeoDiversity), and the size of a message (enforceMessageSizeLimit). The limit, a quotient by
-- 100, is compared without the division. The texts of the violations stay out.
use abundance_protocol.Prelude.{
  ℕ, ◌+◌, ◌-◌, ◌*◌, ◌≤◌, ◌≡◌, ◌↔◌, Bool, true, false, List, [], ◌∷◌, leb, ltb, ◌==◌, if◌then◌else◌,
  length, arith, count,
}
use abundance_protocol.Dict.{Dict}
use abundance_protocol.Security.Counts.{
  count_in, tally, excesses, count_in-tally, tally-IsKeyed, excesses_none,
}

pub record GeoVoter : Type 0 where
  pub node_id : ℕ
  pub region : ℕ
  pub asn : ℕ

abbrev pub regions : List GeoVoter → List ℕ
regions [] = []
regions (v ∷ vs) = v.region ∷ regions vs

abbrev pub asns : List GeoVoter → List ℕ
asns [] = []
asns (v ∷ vs) = v.asn ∷ asns vs

-- `count > (total * maxPercent) / 100`
abbrev pub exceeds : ℕ → ℕ → ℕ → Bool
exceeds total max_percent n = ltb (total * max_percent) (n * 100)

-- Returns whether it is valid, and the counts.
unfoldable pub enforce_geo_diversity : List GeoVoter → ℕ → Bool × Dict ℕ × Dict ℕ
enforce_geo_diversity voters max_percent =
    let over = exceeds (length voters) max_percent in
    let region_counts = tally (regions voters) [] in
    let asn_counts = tally (asns voters) [] in
    let violations = excesses over region_counts + excesses over asn_counts in
    (violations == 0, region_counts, asn_counts)

-- Returns whether it is accepted, and the excess.
unfoldable pub enforce_message_size_limit : ℕ → ℕ → Bool × ℕ
enforce_message_size_limit size max_bytes =
    if leb size max_bytes then (true, 0) else (false, size - max_bytes)

within_iff :
    (total max_percent n : ℕ)
    → (exceeds total max_percent n ≡ false) ↔ (n * 100 ≤ total * max_percent)
within_iff total max_percent n = (λ e. ground arith, λ le. ground arith)

-- The check of one map of counts.
spread_iff :
    (total max_percent : ℕ) (ks : List ℕ)
    → (excesses (exceeds total max_percent) (tally ks []) ≡ 0)
      ↔ ((k : ℕ) → count k ks * 100 ≤ total * max_percent)
spread_iff total max_percent ks =
    let over = exceeds total max_percent in
    let same : (k : ℕ) → count_in k (tally ks []) ≡ count k ks =
      λ k. ground (arith, count_in-tally k ks []) in
    let none_over = excesses_none over (tally ks []) (tally-IsKeyed ks [] tt) (ground arith) in
    (
      λ e k. (within_iff total max_percent (count k ks)).0 (rw (same k) at (none_over.0 e k)),
      λ f. none_over.1 (λ k. rw (same k) ((within_iff total max_percent (count k ks)).1 (f k))),
    )

-- A quorum is valid exactly when no region and no network has more than the percentage of its voters.
pub enforce_geo_diversity_iff :
    (voters : List GeoVoter) (max_percent : ℕ)
    → ((enforce_geo_diversity voters max_percent).0 ≡ true) ↔ (
        (k : ℕ)
        → (count k (regions voters) * 100 ≤ length voters * max_percent)
          × (count k (asns voters) * 100 ≤ length voters * max_percent))
unfolding enforce_geo_diversity
enforce_geo_diversity_iff voters max_percent =
    let total = length voters in
    let by_region = spread_iff total max_percent (regions voters) in
    let by_asn = spread_iff total max_percent (asns voters) in
    (
      λ e k. (by_region.0 (ground (arith, e)) k, by_asn.0 (ground (arith, e)) k),
      λ f. ground (arith, by_region.1 (λ k. (f k).0), by_asn.1 (λ k. (f k).1)),
    )
