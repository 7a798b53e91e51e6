-- ===== src/Rolling/Buckets.antt =====
-- The node pairs of a minute bucket in backend/internal/services/rolling_cache.go: a row per
-- endpoints and traffic type, found by an index or by a scan. A bucket of both maps is one argument.
use tsflow.Prelude.{
  String, ◌≡◌, refl, ◌↔◌, Bool, true, ◌&&◌, List, [], arith, Eq, ◌==◌, eq_iff, String_eq, ℕ_eq,
}
use tsflow.Prelude.Maps.{lookup}
use tsflow.Prelude.Slots.{rows_indexed, rows_linear, position, upserts-agree}

-- nodePairCacheKey
pub record NodePairCacheKey : Type 0 where
  pub src : String
  pub dst : String
  pub traffic_type : String

abbrev pub same_key : NodePairCacheKey → NodePairCacheKey → Bool
same_key a b = a.src == b.src && a.dst == b.dst && a.traffic_type == b.traffic_type

pub same_key_iff : (a b : NodePairCacheKey) → (same_key a b ≡ true) ↔ (a ≡ b)
same_key_iff a b =
    ground (arith, eq_iff a.src b.src, eq_iff a.dst b.dst, eq_iff a.traffic_type b.traffic_type)

instance abbrev pub NodePairCacheKey_eq : Eq NodePairCacheKey
NodePairCacheKey_eq = record { beq = same_key; beq_iff = same_key_iff }

-- The rows, their keys, and how mergeCachedNodePair merges a row into another one
module _ {Row : Type 0} (key_of : Row → NodePairCacheKey) (merge : Row → Row → Row)
    (keeps : (row np : Row) → key_of (merge row np) ≡ key_of row) where
  -- If merging a row into another one keeps the latter's key: whatever rows come into an empty bucket
  -- one after the other, finding the row to merge with by the index leaves the rows that the scan
  -- leaves.
  pub rows_indexed-linear :
      (nps : List Row)
      → (rows_indexed key_of merge nps ([], [])).0 ≡ rows_linear key_of merge nps []
  unfolding position lookup
  rows_indexed-linear nps = upserts-agree key_of merge keeps nps [] [] (λ k. refl)
