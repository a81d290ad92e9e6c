-- ===== src/Simple/Table.antt =====
-- A map from five-tuples, std::unordered_map with FiveTupleHash, as the list of its entries.
use deep_packet_analyzer.Base.{◌≡◌, List, [], ◌∷◌, Option, none, some, if◌then◌else◌, arith}
use deep_packet_analyzer.Tuple.{FiveTuple, tuple_eq, tuple_eq_iff}

module _ {ℓ} {V : Type ℓ} where
  unfoldable pub fetch : FiveTuple → List (FiveTuple × V) → Option V
  fetch k [] = none
  fetch k ((j, v) ∷ es) = if tuple_eq j k then some v else fetch k es

  -- What was written at the key, or a new entry.
  unfoldable pub put : FiveTuple → V → List (FiveTuple × V) → List (FiveTuple × V)
  put k v [] = (k, v) ∷ []
  put k v ((j, w) ∷ es) = if tuple_eq j k then (j, v) ∷ es else (j, w) ∷ put k v es

  pub fetch-put :
      (k j : FiveTuple) (v : V) (es : List (FiveTuple × V))
      → fetch k (put j v es) ≡ (if tuple_eq j k then some v else fetch k es)
  unfolding fetch put
  fetch-put k j v [] = ground arith
  fetch-put k j v ((i, w) ∷ es) =
      ground (arith, fetch-put k j v es, tuple_eq_iff i j, tuple_eq_iff i k, tuple_eq_iff j k)
