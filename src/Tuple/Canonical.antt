-- ===== src/Tuple/Canonical.antt =====
-- One key for both directions of a flow.
use deep_packet_analyzer.Base.{◌≡◌, ◌↔◌, ◌⊎◌, arith, refl}
use deep_packet_analyzer.Tuple.{FiveTuple, reverse, canonical_tuple}

pub reverse-reverse : (t : FiveTuple) → reverse (reverse t) ≡ t
unfolding reverse
reverse-reverse t = refl

pub canonical_tuple-reverse : (t : FiveTuple) → canonical_tuple (reverse t) ≡ canonical_tuple t
unfolding canonical_tuple
canonical_tuple-reverse t = ground arith

pub canonical_tuple_idem : (t : FiveTuple) → canonical_tuple (canonical_tuple t) ≡ canonical_tuple t
unfolding canonical_tuple
canonical_tuple_idem t = ground arith

-- Two packets have one key exactly when they belong to one flow, in the same or in opposite
-- directions.
pub canonical_tuple-eq_iff :
    (s t : FiveTuple) → (canonical_tuple s ≡ canonical_tuple t) ↔ ((s ≡ t) ⊎ (s ≡ reverse t))
unfolding canonical_tuple
canonical_tuple-eq_iff s t = ground arith
