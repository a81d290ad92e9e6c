-- ===== src/Tuple/Hash.antt =====
-- The hash does not see the direction of a packet.
use deep_packet_analyzer.Base.{◌≡◌, inl, inr, ap, ◌∙◌, arith}
use deep_packet_analyzer.Tuple.{FiveTuple, reverse, canonical_tuple, StdHash, hash}
use deep_packet_analyzer.Tuple.Canonical.{canonical_tuple-eq_iff}

-- Both directions of a flow have the same hash, whatever the standard library's hash functions are.
pub hash-reverse : (std : StdHash) (t : FiveTuple) → hash std (reverse t) ≡ hash std t
unfolding hash reverse
hash-reverse std t = ground arith

-- Packets that share a connection record share their hash.
pub hash-canonical :
    (std : StdHash) (s t : FiveTuple)
    → canonical_tuple s ≡ canonical_tuple t
    → hash std s ≡ hash std t
hash-canonical std s t e = elim ((canonical_tuple-eq_iff s t).0 e) [
  | inl same ↦ ap (hash std) same
  | inr back ↦ ap (hash std) back ∙ hash-reverse std t
]
