-- ===== src/Extract/Quic/Underrun.antt =====
-- The extractor on packets of QUIC version 1.
use deep_packet_analyzer.Base.{
  ℕ, ◌≤◌, ◌≡◌, ◌≢◌, ◌∷◌, arith, length, Bytes, bit_and, byte_at, err, out_of_bounds,
}
use deep_packet_analyzer.Extract.Quic.{extract}

-- A long-header packet of QUIC version 1 (the bytes 00 00 00 01 behind the first) that is longer
-- than 54 bytes makes the extractor read in front of the payload.
pub quic_extract_underruns :
    (first : ℕ) (rest : Bytes)
    → bit_and first 0x80 ≢ 0
    → 50 ≤ length rest
    → extract (first ∷ 0 ∷ 0 ∷ 0 ∷ 1 ∷ rest) ≡ err out_of_bounds
unfolding extract byte_at
quic_extract_underruns first rest long n = ground arith
