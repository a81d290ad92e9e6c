-- ===== src/Extract/Quic.antt =====
-- `QUICSNIExtractor` of src/sni_extractor.cpp, which no other part of the program calls.
pub mod Underrun
use deep_packet_analyzer.Base.{
  ℕ, ◌+◌, ◌-◌, Bool, true, false, not, List, [], ◌∷◌, Option, none, some, ltb, ◌==◌, if◌then◌else◌,
  length, drop, Bytes, byte_at, bit_and, Result, ok, err, out_of_bounds, ◌>>=◌,
}
use deep_packet_analyzer.Extract.Tls

-- `isQUICInitial`.
unfoldable pub is_quic_initial : Bytes → Result Bool
is_quic_initial payload =
    if ltb (length payload) 5
    then ok false
    else (do first_byte ← byte_at payload 0; ok (not (bit_and first_byte 0x80 == 0)))

-- `SNIExtractor::extract(payload + i - 5, length - i + 5)`. Below 5 the pointer stands in front of
-- the payload, and the extractor, which is told of nine bytes at least, reads the first of them.
unfoldable pub extract_from : Bytes → ℕ → Result (Option Bytes)
extract_from payload i = if ltb i 5 then err out_of_bounds else Tls.extract (drop (i - 5) payload)

-- The loop from `i` on; the last argument is the rest of the payload from `i`.
unfoldable pub search_from : Bytes → ℕ → Bytes → Result (Option Bytes)
unfolding extract_from
search_from payload i [] = ok none
search_from payload i (b ∷ bs) =
    let rest = search_from payload (i + 1) bs in
    if ltb (i + 50) (length payload)
    then if b == 0x01
      then (do
        result ← extract_from payload i
        elim result [ none ↦ rest | some sni ↦ ok (some sni) ])
      else rest
    else ok none

-- `QUICSNIExtractor::extract`.
unfoldable pub extract : Bytes → Result (Option Bytes)
unfolding is_quic_initial search_from
extract payload = do
  initial ← is_quic_initial payload
  if not initial then ok none else search_from payload 0 payload
