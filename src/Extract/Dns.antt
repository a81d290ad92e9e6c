-- ===== src/Extract/Dns.antt =====
-- `DNSExtractor` of src/sni_extractor.cpp. An offset is the rest of the payload from it on.
pub mod Query
use deep_packet_analyzer.Base.{
  ℕ, zero, suc, ◌*◌, ◌^◌, Bool, true, false, not, [], ◌∷◌, ◌++◌, Option, none, some, ltb, ◌==◌,
  if◌then◌else◌, length, take, drop, Bytes, byte_at, bit_and, bit_or, Result, ok, err, no_fuel,
  ◌>>=◌,
}

-- `isDNSQuery`.
unfoldable pub is_dns_query : Bytes → Result Bool
is_dns_query payload = if ltb (length payload) 12 then ok false else (do
  flags ← byte_at payload 2
  if not (bit_and flags 0x80 == 0) then ok false else (do
    hi ← byte_at payload 4
    lo ← byte_at payload 5
    ok (not (bit_or (hi * 2 ^ 8) lo == 0))))

-- `if (!domain.empty()) domain += '.'`.
unfoldable pub with_dot : Bytes → Bytes
with_dot [] = []
with_dot (c ∷ cs) = (c ∷ cs) ++ (b'.' ∷ [])

-- The loop over the labels, on fuel; a round moves the offset by two at least.
unfoldable pub labels : ℕ → Bytes → Bytes → Result Bytes
unfolding with_dot
labels zero domain rest = err no_fuel
labels (suc fuel) domain [] = ok domain
labels (suc fuel) domain (n ∷ rest) =
    let more = labels fuel (with_dot domain ++ take n rest) (drop n rest) in
    if n == 0
    then ok domain
    else if ltb 63 n
    then ok domain
    else if ltb (length rest) n
    then ok domain
    else more

-- An empty name counts as none.
abbrev pub name_or_none : Bytes → Option Bytes
name_or_none [] = none
name_or_none (c ∷ cs) = some (c ∷ cs)

-- `DNSExtractor::extractQuery`: the name begins behind the header of 12 bytes.
unfoldable pub extract_query : Bytes → Result (Option Bytes)
extract_query payload = do
  query ← is_dns_query payload
  if not query then ok none else (do
    domain ← labels (suc (length payload)) [] (drop 12 payload)
    ok (name_or_none domain))
