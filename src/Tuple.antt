-- ===== src/Tuple.antt =====
-- The five-tuple of include/types.h with its hash, and `canonicalTuple` of
-- src/connection_tracker.cpp.
pub mod Canonical
pub mod Hash
use deep_packet_analyzer.Base.{
  ℕ, ◌+◌, ◌*◌, ◌/◌, ◌%◌, ◌^◌, ◌≡◌, Bool, true, ◌&&◌, ◌||◌, ltb, ◌==◌, if◌then◌else◌, bit_xor, arith,
  ◌↔◌,
}

-- Addresses are below 2 ^ 32, ports below 2 ^ 16 and the protocol below 2 ^ 8; no definition here
-- computes with them beyond comparing.
pub record FiveTuple : Type 0 where
  pub src_ip : ℕ
  pub dst_ip : ℕ
  pub src_port : ℕ
  pub dst_port : ℕ
  pub protocol : ℕ

-- `FiveTuple::operator==`.
unfoldable pub tuple_eq : FiveTuple → FiveTuple → Bool
tuple_eq s t =
    s.src_ip == t.src_ip
    && s.dst_ip == t.dst_ip
    && s.src_port == t.src_port
    && s.dst_port == t.dst_port
    && s.protocol == t.protocol

unfoldable pub reverse : FiveTuple → FiveTuple
reverse t = record {
  src_ip = t.dst_ip;
  dst_ip = t.src_ip;
  src_port = t.dst_port;
  dst_port = t.src_port;
  protocol = t.protocol;
}

-- The test by which both the hash and the tracker order the two endpoints.
abbrev pub is_swapped : FiveTuple → Bool
is_swapped t = ltb t.dst_ip t.src_ip || (t.src_ip == t.dst_ip && ltb t.dst_port t.src_port)

-- `canonicalTuple`.
unfoldable pub canonical_tuple : FiveTuple → FiveTuple
unfolding reverse
canonical_tuple t = if is_swapped t then reverse t else t

-- `std::hash` of the three integer types: the library leaves the values open.
pub record StdHash : Type 0 where
  pub hash32 : ℕ → ℕ
  pub hash16 : ℕ → ℕ
  pub hash8 : ℕ → ℕ

-- `h ^= v + 0x9e3779b9 + (h << 6) + (h >> 2)` on a 64-bit size_t.
unfoldable pub mix : ℕ → ℕ → ℕ
mix h v = bit_xor h ((v + 0x9e3779b9 + h * 2 ^ 6 % 2 ^ 64 + h / 2 ^ 2) % 2 ^ 64)

-- The five steps on the ordered endpoints.
unfoldable pub hash_ends : StdHash → ℕ → ℕ → ℕ → ℕ → ℕ → ℕ
hash_ends std ip1 ip2 port1 port2 protocol =
    let h1 = mix 0 (std.hash32 ip1) in
    let h2 = mix h1 (std.hash32 ip2) in
    let h3 = mix h2 (std.hash16 port1) in
    let h4 = mix h3 (std.hash16 port2) in mix h4 (std.hash8 protocol)

-- `FiveTupleHash::operator()`.
unfoldable pub hash : StdHash → FiveTuple → ℕ
hash std t =
    if is_swapped t
    then hash_ends std t.dst_ip t.src_ip t.dst_port t.src_port t.protocol
    else hash_ends std t.src_ip t.dst_ip t.src_port t.dst_port t.protocol

pub tuple_eq_iff : (s t : FiveTuple) → (tuple_eq s t ≡ true) ↔ (s ≡ t)
unfolding tuple_eq
tuple_eq_iff s t = ground arith
