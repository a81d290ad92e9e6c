-- ===== src/Pcap/Order.antt =====
-- Numbers written on a machine of one byte order and read on a machine of another.
use deep_packet_analyzer.Base.{ℕ, ◌+◌, ◌*◌, ◌^◌, ◌<◌, ◌≡◌, ◌∙◌, Bool, true, false, not, arith}
use deep_packet_analyzer.Ip.{octet}
use deep_packet_analyzer.Packet.Order.{
  load16, load32, swap_bytes16, swap_bytes32, swap_bytes16_lem, swap_bytes32_lem,
}
use deep_packet_analyzer.Pcap.{maybe_swap16, maybe_swap32}

-- Do the two orders differ?
abbrev pub differ : Bool → Bool → Bool
differ true other = not other
differ false other = other

-- What a machine of the second order loads where one of the first has stored the number.
abbrev pub reload16 : Bool → Bool → ℕ → ℕ
reload16 true little v = load16 little (octet v 0) (octet v 8)
reload16 false little v = load16 little (octet v 8) (octet v 0)

abbrev pub reload32 : Bool → Bool → ℕ → ℕ
reload32 true little v = load32 little (octet v 0) (octet v 8) (octet v 16) (octet v 24)
reload32 false little v = load32 little (octet v 24) (octet v 16) (octet v 8) (octet v 0)

swap16_back : (v : ℕ) → v < 2 ^ 16 → swap_bytes16 (octet v 8 + octet v 0 * 2 ^ 8) ≡ v
swap16_back v h = swap_bytes16_lem (octet v 8) (octet v 0) (omega arith) (omega arith) ∙ omega arith

swap32_back :
    (v : ℕ)
    → v < 2 ^ 32
    → swap_bytes32 (octet v 24 + octet v 16 * 2 ^ 8 + octet v 8 * 2 ^ 16 + octet v 0 * 2 ^ 24) ≡ v
swap32_back v h =
    swap_bytes32_lem (octet v 24) (octet v 16) (octet v 8) (octet v 0) (omega arith) (omega arith)
      (omega arith) (omega arith)
    ∙ omega arith

pub maybe_swap16-reload16 :
    (order little : Bool) (v : ℕ)
    → v < 2 ^ 16
    → maybe_swap16 (differ order little) (reload16 order little v) ≡ v
unfolding load16 maybe_swap16
maybe_swap16-reload16 true true v h = omega arith
maybe_swap16-reload16 true false v h = swap16_back v h
maybe_swap16-reload16 false true v h = swap16_back v h
maybe_swap16-reload16 false false v h = omega arith

pub maybe_swap32-reload32 :
    (order little : Bool) (v : ℕ)
    → v < 2 ^ 32
    → maybe_swap32 (differ order little) (reload32 order little v) ≡ v
unfolding load32 maybe_swap32
maybe_swap32-reload32 true true v h = omega arith
maybe_swap32-reload32 true false v h = swap32_back v h
maybe_swap32-reload32 false true v h = swap32_back v h
maybe_swap32-reload32 false false v h = omega arith

-- On one machine nothing changes; between two, the bytes change places.
pub reload32_same : (little : Bool) (v : ℕ) → v < 2 ^ 32 → reload32 little little v ≡ v
unfolding load32
reload32_same true v h = omega arith
reload32_same false v h = omega arith

pub reload32_other :
    (little : Bool) (v : ℕ)
    → reload32 (not little) little v
      ≡ octet v 24 + octet v 16 * 2 ^ 8 + octet v 8 * 2 ^ 16 + octet v 0 * 2 ^ 24
unfolding load32
reload32_other true v = omega arith
reload32_other false v = omega arith
