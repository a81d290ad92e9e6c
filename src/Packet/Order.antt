-- ===== src/Packet/Order.antt =====
-- Byte order: include/platform.h, the loads of the parser, and the address that
-- `PacketParser::ipToString` prints.
use deep_packet_analyzer.Base.{
  ℕ, ◌+◌, ◌*◌, ◌^◌, ◌<◌, ◌≡◌, refl, ap, ap₂, ◌∙◌, Bool, true, false, if◌then◌else◌, bit_or, Bytes,
  arith,
}
use deep_packet_analyzer.Base.Bits.{bit_or-high}
use deep_packet_analyzer.Ip.{ip_to_string, octet}

-- Two and four bytes of memory as a number.
unfoldable pub load16 : Bool → ℕ → ℕ → ℕ
load16 true a b = a + b * 2 ^ 8
load16 false a b = b + a * 2 ^ 8

unfoldable pub load32 : Bool → ℕ → ℕ → ℕ → ℕ → ℕ
load32 true a b c d = a + b * 2 ^ 8 + c * 2 ^ 16 + d * 2 ^ 24
load32 false a b c d = d + c * 2 ^ 8 + b * 2 ^ 16 + a * 2 ^ 24

-- `value & 0xFF00` is the byte at 8, and so on: the bytes change places.
unfoldable pub swap_bytes16 : ℕ → ℕ
swap_bytes16 v = bit_or (octet v 8) (octet v 0 * 2 ^ 8)

unfoldable pub swap_bytes32 : ℕ → ℕ
swap_bytes32 v =
    bit_or (bit_or (bit_or (octet v 24) (octet v 16 * 2 ^ 8)) (octet v 8 * 2 ^ 16))
      (octet v 0 * 2 ^ 24)

unfoldable pub net_to_host16 : Bool → ℕ → ℕ
net_to_host16 little v = if little then swap_bytes16 v else v

unfoldable pub net_to_host32 : Bool → ℕ → ℕ
net_to_host32 little v = if little then swap_bytes32 v else v

-- `PacketParser::ipToString` swaps first on a big-endian machine.
unfoldable pub ip_text : Bool → ℕ → Bytes
ip_text little ip = ip_to_string (if little then ip else swap_bytes32 ip)

pub swap_bytes16_lem : (a b : ℕ) → a < 256 → b < 256 → swap_bytes16 (a + b * 2 ^ 8) ≡ b + a * 2 ^ 8
unfolding swap_bytes16
swap_bytes16_lem a b h k =
    ap₂ bit_or (let e : octet (a + b * 2 ^ 8) 8 ≡ b = omega arith in e)
      (let e : octet (a + b * 2 ^ 8) 0 * 2 ^ 8 ≡ a * 2 ^ 8 = omega arith in e)
    ∙ bit_or-high 8 b a k

module _ (a b c d : ℕ) (ha : a < 256) (hb : b < 256) (hc : c < 256) (hd : d < 256) where
  abbrev word : ℕ
  word = a + b * 2 ^ 8 + c * 2 ^ 16 + d * 2 ^ 24

  pub swap_bytes32_lem : swap_bytes32 word ≡ d + c * 2 ^ 8 + b * 2 ^ 16 + a * 2 ^ 24
  unfolding swap_bytes32
  swap_bytes32_lem =
      let e0 : octet word 24 ≡ d = omega (arith, ha, hb, hc, hd) in
      let e1 : octet word 16 ≡ c = omega (arith, ha, hb, hc, hd) in
      let e2 : octet word 8 ≡ b = omega (arith, ha, hb, hc, hd) in
      let e3 : octet word 0 ≡ a = omega (arith, ha, hb, hc, hd) in
      ap₂ bit_or
        (ap₂ bit_or (ap₂ bit_or e0 (ap (λ n. n * 2 ^ 8) e1) ∙ bit_or-high 8 d c hd)
            (ap (λ n. n * 2 ^ 16) e2)
          ∙ bit_or-high 16 (d + c * 2 ^ 8) b (omega (arith, hc, hd)))
        (ap (λ n. n * 2 ^ 24) e3)
      ∙ bit_or-high 24 (d + c * 2 ^ 8 + b * 2 ^ 16) a (omega (arith, hb, hc, hd))

-- On a machine of either byte order the parser reads the bytes of a packet as the same numbers,
-- the first byte as the highest, and prints the same address, the first byte first.
pub byte_order :
    (little : Bool) (a b c d : ℕ)
    → a < 256
    → b < 256
    → c < 256
    → d < 256
    → (net_to_host16 little (load16 little a b) ≡ b + a * 2 ^ 8)
      × (net_to_host32 little (load32 little a b c d) ≡ d + c * 2 ^ 8 + b * 2 ^ 16 + a * 2 ^ 24)
      × (ip_text little (load32 little a b c d)
          ≡ ip_to_string (a + b * 2 ^ 8 + c * 2 ^ 16 + d * 2 ^ 24))
unfolding load16 load32 net_to_host16 net_to_host32 ip_text
byte_order true a b c d ha hb hc hd =
    (swap_bytes16_lem a b ha hb, swap_bytes32_lem a b c d ha hb hc hd, refl)
byte_order false a b c d ha hb hc hd =
    (refl, refl, ap ip_to_string (swap_bytes32_lem d c b a hd hc hb ha))
