-- ===== src/Ip/RoundTrip.antt =====
-- Reading a printed address gives the address back.
use deep_packet_analyzer.Base.{
  ℕ, ◌+◌, ◌-◌, ◌*◌, ◌^◌, ◌<◌, ◌≡◌, sym, ap, ◌∙◌, [], ◌∷◌, ◌++◌, append-nil, arith, Bytes, ok,
  IsDigit, show_nat, read-show_nat,
}
use deep_packet_analyzer.Base.Bits.{bit_or-high}
use deep_packet_analyzer.Ip.{shift_in, scan, parse_ip, octet, ip_to_string}

scan_digit :
    (result shift m c v : ℕ) (rest : Bytes)
    → IsDigit c
    → v ≡ m * 10 + (c - b'0')
    → v < 2 ^ 31
    → scan result m shift (c ∷ rest) ≡ scan result v shift rest
unfolding scan
scan_digit result shift m c v rest d e b = ground arith

scan-show_nat :
    (result shift n : ℕ) (rest : Bytes)
    → n < 256
    → scan result 0 shift (show_nat n ++ rest) ≡ scan result n shift rest
scan-show_nat result shift n rest b =
    read-show_nat (λ m. scan result m shift) (scan_digit result shift) n rest (omega arith)

shift_in-add :
    (result n shift : ℕ)
    → shift < 32
    → result < 2 ^ shift
    → n * 2 ^ shift < 2 ^ 32
    → shift_in result n shift ≡ ok (result + n * 2 ^ shift)
unfolding shift_in
shift_in-add result n shift s r b = ground (arith, bit_or-high shift result n r)

-- One octet and the dot behind it.
scan_octet :
    (result shift n : ℕ) (rest : Bytes)
    → shift < 32
    → n < 256
    → result < 2 ^ shift
    → n * 2 ^ shift < 2 ^ 32
    → scan result 0 shift (show_nat n ++ (b'.' ∷ rest))
      ≡ scan (result + n * 2 ^ shift) 0 (shift + 8) rest
scan_octet result shift n rest s b r w =
    scan-show_nat result shift n (b'.' ∷ rest) b
    ∙ unfold scan in rw (shift_in-add result n shift s r w)

scan_last :
    (result n : ℕ)
    → n < 256
    → result < 2 ^ 24
    → scan result 0 24 (show_nat n) ≡ ok (result + n * 2 ^ 24)
scan_last result n b r =
    ap (scan result 0 24) (sym (append-nil (show_nat n)))
    ∙ scan-show_nat result 24 n [] b
    ∙ unfold scan in shift_in-add result n 24 (omega arith) r (omega arith)

parse_octets :
    (a b c d : ℕ)
    → a < 256
    → b < 256
    → c < 256
    → d < 256
    → parse_ip (show_nat a ++ (b'.' ∷ (show_nat b ++ (b'.' ∷ (show_nat c ++ (b'.' ∷ show_nat d))))))
      ≡ ok (a + b * 2 ^ 8 + c * 2 ^ 16 + d * 2 ^ 24)
unfolding parse_ip
parse_octets a b c d ha hb hc hd =
    scan_octet 0 0 a _ (omega arith) ha (omega arith) (omega arith)
    ∙ scan_octet (0 + a * 2 ^ 0) 8 b _ (omega arith) hb (omega arith) (omega arith)
    ∙ scan_octet (0 + a * 2 ^ 0 + b * 2 ^ 8) 16 c _ (omega arith) hc (omega arith) (omega arith)
    ∙ scan_last (0 + a * 2 ^ 0 + b * 2 ^ 8 + c * 2 ^ 16) d hd (omega arith)
    ∙ ap ok (omega arith)

-- Printing an address of 32 bits and reading the text back gives the address.
pub parse_ip-ip_to_string : (ip : ℕ) → ip < 2 ^ 32 → parse_ip (ip_to_string ip) ≡ ok ip
unfolding ip_to_string
parse_ip-ip_to_string ip h =
    parse_octets (octet ip 0) (octet ip 8) (octet ip 16) (octet ip 24) (omega arith) (omega arith)
      (omega arith) (omega arith)
    ∙ ap ok (omega arith)
