-- ===== src/Ip.antt =====
-- IPv4 addresses as text: `RuleManager::parseIP` and `RuleManager::ipToString` of
-- src/rule_manager.cpp. The same loops stand in src/dpi_engine.cpp (the lambda `parseIP`) and in
-- src/packet_parser.cpp (`ipToString`, on a little-endian machine).
pub mod RoundTrip
use deep_packet_analyzer.Base.{
  ℕ, ◌+◌, ◌*◌, ◌/◌, ◌%◌, ◌^◌, [], ◌∷◌, ◌++◌, ltb, ◌==◌, if◌then◌else◌, bit_or, Bytes, Result, ok,
  err, ◌>>=◌, bad_shift, int_overflow, is_digit, push_digit, show_nat,
}

-- `octet << shift` on an `int`: undefined from 32 bits on, and where the result does not fit the
-- unsigned type.
unfoldable pub shl_int : ℕ → ℕ → Result ℕ
shl_int octet shift =
    if ltb shift 32
    then if ltb (octet * 2 ^ shift) (2 ^ 32) then ok (octet * 2 ^ shift) else err int_overflow
    else err bad_shift

-- `result |= (octet << shift)`.
unfoldable pub shift_in : ℕ → ℕ → ℕ → Result ℕ
unfolding shl_int
shift_in result octet shift = do v ← shl_int octet shift; ok (bit_or result v)

-- The loop, and the last octet behind it.
unfoldable pub scan : ℕ → ℕ → ℕ → Bytes → Result ℕ
unfolding shift_in push_digit
scan result octet shift [] = shift_in result octet shift
scan result octet shift (c ∷ cs) =
    if c == b'.'
    then (do r ← shift_in result octet shift; scan r 0 (shift + 8) cs)
    else if is_digit c
    then (do o ← push_digit octet c; scan result o shift cs)
    else scan result octet shift cs

unfoldable pub parse_ip : Bytes → Result ℕ
unfolding scan
parse_ip ip = scan 0 0 0 ip

abbrev pub octet : ℕ → ℕ → ℕ
octet ip shift = ip / 2 ^ shift % 256

unfoldable pub ip_to_string : ℕ → Bytes
ip_to_string ip =
    show_nat (octet ip 0)
    ++ (b'.'
        ∷ (show_nat (octet ip 8)
            ++ (b'.' ∷ (show_nat (octet ip 16) ++ (b'.' ∷ show_nat (octet ip 24))))))
