-- ===== src/Packet.antt =====
-- The packet parser: include/packet_parser.h and src/packet_parser.cpp, with the byte order of
-- include/platform.h. `little` is the byte order of the machine; the loads of 16 and 32 bits are
-- taken to be allowed at any address.
pub mod Order
pub mod Safety
pub mod Headers
pub mod Text
use deep_packet_analyzer.Base.{
  ℕ, ◌+◌, ◌-◌, ◌*◌, ◌/◌, ◌%◌, ◌^◌, Bool, true, false, not, ◌||◌, ◌&&◌, List, [], ◌∷◌, ◌++◌, Option,
  none, some, ltb, leb, ◌==◌, if◌then◌else◌, length, bit_and, Bytes, codes, byte_at, show_nat,
  Result, ok, err, ◌>>=◌,
}
use deep_packet_analyzer.Pcap.Format.{RawPacket}
use Order.{load16, load32, net_to_host16, net_to_host32, ip_text}

-- `payload_data` is the offset into the packet of the byte that the pointer names.
pub record ParsedPacket : Type 0 where
  pub timestamp_sec : ℕ
  pub timestamp_usec : ℕ
  pub src_mac : Bytes
  pub dest_mac : Bytes
  pub ether_type : ℕ
  pub has_ip : Bool
  pub ip_version : ℕ
  pub src_ip : Bytes
  pub dest_ip : Bytes
  pub protocol : ℕ
  pub ttl : ℕ
  pub has_tcp : Bool
  pub has_udp : Bool
  pub src_port : ℕ
  pub dest_port : ℕ
  pub tcp_flags : ℕ
  pub seq_number : ℕ
  pub ack_number : ℕ
  pub payload_length : ℕ
  pub payload_data : Option ℕ

-- `ParsedPacket()`, with the time stamps.
unfoldable pub empty_packet : RawPacket → ParsedPacket
empty_packet raw = record {
  timestamp_sec = raw.header.ts_sec;
  timestamp_usec = raw.header.ts_usec;
  src_mac = [];
  dest_mac = [];
  ether_type = 0;
  has_ip = false;
  ip_version = 0;
  src_ip = [];
  dest_ip = [];
  protocol = 0;
  ttl = 0;
  has_tcp = false;
  has_udp = false;
  src_port = 0;
  dest_port = 0;
  tcp_flags = 0;
  seq_number = 0;
  ack_number = 0;
  payload_length = 0;
  payload_data = none;
}

-- What a layer returns: whether it was parsed, and then the packet and the offset behind it.
abbrev pub Layer : Type 0
Layer = Bool × ParsedPacket × ℕ

unfoldable pub load_net16 : Bool → Bytes → ℕ → Result ℕ
load_net16 little p i = do
  a ← byte_at p i
  b ← byte_at p (i + 1)
  ok (net_to_host16 little (load16 little a b))

unfoldable pub load_net32 : Bool → Bytes → ℕ → Result ℕ
load_net32 little p i = do
  a ← byte_at p i
  b ← byte_at p (i + 1)
  c ← byte_at p (i + 2)
  d ← byte_at p (i + 3)
  ok (net_to_host32 little (load32 little a b c d))

unfoldable pub ip_at : Bool → Bytes → ℕ → Result Bytes
ip_at little p i = do
  a ← byte_at p i
  b ← byte_at p (i + 1)
  c ← byte_at p (i + 2)
  d ← byte_at p (i + 3)
  ok (ip_text little (load32 little a b c d))

abbrev pub hex_digit : ℕ → ℕ
hex_digit n = if ltb n 10 then b'0' + n else b'a' + (n - 10)

abbrev pub hex_byte : ℕ → Bytes
hex_byte b = hex_digit (b / 16) ∷ hex_digit (b % 16) ∷ []

unfoldable pub mac_to_string : Bytes → ℕ → Result Bytes
mac_to_string p i = do
  a ← byte_at p i
  b ← byte_at p (i + 1)
  c ← byte_at p (i + 2)
  d ← byte_at p (i + 3)
  e ← byte_at p (i + 4)
  f ← byte_at p (i + 5)
  ok (
      hex_byte a
      ++ (b':' ∷ hex_byte b
          ++ (b':' ∷ hex_byte c
              ++ (b':' ∷ hex_byte d ++ (b':' ∷ hex_byte e ++ (b':' ∷ hex_byte f))))))

unfoldable pub parse_ethernet : Bool → Bytes → ParsedPacket → ℕ → Result Layer
parse_ethernet little p parsed offset =
    if ltb (length p) 14 then ok (false, parsed, offset) else (do
      dest ← mac_to_string p 0
      src ← mac_to_string p 6
      ether ← load_net16 little p 12
      ok (true, record parsed { dest_mac = dest; src_mac = src; ether_type = ether }, 14))

-- `(byte >> 4) & 0x0F` and `byte & 0x0F`.
abbrev pub high_nibble : ℕ → ℕ
high_nibble b = b / 16 % 16

abbrev pub low_nibble : ℕ → ℕ
low_nibble b = b % 16

unfoldable pub ipv4_fields : Bool → Bytes → ParsedPacket → ℕ → ℕ → Result Layer
ipv4_fields little p parsed offset header_len = do
  ttl ← byte_at p (offset + 8)
  protocol ← byte_at p (offset + 9)
  src ← ip_at little p (offset + 12)
  dest ← ip_at little p (offset + 16)
  ok (
    true,
    record parsed { ttl = ttl; protocol = protocol; src_ip = src; dest_ip = dest; has_ip = true },
    offset + header_len,
  )

unfoldable pub parse_ipv4 : Bool → Bytes → ParsedPacket → ℕ → Result Layer
parse_ipv4 little p parsed offset =
    if ltb (length p) (offset + 20) then ok (false, parsed, offset) else (do
      version_ihl ← byte_at p offset
      let parsed' = record parsed { ip_version = high_nibble version_ihl }
      let header_len = low_nibble version_ihl * 4
      if not (high_nibble version_ihl == 4)
          then ok (false, parsed', offset)
          else if ltb header_len 20 || ltb (length p) (offset + header_len)
          then ok (false, parsed', offset)
          else ipv4_fields little p parsed' offset header_len)

unfoldable pub parse_tcp : Bool → Bytes → ParsedPacket → ℕ → Result Layer
parse_tcp little p parsed offset =
    if ltb (length p) (offset + 20) then ok (false, parsed, offset) else (do
      src ← load_net16 little p offset
      dest ← load_net16 little p (offset + 2)
      seq ← load_net32 little p (offset + 4)
      ack ← load_net32 little p (offset + 8)
      data_offset ← byte_at p (offset + 12)
      flags ← byte_at p (offset + 13)
      let parsed' = record parsed {
        src_port = src;
        dest_port = dest;
        seq_number = seq;
        ack_number = ack;
        tcp_flags = flags;
      }
      let header_len = high_nibble data_offset * 4
      if ltb header_len 20 || ltb (length p) (offset + header_len)
          then ok (false, parsed', offset)
          else ok (true, record parsed' { has_tcp = true }, offset + header_len))

unfoldable pub parse_udp : Bool → Bytes → ParsedPacket → ℕ → Result Layer
parse_udp little p parsed offset =
    if ltb (length p) (offset + 8) then ok (false, parsed, offset) else (do
      src ← load_net16 little p offset
      dest ← load_net16 little p (offset + 2)
      ok (true, record parsed { src_port = src; dest_port = dest; has_udp = true }, offset + 8))

-- The payload is what lies behind the headers.
unfoldable pub set_payload : Bytes → ParsedPacket → ℕ → ParsedPacket
set_payload p parsed offset =
    if ltb offset (length p)
    then record parsed { payload_length = length p - offset; payload_data = some offset }
    else record parsed { payload_length = 0; payload_data = none }

unfoldable pub parse_transport : Bool → Bytes → ParsedPacket → ℕ → Result Layer
parse_transport little p parsed offset =
    if parsed.protocol == 6
    then parse_tcp little p parsed offset
    else if parsed.protocol == 17
    then parse_udp little p parsed offset
    else ok (true, parsed, offset)

unfoldable pub parse_network : Bool → Bytes → ParsedPacket → ℕ → Result Layer
parse_network little p parsed offset =
    if parsed.ether_type == 2048
    then (do
      ip ← parse_ipv4 little p parsed offset
      if ip.0 then parse_transport little p ip.1 ip.2 else ok ip)
    else ok (true, parsed, offset)

-- `parse`: whether the packet was parsed, and the packet as far as it was.
unfoldable pub parse : Bool → RawPacket → Result (Bool × ParsedPacket)
unfolding empty_packet set_payload
parse little raw = do
  eth ← parse_ethernet little raw.bytes (empty_packet raw) 0
  if eth.0
      then (do
        net ← parse_network little raw.bytes eth.1 eth.2
        if net.0 then ok (true, set_payload raw.bytes net.1 net.2) else ok (false, net.1))
      else ok (false, eth.1)
