-- ===== src/Pcap/Format.antt =====
-- What stands in a capture file: the two headers and the packet of include/pcap_reader.h.
use deep_packet_analyzer.Base.{ℕ, Bytes}

-- `thiszone` is kept as the 32 bits of the signed field.
pub record PcapGlobalHeader : Type 0 where
  pub magic_number : ℕ
  pub version_major : ℕ
  pub version_minor : ℕ
  pub thiszone : ℕ
  pub sigfigs : ℕ
  pub snaplen : ℕ
  pub network : ℕ

pub record PcapPacketHeader : Type 0 where
  pub ts_sec : ℕ
  pub ts_usec : ℕ
  pub incl_len : ℕ
  pub orig_len : ℕ

pub record RawPacket : Type 0 where
  pub header : PcapPacketHeader
  pub bytes : Bytes
