-- ===== src/Examples/Captures.antt =====
-- A capture of one datagram, and what each program makes of it.
use deep_packet_analyzer.Base.{
  ℕ, suc, ◌≡◌, ◌≢◌, refl, Bool, true, false, ◌&&◌, ◌||◌, [], ◌∷◌, some, ltb, arith, All, Bytes,
  IsBytes, codes, contains, Returns, ok,
}
use deep_packet_analyzer.Pcap.Format.{PcapGlobalHeader, RawPacket}
use deep_packet_analyzer.Ip.{ip_to_string}
use deep_packet_analyzer.Packet.{ParsedPacket}
use deep_packet_analyzer.Pcap.{open_reader, read_packets, write_header, PcapReader}
use deep_packet_analyzer.Pcap.RoundTrip.{IsHeader, IsCaptured, write_packets, read_packets-capture}
use deep_packet_analyzer.Pcap.Ends.{IsWithin, read_packets-Returns}
use deep_packet_analyzer.Pcap.Swapped.{read_packets_copied}
use deep_packet_analyzer.App.{youtube, netflix, app_count, app_eq, app_type_to_string}
use deep_packet_analyzer.Rules.{num_eq}
use deep_packet_analyzer.Engine.{ReaderState, read_jobs}
use deep_packet_analyzer.Engine.Job.{tuple_of}
use deep_packet_analyzer.Engine.Reader.{IsReading, read_jobs-IsReading}
use deep_packet_analyzer.Simple.{BlockingRules, block_ip, block_app, block_domain, is_blocked, run}
use deep_packet_analyzer.Simple.Whole.{IsOutcome, run-IsOutcome}
use deep_packet_analyzer.Simple.Blocking.{is_blocked-rules}
use deep_packet_analyzer.Multi.{Packet, FastPath, run_packet}
use deep_packet_analyzer.Multi.Round.{IsRound, run_packet-IsRound}

is_bytes : Bytes → Bool
is_bytes [] = true
is_bytes (b ∷ bs) = ltb b 256 && is_bytes bs

is_bytes-IsBytes : (bs : Bytes) → is_bytes bs ≡ true → IsBytes bs
unfolding is_bytes
is_bytes-IsBytes [] h = tt
is_bytes-IsBytes (b ∷ bs) h = (ground arith, is_bytes-IsBytes bs (ground arith))

-- A datagram from 10.0.0.1 to 10.0.0.2, port 53 to port 80, with a payload of two bytes.
abbrev datagram : Bytes
datagram =
    1 ∷ 2 ∷ 3 ∷ 4 ∷ 5 ∷ 6 ∷ 7 ∷ 8 ∷ 9 ∷ 10 ∷ 11 ∷ 12 ∷ 8 ∷ 0 ∷ 0x45 ∷ 0 ∷ 0 ∷ 30 ∷ 0 ∷ 0 ∷ 0 ∷ 0
    ∷ 64 ∷ 17 ∷ 0 ∷ 0 ∷ 10 ∷ 0 ∷ 0 ∷ 1 ∷ 10 ∷ 0 ∷ 0 ∷ 2 ∷ 0 ∷ 53 ∷ 0 ∷ 80 ∷ 0 ∷ 10 ∷ 0 ∷ 0 ∷ 7 ∷ 7
    ∷ []

abbrev packet : RawPacket
packet = record {
  header = record { ts_sec = 1; ts_usec = 2; incl_len = 44; orig_len = 44 };
  bytes = datagram;
}

abbrev parsed_packet : ParsedPacket
parsed_packet = record {
  timestamp_sec = 1;
  timestamp_usec = 2;
  src_mac = codes "07:08:09:0a:0b:0c";
  dest_mac = codes "01:02:03:04:05:06";
  ether_type = 2048;
  has_ip = true;
  ip_version = 4;
  src_ip = codes "10.0.0.1";
  dest_ip = codes "10.0.0.2";
  protocol = 17;
  ttl = 64;
  has_tcp = false;
  has_udp = true;
  src_port = 53;
  dest_port = 80;
  tcp_flags = 0;
  seq_number = 0;
  ack_number = 0;
  payload_length = 2;
  payload_data = some 42;
}

datagram-IsBytes : IsBytes datagram
unfolding is_bytes
datagram-IsBytes = is_bytes-IsBytes datagram refl

abbrev new_reader : ReaderState
new_reader = record {
  stats = record {
    total_packets = 0;
    total_bytes = 0;
    forwarded_packets = 0;
    forwarded_bytes = 0;
    dropped_packets = 0;
    dropped_bytes = 0;
    tcp_packets = 0;
    udp_packets = 0;
  };
  packet_id = 0;
}

read_jobs-IsReading_example :
    Returns
      (read_jobs true new_reader (packet ∷ packet ∷ []))
      (IsReading true new_reader (packet ∷ packet ∷ []))
read_jobs-IsReading_example =
    read_jobs-IsReading true new_reader (packet ∷ packet ∷ []) (omega arith)
      (datagram-IsBytes, (datagram-IsBytes, tt))

-- The header of a capture of Ethernet frames.
abbrev header : PcapGlobalHeader
header = record {
  magic_number = 0xa1b2c3d4;
  version_major = 2;
  version_minor = 4;
  thiszone = 0;
  sigfigs = 0;
  snaplen = 65535;
  network = 1;
}

header-IsHeader : IsHeader header
header-IsHeader = record {
  magic = refl;
  major = omega arith;
  minor = omega arith;
  snap = omega arith;
  link = omega arith;
}

packet-IsCaptured : All (IsCaptured 65535) (packet ∷ [])
packet-IsCaptured = (
  record {
    sec = omega arith;
    usec = omega arith;
    incl = refl;
    orig = refl;
    short = omega arith;
    snapped = omega arith;
  },
  tt,
)

read_packets-capture_example :
    (r : PcapReader) × (open_reader true
        (some (write_header false header (write_packets false (packet ∷ []))))
      ≡ some r)
    × (r.global_header.version_major ≡ 2)
    × (r.global_header.version_minor ≡ 4)
    × (r.global_header.snaplen ≡ 65535)
    × (r.global_header.network ≡ 1)
    × (read_packets 2 true r ≡ ok (packet ∷ []))
read_packets-capture_example =
    read_packets-capture false true header (packet ∷ []) header-IsHeader packet-IsCaptured

read_packets_copied_example :
    (r : PcapReader) × (open_reader true
        (some (write_header false header (write_packets false (packet ∷ packet ∷ []))))
      ≡ some r)
    × (copy : PcapReader) × (open_reader true
          (some (write_header true r.global_header (write_packets true (packet ∷ packet ∷ []))))
        ≡ some copy)
    × ((fuel : ℕ) → read_packets (suc fuel) true copy ≡ ok [])
read_packets_copied_example =
    read_packets_copied true header packet (packet ∷ []) header-IsHeader (omega arith) (omega arith)

abbrev open_file : PcapReader
open_file = record { rest = datagram; global_header = header; needs_byte_swap = false }

read_packets-Returns_example : Returns (read_packets 45 true open_file) (All (IsWithin 65535))
read_packets-Returns_example = read_packets-Returns 45 true open_file (omega arith)

-- A little-endian capture of the datagram.
abbrev capture : Bytes
capture =
    0xd4 ∷ 0xc3 ∷ 0xb2 ∷ 0xa1 ∷ 2 ∷ 0 ∷ 4 ∷ 0 ∷ 0 ∷ 0 ∷ 0 ∷ 0 ∷ 0 ∷ 0 ∷ 0 ∷ 0 ∷ 255 ∷ 255 ∷ 0 ∷ 0
    ∷ 1 ∷ 0 ∷ 0 ∷ 0 ∷ 1 ∷ 0 ∷ 0 ∷ 0 ∷ 2 ∷ 0 ∷ 0 ∷ 0 ∷ 44 ∷ 0 ∷ 0 ∷ 0 ∷ 44 ∷ 0 ∷ 0 ∷ 0 ∷ datagram

capture-IsBytes : IsBytes capture
unfolding is_bytes
capture-IsBytes = is_bytes-IsBytes capture refl

abbrev one_domain : BlockingRules
one_domain = record {
  blocked_ips = 10 ∷ [];
  blocked_apps = [];
  blocked_domains = codes "example" ∷ [];
}

run-IsOutcome_example :
    Returns (run true one_domain (some capture)) (IsOutcome true one_domain capture)
run-IsOutcome_example = run-IsOutcome true one_domain capture capture-IsBytes

youtube-named : youtube ≢ app_count
youtube-named = ground arith

is_blocked-rules_example :
    Returns (block_ip one_domain (ip_to_string 0x0100000a)) (λ r.
      is_blocked r 11 netflix (codes "a.test")
      ≡ (num_eq 0x0100000a 11 || is_blocked one_domain 11 netflix (codes "a.test")))
    × (is_blocked (block_app one_domain (app_type_to_string youtube)) 11 netflix (codes "a.test")
        ≡ (app_eq youtube netflix || is_blocked one_domain 11 netflix (codes "a.test")))
    × (is_blocked (block_domain one_domain (codes "test")) 11 netflix (codes "a.test") ≡ (
        contains (codes "test") (codes "a.test")
        || is_blocked one_domain 11 netflix (codes "a.test")))
is_blocked-rules_example =
    is_blocked-rules one_domain 0x0100000a youtube (codes "test") 11 netflix (codes "a.test")
      (omega arith) youtube-named

abbrev sized_packet : Packet
sized_packet = record {
  id = 0;
  ts_sec = 1;
  ts_usec = 2;
  tuple = tuple_of datagram parsed_packet;
  bytes = datagram;
  tcp_flags = 0;
  payload_offset = 42;
  payload_length = some 2;
}

abbrev new_path : FastPath
new_path = record {
  flows = [];
  processed = 0;
  stats = record {
    total_packets = 0;
    total_bytes = 0;
    forwarded = 0;
    dropped = 0;
    tcp_packets = 0;
    udp_packets = 0;
    app_counts = [];
    detected_snis = [];
  };
}

run_packet-IsRound_example :
    Returns (run_packet one_domain sized_packet new_path) (IsRound one_domain sized_packet new_path)
run_packet-IsRound_example =
    run_packet-IsRound one_domain sized_packet new_path (2, refl, omega arith)
