-- ===== src/Examples/Messages.antt =====
-- Short messages of each protocol, and packets.
use deep_packet_analyzer.Base.{
  ◌≡◌, ◌≢◌, refl, inl, true, some, [], ◌∷◌, ◌++◌, Bytes, codes, arith, length, All, Returns,
  Succeeds, ok, err, out_of_bounds, map, to_lower, contains, byte_at,
}
use deep_packet_analyzer.App.{netflix, microsoft, sni_to_app_type}
use deep_packet_analyzer.App.Sni.{sni_to_app_type_shadowed}
use deep_packet_analyzer.Extract.Tls
use deep_packet_analyzer.Extract.Tls.Safety.{tls_extract-Succeeds}
use deep_packet_analyzer.Extract.Tls.RoundTrip.{ClientHello, hello_bytes, tls_extract-hello_bytes}
use deep_packet_analyzer.Extract.Http
use deep_packet_analyzer.Extract.Http.{is_http_request, is_host_header, any_method}
use deep_packet_analyzer.Extract.Http.Host.{http_extract-host, NoHeader, IsHostHeader, IsHostByte}
use deep_packet_analyzer.Extract.Dns.{extract_query}
use deep_packet_analyzer.Extract.Dns.Query.{extract_query-name_bytes, joined, name_bytes}
use deep_packet_analyzer.Extract.Quic
use deep_packet_analyzer.Extract.Quic.Underrun.{quic_extract_underruns}
use deep_packet_analyzer.Packet.{parse}
use deep_packet_analyzer.Pcap.Format.{RawPacket}
use deep_packet_analyzer.Packet.Safety.{IsPayload, parse-Returns}

abbrev thirty_two : Bytes
thirty_two =
    1 ∷ 2 ∷ 3 ∷ 4 ∷ 5 ∷ 6 ∷ 7 ∷ 8 ∷ 9 ∷ 10 ∷ 11 ∷ 12 ∷ 13 ∷ 14 ∷ 15 ∷ 16 ∷ 17 ∷ 18 ∷ 19 ∷ 20 ∷ 21
    ∷ 22 ∷ 23 ∷ 24 ∷ 25 ∷ 26 ∷ 27 ∷ 28 ∷ 29 ∷ 30 ∷ 31 ∷ 32 ∷ []

abbrev hello : ClientHello
hello = record {
  version = 0x0301;
  handshake_length = 100;
  client_version = 0x0303;
  random = thirty_two;
  session = 9 ∷ 9 ∷ [];
  ciphers = 0x13 ∷ 1 ∷ [];
  compression = 0 ∷ [];
  before = record { kind = 23; body = [] } ∷ [];
  name = codes "a.example";
  after = [];
}

tls_extract-hello_bytes_example : Tls.extract (hello_bytes hello) ≡ ok (some (codes "a.example"))
tls_extract-hello_bytes_example =
    tls_extract-hello_bytes hello (omega arith) (omega arith) (omega arith) (omega arith, tt)

tls_extract-Succeeds_example : Succeeds (Tls.extract thirty_two)
tls_extract-Succeeds_example = tls_extract-Succeeds thirty_two

abbrev request_line : Bytes
request_line = codes "GET /\nX-"

abbrev host_line : Bytes
host_line = codes "Host: h.example\r\n"

request_line-NoHeader : NoHeader request_line host_line
unfolding is_host_header byte_at to_lower
request_line-NoHeader = (refl, (refl, (refl, (refl, (refl, (refl, (refl, (refl, tt))))))))

request-is_http : is_http_request (request_line ++ host_line) ≡ true
unfolding is_http_request any_method
request-is_http = refl

host_name : IsHostHeader (codes "Host:")
unfolding to_lower
host_name = refl

host_bytes : All IsHostByte (codes "h.example")
host_bytes = (
  ground arith,
  (
    ground arith,
    (
      ground arith,
      (
        ground arith,
        (ground arith, (ground arith, (ground arith, (ground arith, (ground arith, tt))))),
      ),
    ),
  ),
)

name_not_empty : codes "h.example" ≢ []
name_not_empty e = cc

http_extract-host_example : Http.extract (request_line ++ host_line) ≡ ok (some (codes "h.example"))
http_extract-host_example =
    http_extract-host request_line b'H' b'o' b's' b't' b':' (b' ' ∷ []) (codes "h.example")
      (codes "\r\n") host_name (inl refl, tt) host_bytes name_not_empty (inl refl) (omega arith)
      request_line-NoHeader request-is_http

extract_query-name_bytes_example :
    extract_query (
      7
      ∷ 8
      ∷ 1
      ∷ 0
      ∷ 0
      ∷ 1
      ∷ 0
      ∷ 0
      ∷ 0
      ∷ 0
      ∷ 0
      ∷ 0
      ∷ name_bytes (codes "a" ∷ codes "example" ∷ []) (0 ∷ 1 ∷ []))
    ≡ ok (some (joined (codes "a" ∷ codes "example" ∷ [])))
extract_query-name_bytes_example =
    extract_query-name_bytes 7 8 1 0 0 1 0 0 0 0 0 0 (codes "a") (codes "example" ∷ []) (0 ∷ 1 ∷ [])
      refl (omega arith) (omega arith)
      ((omega arith, omega arith), ((omega arith, omega arith), tt))

abbrev fifty : Bytes
fifty = thirty_two ++ thirty_two

quic_extract_underruns_example : Quic.extract (0xc3 ∷ 0 ∷ 0 ∷ 0 ∷ 1 ∷ fifty) ≡ err out_of_bounds
quic_extract_underruns_example = quic_extract_underruns 0xc3 fifty (omega arith) (omega arith)

mentions_netflix : contains (codes "netflix.com") (map to_lower (codes "www.Netflix.com")) ≡ true
unfolding contains to_lower
mentions_netflix = refl

sni_to_app_type_shadowed_example :
    (sni_to_app_type (codes "www.Netflix.com") ≢ netflix)
    × (sni_to_app_type (codes "www.Netflix.com") ≢ microsoft)
sni_to_app_type_shadowed_example =
    sni_to_app_type_shadowed (codes "www.Netflix.com") (inl mentions_netflix)

-- A frame of another protocol than IPv4.
abbrev frame : RawPacket
frame = record {
  header = record { ts_sec = 1; ts_usec = 2; incl_len = 32; orig_len = 32 };
  bytes = thirty_two;
}

parse-Returns_example :
    Returns (parse true frame) (λ out. out.0 ≡ true → IsPayload (length thirty_two) out.1)
parse-Returns_example = parse-Returns true frame
