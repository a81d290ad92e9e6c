-- ===== src/Simple.antt =====
-- The single-threaded program, src/main_working.cpp: its rules, its flow table and the loop over
-- the packets of a capture. `std::unordered_map` is the list of its entries, without an order.
pub mod Table
pub mod Update
pub mod Round
pub mod Loop
pub mod Whole
pub mod Blocking
use deep_packet_analyzer.Base.{
  ℕ, ◌+◌, ◌*◌, ◌%◌, ◌^◌, Bool, true, false, not, ◌||◌, ◌&&◌, List, [], ◌∷◌, ◌++◌, Option, none,
  some, ltb, ◌==◌, if◌then◌else◌, length, drop, Bytes, byte_at, contains, codes, equal, Result, ok,
  err, ◌>>=◌,
}
use deep_packet_analyzer.Tuple.{FiveTuple}
use deep_packet_analyzer.App.{
  AppType, unknown, http, https, dns, app_eq, sni_to_app_type, string_to_app_type,
}
use deep_packet_analyzer.Ip.{parse_ip}
use deep_packet_analyzer.Rules.{num_eq, is_empty}
use deep_packet_analyzer.Rules.Sets.{member, insert}
use deep_packet_analyzer.Connection.{add64}
use deep_packet_analyzer.Extract.Tls
use deep_packet_analyzer.Extract.Http
use deep_packet_analyzer.Pcap.Format.{RawPacket}
use deep_packet_analyzer.Pcap.{PcapReader, open_reader, read_packets, write_header, write_packet}
use deep_packet_analyzer.Packet.{ParsedPacket, parse, low_nibble, high_nibble}
use deep_packet_analyzer.Engine.{is_skipped, five_tuple}
use Table.{fetch, put}

pub record Flow : Type 0 where
  pub tuple : FiveTuple
  pub app_type : AppType
  pub sni : Bytes
  pub packets : ℕ
  pub bytes : ℕ
  pub blocked : Bool

pub record BlockingRules : Type 0 where
  pub blocked_ips : List ℕ
  pub blocked_apps : List AppType
  pub blocked_domains : List Bytes

-- The line that each of the three prints is left out.
unfoldable pub block_ip : BlockingRules → Bytes → Result BlockingRules
block_ip r ip = do a ← parse_ip ip; ok (record r { blocked_ips = insert num_eq a r.blocked_ips })

unfoldable pub block_app : BlockingRules → Bytes → BlockingRules
block_app r name = elim (string_to_app_type name) [
  | none ↦ r
  | some app ↦ record r { blocked_apps = insert app_eq app r.blocked_apps }
]

unfoldable pub block_domain : BlockingRules → Bytes → BlockingRules
block_domain r domain = record r { blocked_domains = r.blocked_domains ++ domain ∷ [] }

unfoldable pub any_domain : Bytes → List Bytes → Bool
any_domain sni [] = false
any_domain sni (d ∷ ds) = contains d sni || any_domain sni ds

unfoldable pub is_blocked : BlockingRules → ℕ → AppType → Bytes → Bool
is_blocked r src_ip app sni =
    member num_eq src_ip r.blocked_ips
    || member app_eq app r.blocked_apps
    || any_domain sni r.blocked_domains

-- The options of the command line from the fourth argument on.
unfoldable pub parse_options : BlockingRules → List Bytes → Result BlockingRules
unfolding block_ip block_app block_domain
parse_options r [] = ok r
parse_options r (arg ∷ []) = ok r
parse_options r (arg ∷ next ∷ args) =
    if equal arg (codes "--block-ip")
    then (do r' ← block_ip r next; parse_options r' args)
    else if equal arg (codes "--block-app")
    then parse_options (block_app r next) args
    else if equal arg (codes "--block-domain")
    then parse_options (block_domain r next) args
    else parse_options r (next ∷ args)

-- `flows[tuple]` on a new key: the members' initial values.
abbrev pub new_flow : FiveTuple → Flow
new_flow t = record {
  tuple = t;
  app_type = unknown;
  sni = [];
  packets = 0;
  bytes = 0;
  blocked = false;
}

unfoldable pub flow_of : FiveTuple → List (FiveTuple × Flow) → Flow
flow_of t flows = elim (fetch t flows) [ none ↦ new_flow t | some f ↦ f ]

-- The counts of a flow.
unfoldable pub count_packet : FiveTuple → ℕ → Flow → Flow
count_packet t size f =
    let f' = if f.packets == 0 then record f { tuple = t } else f in
    record f' { packets = add64 f'.packets 1; bytes = add64 f'.bytes size }

-- The bytes behind the TCP header, where the packet reaches that far.
unfoldable pub behind : Bytes → ℕ → Option Bytes
behind p o = if ltb o (length p) then some (drop o p) else none

unfoldable pub tcp_payload : Bytes → Result (Option Bytes)
unfolding behind
tcp_payload p = do
  b ← byte_at p 14
  if ltb (14 + low_nibble b * 4 + 12) (length p)
      then (do
        d ← byte_at p (14 + low_nibble b * 4 + 12)
        ok (behind p (14 + low_nibble b * 4 + high_nibble d * 4)))
      else ok none

-- A name was found.
unfoldable pub set_name : Flow → Option Bytes → Flow
set_name f none = f
set_name f (some name) = record f { sni = name; app_type = sni_to_app_type name }

unfoldable pub sni_from : Flow → Option Bytes → Result Flow
unfolding set_name
sni_from f none = ok f
sni_from f (some payload) =
    if ltb 5 (length payload) then (do name ← Tls.extract payload; ok (set_name f name)) else ok f

unfoldable pub host_from : Flow → Option Bytes → Result Flow
unfolding set_name
host_from f none = ok f
host_from f (some payload) = do name ← Http.extract payload; ok (set_name f name)

unfoldable pub try_sni : Bytes → ParsedPacket → Flow → Result Flow
unfolding tcp_payload sni_from
try_sni p q f =
    if (app_eq f.app_type unknown || app_eq f.app_type https)
      && is_empty f.sni
      && q.has_tcp
      && q.dest_port == 443
    then (do payload ← tcp_payload p; sni_from f payload)
    else ok f

unfoldable pub try_host : Bytes → ParsedPacket → Flow → Result Flow
unfolding tcp_payload host_from
try_host p q f =
    if (app_eq f.app_type unknown || app_eq f.app_type http)
      && is_empty f.sni
      && q.has_tcp
      && q.dest_port == 80
    then (do payload ← tcp_payload p; host_from f payload)
    else ok f

unfoldable pub try_dns : ParsedPacket → Flow → Flow
try_dns q f =
    if app_eq f.app_type unknown && (q.dest_port == 53 || q.src_port == 53)
    then record f { app_type = dns }
    else f

unfoldable pub try_port : ParsedPacket → Flow → Flow
try_port q f =
    if app_eq f.app_type unknown
    then if q.dest_port == 443
      then record f { app_type = https }
      else if q.dest_port == 80
      then record f { app_type = http }
      else f
    else f

unfoldable pub check_blocked : BlockingRules → ℕ → Flow → Flow
check_blocked rules src_ip f =
    if f.blocked then f else record f { blocked = is_blocked rules src_ip f.app_type f.sni }

-- The flow of a packet after the packet.
unfoldable pub update_flow : BlockingRules → FiveTuple → Bytes → ParsedPacket → Flow → Result Flow
unfolding count_packet try_sni try_host try_dns try_port check_blocked
update_flow rules t p q f = do
  g ← try_sni p q (count_packet t (length p) f)
  h ← try_host p q g
  ok (check_blocked rules t.src_ip (try_port q (try_dns q h)))

-- `app_stats[app]++`.
unfoldable pub count_app : AppType → List (AppType × ℕ) → List (AppType × ℕ)
count_app app [] = (app, 1) ∷ []
count_app app ((a, n) ∷ rest) =
    if app_eq a app then (a, add64 n 1) ∷ rest else (a, n) ∷ count_app app rest

-- The variables of `main`, with the contents of the output file.
pub record Program : Type 0 where
  pub flows : List (FiveTuple × Flow)
  pub total_packets : ℕ
  pub forwarded : ℕ
  pub dropped : ℕ
  pub app_stats : List (AppType × ℕ)
  pub output : Bytes

-- Forward or drop.
unfoldable pub forward_or_drop : Bool → RawPacket → Flow → Program → Program
forward_or_drop little raw f st =
    if f.blocked then record st { dropped = add64 st.dropped 1 } else record st {
      forwarded = add64 st.forwarded 1;
      output = st.output ++ write_packet little raw.header.ts_sec raw.header.ts_usec raw.bytes [];
    }

unfoldable pub handle_flow :
    Bool → BlockingRules → RawPacket → ParsedPacket → FiveTuple → Program → Result Program
unfolding flow_of update_flow count_app forward_or_drop
handle_flow little rules raw q t st = do
  f ← update_flow rules t raw.bytes q (flow_of t st.flows)
  ok (
      forward_or_drop little raw f
        (record st { flows = put t f st.flows; app_stats = count_app f.app_type st.app_stats }))

-- The body of the loop.
unfoldable pub handle_packet : Bool → BlockingRules → RawPacket → Program → Result Program
unfolding handle_flow
handle_packet little rules raw st = do
  let counted = record st { total_packets = add64 st.total_packets 1 }
  out ← parse little raw
  if not out.0
      then ok counted
      else if is_skipped out.1
      then ok counted
      else (do t ← five_tuple out.1; handle_flow little rules raw out.1 t counted)

unfoldable pub handle_packets : Bool → BlockingRules → List RawPacket → Program → Result Program
unfolding handle_packet
handle_packets little rules [] st = ok st
handle_packets little rules (raw ∷ raws) st = do
  st' ← handle_packet little rules raw st
  handle_packets little rules raws st'

abbrev pub start : Bytes → Program
start output = record {
  flows = [];
  total_packets = 0;
  forwarded = 0;
  dropped = 0;
  app_stats = [];
  output = output;
}

-- `main` behind the options, on an output file that opens; `none` is the exit code 1. The packets
-- are read before the first one is handled, which the reader does not notice.
unfoldable pub run : Bool → BlockingRules → Option Bytes → Result (Option Program)
unfolding handle_packets
run little rules input = elim (open_reader little input) [
  | none ↦ ok none
  | some r ↦ read_packets (length r.rest + 1) little r >>= λ raws.
      handle_packets little rules raws (start (write_header little r.global_header [])) >>= λ st.
      ok (some st)
]
