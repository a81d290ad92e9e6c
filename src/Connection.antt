-- ===== src/Connection.antt =====
-- The flow record, the packet in flight and their enums: include/types.h.
use deep_packet_analyzer.Base.{ℕ, ◌+◌, ◌%◌, ◌^◌, Bool, true, false, [], Option, Bytes}
use deep_packet_analyzer.Tuple.{FiveTuple}
use deep_packet_analyzer.App.{AppType, unknown}

pub data ConnectionState : Type 0 where
  new established classified blocked closed : ConnectionState

pub data PacketAction : Type 0 where
  forward drop inspect log_only : PacketAction

-- Times are in nanoseconds of the steady clock; counters are uint64_t.
pub record Connection : Type 0 where
  pub tuple : FiveTuple
  pub state : ConnectionState
  pub app_type : AppType
  pub sni : Bytes
  pub packets_in : ℕ
  pub packets_out : ℕ
  pub bytes_in : ℕ
  pub bytes_out : ℕ
  pub first_seen : ℕ
  pub last_seen : ℕ
  pub action : PacketAction
  pub syn_seen : Bool
  pub syn_ack_seen : Bool
  pub fin_seen : Bool

-- `Connection{}` with the tuple and the times that its creator writes at once.
abbrev pub fresh_connection : FiveTuple → ℕ → Connection
fresh_connection t now = record {
  tuple = t;
  state = new;
  app_type = unknown;
  sni = [];
  packets_in = 0;
  packets_out = 0;
  bytes_in = 0;
  bytes_out = 0;
  first_seen = now;
  last_seen = now;
  action = forward;
  syn_seen = false;
  syn_ack_seen = false;
  fin_seen = false;
}

-- `payload_data` is the offset into `bytes` of the byte that the pointer names.
pub record PacketJob : Type 0 where
  pub packet_id : ℕ
  pub tuple : FiveTuple
  pub bytes : Bytes
  pub eth_offset : ℕ
  pub ip_offset : ℕ
  pub transport_offset : ℕ
  pub payload_offset : ℕ
  pub payload_length : ℕ
  pub tcp_flags : ℕ
  pub payload_data : Option ℕ
  pub ts_sec : ℕ
  pub ts_usec : ℕ

abbrev pub is_blocked : ConnectionState → Bool
is_blocked blocked = true
is_blocked _ = false

abbrev pub is_classified : ConnectionState → Bool
is_classified classified = true
is_classified _ = false

abbrev pub is_closed : ConnectionState → Bool
is_closed closed = true
is_closed _ = false

abbrev pub is_new : ConnectionState → Bool
is_new new = true
is_new _ = false

-- `counter += n` on a uint64_t.
abbrev pub add64 : ℕ → ℕ → ℕ
add64 a b = (a + b) % 2 ^ 64
