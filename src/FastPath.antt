-- ===== src/FastPath.antt =====
-- A fast path: the per-packet code of include/fast_path.h and src/fast_path.cpp. The thread and
-- its queue are left out; an iteration of `run` is a step on the state of the processor.
pub mod Inspect
pub mod Safety
pub mod Kept
pub mod Flow
pub mod Process
pub mod Fit
use deep_packet_analyzer.Base.{
  ℕ, ◌+◌, ◌*◌, ◌^◌, ◌-◌, Bool, true, false, not, ◌&&◌, ◌||◌, Option, none, some, ltb, leb, ◌==◌,
  bit_and, if◌then◌else◌, length, Bytes, [], Result, ok, err, ◌>>=◌, dangling,
}
use deep_packet_analyzer.Tuple.{FiveTuple}
use deep_packet_analyzer.Connection.{
  Connection, ConnectionState, established, blocked, closed, PacketAction, forward, drop, PacketJob,
  is_blocked, is_classified, is_new, add64,
}
use deep_packet_analyzer.Tracker.{
  Tracker, get_or_create_connection, update_connection, block_connection, cleanup_stale,
}
use deep_packet_analyzer.Tracker.Table.{find, store}
use deep_packet_analyzer.Rules.{RuleManager, BlockReason, should_block}
use Inspect.{FastPath, inspect_payload}

-- Whether the packet runs in the direction of the stored tuple.
unfoldable pub is_outbound : FiveTuple → FiveTuple → Bool
is_outbound t u =
    t.src_ip == u.src_ip
    && t.dst_ip == u.dst_ip
    && t.src_port == u.src_port
    && t.dst_port == u.dst_port

abbrev pub has_flag : ℕ → ℕ → Bool
has_flag flags mask = not (bit_and flags mask == 0)

-- `updateTCPState`, statement by statement.
unfoldable pub note_syn : Connection → ℕ → Connection
note_syn c flags =
    if has_flag flags 2
    then if has_flag flags 16
      then record c { syn_ack_seen = true }
      else record c { syn_seen = true }
    else c

unfoldable pub note_established : Connection → ℕ → Connection
note_established c flags =
    if (c.syn_seen && c.syn_ack_seen && has_flag flags 16) && is_new c.state
    then record c { state = established }
    else c

unfoldable pub note_fin : Connection → ℕ → Connection
note_fin c flags = if has_flag flags 1 then record c { fin_seen = true } else c

unfoldable pub note_closed : Connection → ℕ → Connection
note_closed c flags =
    if has_flag flags 4 || (c.fin_seen && has_flag flags 16) then record c { state = closed } else c

unfoldable pub update_tcp_state : Connection → ℕ → Connection
unfolding note_syn note_established note_fin note_closed
update_tcp_state c flags =
    note_closed (note_fin (note_established (note_syn c flags) flags) flags) flags

-- `checkRules`; without a rule manager everything passes. The line it prints is left out.
unfoldable pub check_rules :
    Option RuleManager → PacketJob → FastPath → Connection → PacketAction × FastPath × Connection
check_rules none job fp c = (forward, fp, c)
check_rules (some r) job fp c =
    elim (should_block r job.tuple.src_ip job.tuple.dst_port c.app_type c.sni) [
      | none ↦ (forward, fp, c)
      | some reason ↦ (
        drop,
        record fp { tracker = (block_connection fp.tracker c).0 },
        (block_connection fp.tracker c).1,
      )
    ]

-- The counters and the TCP state of the flow, before the payload is looked at.
unfoldable pub account : ℕ → PacketJob → Connection → Connection
unfolding update_tcp_state
account now job c =
    let counted = update_connection now c (length job.bytes) (is_outbound job.tuple c.tuple) in
    if job.tuple.protocol == 6 then update_tcp_state counted job.tcp_flags else counted

-- `processPacket` from the point where the record of the flow is at hand.
unfoldable pub decide :
    Option RuleManager
    → PacketJob
    → FastPath
    → Connection
    → Result (PacketAction × FastPath × Connection)
unfolding check_rules inspect_payload
decide rules job fp c =
    if is_blocked c.state
    then ok (drop, fp, c)
    else if not (is_classified c.state) && ltb 0 job.payload_length
    then (do w ← inspect_payload job fp c; ok (check_rules rules job w.0 w.1))
    else ok (check_rules rules job fp c)

-- The writes to the record end up in its node.
unfoldable pub write_back :
    FiveTuple → PacketAction × FastPath × Connection → PacketAction × FastPath
write_back key (action, fp, c) = (
  action,
  record fp { tracker = record fp.tracker { connections = store key c fp.tracker.connections } },
)

unfoldable pub with_node :
    Option RuleManager
    → ℕ
    → PacketJob
    → FastPath
    → FiveTuple
    → Option Connection
    → Result (PacketAction × FastPath)
unfolding decide account write_back
with_node rules now job fp key none = err dangling
with_node rules now job fp key (some c) = do
  out ← decide rules job fp (account now job c)
  ok (write_back key out)

-- `processPacket`: `created` and `now` are the two readings of the clock, `pos` is the place of a
-- new node in the hash table. A pointer to a node that is gone is `dangling`.
unfoldable pub process_packet :
    Option RuleManager → FastPath → ℕ → ℕ → ℕ → PacketJob → Result (PacketAction × FastPath)
unfolding with_node
process_packet rules fp created pos now job =
    let r = get_or_create_connection fp.tracker created pos job.tuple in
    with_node rules now job (record fp { tracker = r.0 }) r.1 (find r.1 r.0.connections)

abbrev pub is_drop : PacketAction → Bool
is_drop drop = true
is_drop _ = false

-- The counters after a packet.
unfoldable pub count_action : PacketAction → FastPath → FastPath
count_action action fp =
    if is_drop action
    then record fp { packets_dropped = add64 fp.packets_dropped 1 }
    else record fp { packets_forwarded = add64 fp.packets_forwarded 1 }

-- An iteration of `run` that got a packet.
unfoldable pub run_packet :
    Option RuleManager → FastPath → ℕ → ℕ → ℕ → PacketJob → Result (PacketAction × FastPath)
unfolding count_action
run_packet rules fp created pos now job = do
  out ←
      process_packet rules (record fp { packets_processed = add64 fp.packets_processed 1 }) created
        pos now job
  ok (out.0, count_action out.0 out.1)

-- An iteration of `run` that got none: connections idle for more than 300 seconds are removed.
unfoldable pub run_idle : FastPath → ℕ → FastPath
run_idle fp now = record fp { tracker = (cleanup_stale fp.tracker now 300).0 }
