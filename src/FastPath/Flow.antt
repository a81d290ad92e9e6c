-- ===== src/FastPath/Flow.antt =====
-- What a fast path decides about a flow, and the state it leaves the flow in.
use deep_packet_analyzer.Base.{
  ℕ, ◌≡◌, refl, sym, ap, ◌∙◌, Bool, true, false, not, ◌&&◌, ◌||◌, Option, none, some, ltb, ◌==◌,
  if◌then◌else◌, arith, Result, ok, ◌>>=◌, Bool-cases, Option-cases, inl, inr,
}
use deep_packet_analyzer.Connection.{
  Connection, blocked, closed, PacketJob, PacketAction, forward, drop, is_classified, is_blocked,
}
use deep_packet_analyzer.Rules.{RuleManager, should_block}
use deep_packet_analyzer.Tracker.{block_connection, update_connection}
use deep_packet_analyzer.FastPath.Inspect.{FastPath, inspect_payload}
use deep_packet_analyzer.FastPath.{
  check_rules, decide, account, is_drop, update_tcp_state, note_syn, note_established, note_fin,
  note_closed, has_flag,
}
use deep_packet_analyzer.FastPath.Kept.{
  Work, IsKept, IsKept-refl, Always, Always-if, Always-then, inspect_payload-IsKept,
}

abbrev pub Outcome : Type 0
Outcome = PacketAction × FastPath × Connection

-- The table, the counters of packets and the tuple stay, and the packet is dropped exactly when
-- the flow is blocked after it.
pub record IsDecision (v : Work) (out : Outcome) : Type 0 where
  pub connections : out.1.tracker.connections ≡ v.0.tracker.connections
  pub room : out.1.tracker.max_connections ≡ v.0.tracker.max_connections
  pub processed : out.1.packets_processed ≡ v.0.packets_processed
  pub forwarded : out.1.packets_forwarded ≡ v.0.packets_forwarded
  pub dropped : out.1.packets_dropped ≡ v.0.packets_dropped
  pub tuple : out.2.tuple ≡ v.1.tuple
  pub agrees : is_drop out.0 ≡ is_blocked out.2.state

pass-IsDecision :
    (v w : Work) → IsKept v w → is_blocked v.1.state ≡ false → IsDecision v (forward, w.0, w.1)
pass-IsDecision v w k h = record {
  connections = k.connections;
  room = k.room;
  processed = k.processed;
  forwarded = k.forwarded;
  dropped = k.dropped;
  tuple = k.tuple;
  agrees = sym (k.unblocked h);
}

check_rules-IsDecision :
    (rules : Option RuleManager) (job : PacketJob) (v w : Work)
    → IsKept v w
    → is_blocked v.1.state ≡ false
    → IsDecision v (check_rules rules job w.0 w.1)
unfolding check_rules block_connection
check_rules-IsDecision none job v w k h = pass-IsDecision v w k h
check_rules-IsDecision (some r) job v w k h =
    elim (Option-cases (should_block r job.tuple.src_ip job.tuple.dst_port w.1.app_type w.1.sni)) [
      | inl e ↦ rw (e, check_rules) (pass-IsDecision v w k h)
      | inr (reason, e) ↦
          rw (e, check_rules)
            (record {
              connections = k.connections;
              room = k.room;
              processed = k.processed;
              forwarded = k.forwarded;
              dropped = k.dropped;
              tuple = k.tuple;
              agrees = refl;
            })
    ]

pub decide-IsDecision :
    (rules : Option RuleManager) (job : PacketJob) (fp : FastPath) (c : Connection)
    → Always (decide rules job fp c) (IsDecision (fp, c))
unfolding decide
decide-IsDecision rules job fp c = elim (Bool-cases (is_blocked c.state)) [
  | inl e ↦ rw e (record {
    connections = refl;
    room = refl;
    processed = refl;
    forwarded = refl;
    dropped = refl;
    tuple = refl;
    agrees = sym e;
  })
  | inr e ↦
      let P : Outcome → Type 0 = IsDecision (fp, c) in
      let inspected : Result Outcome =
        inspect_payload job fp c >>= λ w. ok (check_rules rules job w.0 w.1) in
      rw e (
        Always-if P (not (is_classified c.state) && ltb 0 job.payload_length) inspected
          (ok (check_rules rules job fp c))
          (Always-then (IsKept (fp, c)) P (inspect_payload job fp c)
            (λ w. ok (check_rules rules job w.0 w.1)) (inspect_payload-IsKept job fp c)
            (λ w k. check_rules-IsDecision rules job (fp, c) w k e))
          (check_rules-IsDecision rules job (fp, c) (fp, c) (IsKept-refl (fp, c)) e))
]

-- A packet that closes its flow: a reset, or an acknowledgement once a FIN was seen.
abbrev pub closes : PacketJob → Connection → Bool
closes job c =
    job.tuple.protocol == 6
    && (has_flag job.tcp_flags 4
        || ((c.fin_seen || has_flag job.tcp_flags 1) && has_flag job.tcp_flags 16))

pub account-tuple :
    (now : ℕ) (job : PacketJob) (c : Connection) → (account now job c).tuple ≡ c.tuple
unfolding account update_tcp_state note_syn note_established note_fin note_closed update_connection
account-tuple now job c = ground arith

account-state :
    (now : ℕ) (job : PacketJob) (c : Connection)
    → c.state ≡ blocked
    → (account now job c).state ≡ (if closes job c then closed else blocked)
unfolding account update_tcp_state note_syn note_established note_fin note_closed update_connection
account-state now job c h = ground (arith, h)

-- A blocked flow stays blocked, and its packet is dropped, unless the packet closes the flow.
pub blocked_flow_stays :
    (rules : Option RuleManager) (now : ℕ) (job : PacketJob) (fp : FastPath) (c : Connection)
    → c.state ≡ blocked
    → closes job c ≡ false
    → (decide rules job fp (account now job c) ≡ ok (drop, fp, account now job c))
      × ((account now job c).state ≡ blocked)
unfolding decide
blocked_flow_stays rules now job fp c h k =
    let e : (account now job c).state ≡ blocked =
      account-state now job c h ∙ ap (λ b. if b then closed else blocked) k in
    (ground (arith, e), e)

-- A packet without payload that closes a blocked flow passes when the rules name neither its
-- address nor its port, nor the application and the name of the flow; the flow is then closed.
pub blocked_flow_reopens :
    (r : RuleManager) (now : ℕ) (job : PacketJob) (fp : FastPath) (c : Connection)
    → c.state ≡ blocked
    → closes job c ≡ true
    → job.payload_length ≡ 0
    → should_block r job.tuple.src_ip job.tuple.dst_port
        (account now job c).app_type
        (account now job c).sni
      ≡ none
    → (decide (some r) job fp (account now job c) ≡ ok (forward, fp, account now job c))
      × ((account now job c).state ≡ closed)
unfolding decide check_rules
blocked_flow_reopens r now job fp c h k p q =
    let e : (account now job c).state ≡ closed =
      account-state now job c h ∙ ap (λ b. if b then closed else blocked) k in
    (ground (arith, e, p, q), e)
