-- ===== src/Tracker/Cleanup.antt =====
-- `cleanupStale` against a lookup.
use deep_packet_analyzer.Base.{
  ℕ, ◌+◌, ◌-◌, ◌/◌, ◌^◌, ◌≤◌, ◌≡◌, ◌≢◌, ◌↔◌, inl, inr, ap, subst, false, length, Option, none, some,
  arith, Bool-cases,
}
use deep_packet_analyzer.Tuple.{FiveTuple}
use deep_packet_analyzer.Connection.{
  Connection, ConnectionState, new, established, classified, blocked, closed, is_closed,
}
use deep_packet_analyzer.Tracker.{Tracker, cleanup_stale, is_stale}
use deep_packet_analyzer.Tracker.Table.{find}
use deep_packet_analyzer.Tracker.Lookup.{find-retain, unless}
use deep_packet_analyzer.Tracker.Invariant.{IsTable, length-retain}

-- The connection is not closed, and its age in whole seconds is within the timeout.
abbrev pub IsFresh : ℕ → ℕ → Connection → Type 0
IsFresh now timeout c = (c.state ≢ closed) × ((now - c.last_seen) / 10 ^ 9 ≤ timeout)

is_closed-false_iff : (s : ConnectionState) → (is_closed s ≡ false) ↔ (s ≢ closed)
is_closed-false_iff new = ground arith
is_closed-false_iff established = ground arith
is_closed-false_iff classified = ground arith
is_closed-false_iff blocked = ground arith
is_closed-false_iff closed = ground arith

is_stale-false_iff :
    (now timeout : ℕ) (c : Connection) → (is_stale now timeout c ≡ false) ↔ IsFresh now timeout c
unfolding is_stale
is_stale-false_iff now timeout c = ground (arith, is_closed-false_iff c.state)

found_or_first : Connection → Option Connection → Connection
found_or_first d none = d
found_or_first d (some c) = c

found-eq : (d c : Connection) → some d ≡ some c → d ≡ c
unfolding found_or_first
found-eq d c e = ap (found_or_first d) e

unless-some_iff :
    (now timeout : ℕ) (o : Option Connection) (c : Connection)
    → (unless (is_stale now timeout) o ≡ some c) ↔ ((o ≡ some c) × IsFresh now timeout c)
unless-some_iff now timeout none c = ground arith
unless-some_iff now timeout (some d) c = elim (Bool-cases (is_stale now timeout d)) [
  | inl stale ↦ rw stale (
    (λ e. absurd (ground (arith, e))),
    λ w. absurd (ground (arith, stale, w.0, is_stale-false_iff now timeout c, w.1)),
  )
  | inr kept ↦ rw kept (
    (λ e. (
      e,
      subst (IsFresh now timeout) (found-eq d c e) ((is_stale-false_iff now timeout d).0 kept),
    )),
    λ w. w.0,
  )
]

-- `cleanupStale` on a well-formed table: a lookup afterwards finds a record exactly if it found
-- that record before, the record's connection is not closed, and its age in whole seconds is within
-- the timeout. The result is the number of records removed.
pub cleanup_stale_lem :
    (tr : Tracker) (now timeout : ℕ)
    → IsTable tr
    → ((k : FiveTuple) (c : Connection)
        → (find k (cleanup_stale tr now timeout).0.connections ≡ some c)
          ↔ ((find k tr.connections ≡ some c) × IsFresh now timeout c))
      × (length (cleanup_stale tr now timeout).0.connections + (cleanup_stale tr now timeout).1
          ≡ length tr.connections)
unfolding cleanup_stale
cleanup_stale_lem tr now timeout v = (
  λ k c.
      rw (find-retain (is_stale now timeout) k tr.connections v.unique)
        (unless-some_iff now timeout (find k tr.connections) c),
  length-retain (is_stale now timeout) tr.connections,
)
