-- ===== src/Tracker/Pointer.antt =====
-- Whether the pointer that `getOrCreateConnection` returns still names a record.
use native.Mathlib.Nat.{le_refl}
use deep_packet_analyzer.Base.{
  ℕ, zero, suc, ◌≤◌, ◌<◌, ◌≡◌, ◌≢◌, refl, ap, ◌∙◌, inl, inr, false, [], ◌∷◌, Option, none, some,
  if◌then◌else◌, arith, length, Option-cases, Bool-cases, ltb, ltb→lt, lt→ltb, le→ltb-false, All,
  List,
}
use deep_packet_analyzer.Tuple.{FiveTuple, reverse, tuple_eq, tuple_eq_iff, canonical_tuple}
use deep_packet_analyzer.Tuple.Canonical.{canonical_tuple-reverse}
use deep_packet_analyzer.Connection.{Connection, fresh_connection}
use deep_packet_analyzer.Tracker.{
  Tracker, evict_entries, create_connection, get_or_create_connection, get_connection,
}
use deep_packet_analyzer.Tracker.Table.{Entry, find, insert_at, erase, oldest}
use deep_packet_analyzer.Tracker.Lookup.{IsUnique, find-insert_at, insert_at-IsUnique}
use deep_packet_analyzer.Tracker.Evict.{Victim, evict_entries-Victim, find-head}
use deep_packet_analyzer.Tracker.Invariant.{IsTable, length-insert_at}

-- Both directions of a flow find one record.
pub get_connection-reverse :
    (tr : Tracker) (t : FiveTuple) → get_connection tr (reverse t) ≡ get_connection tr t
unfolding get_connection
get_connection-reverse tr t = ap (λ k. find k tr.connections) (canonical_tuple-reverse t)

insert_at-ne-nil : (pos : ℕ) (e : Entry) (es : List Entry) → insert_at pos e es ≢ []
unfolding insert_at
insert_at-ne-nil zero e es h = cc
insert_at-ne-nil (suc pos) e [] h = cc
insert_at-ne-nil (suc pos) e (x ∷ es) h = cc

module _ (pos : ℕ) (key : FiveTuple) (conn : Connection) (es : List Entry) (unique : IsUnique es)
    (fresh : find key es ≡ none) where
  abbrev added : List Entry
  added = insert_at pos (key, conn) es

  find-added : (k : FiveTuple) → find k added ≡ (if tuple_eq key k then some conn else find k es)
  find-added k = find-insert_at pos key k conn es fresh

  -- Another record, seen strictly earlier, is there to be evicted.
  Victim-ne-added :
      (k : FiveTuple) (c : Connection)
      → find k es ≡ some c
      → c.last_seen < conn.last_seen
      → (v : Victim added (evict_entries added)) → tuple_eq v.key key ≡ false
  Victim-ne-added k c f old v = ground (
    arith,
    find-added k,
    find-added v.key,
    tuple_eq_iff key k,
    tuple_eq_iff v.key key,
    tuple_eq_iff key v.key,
    v.present,
    v.least k c,
    fresh,
  )

  evict-survives :
      (k : FiveTuple) (c : Connection)
      → find k es ≡ some c
      → c.last_seen < conn.last_seen
      → find key (evict_entries added) ≡ some conn
  evict-survives k c f old =
      let v =
        evict_entries-Victim added (insert_at-IsUnique pos key conn es fresh unique)
          (insert_at-ne-nil pos (key, conn) es) in
      v.removed key
      ∙ rw (Victim-ne-added k c f old v) (find-added key ∙ rw ((tuple_eq_iff key key).1 refl))

nonempty-find :
    (es : List Entry) → 0 < length es → (k : FiveTuple) × (c : Connection) × (find k es ≡ some c)
nonempty-find [] h = absurd (omega arith)
nonempty-find ((k, c) ∷ es) h = (k, c, find-head k c es)

create_connection-valid :
    (tr : Tracker) (now pos : ℕ) (t : FiveTuple)
    → IsTable tr
    → 1 ≤ tr.max_connections
    → ((k : FiveTuple) (c : Connection) → find k tr.connections ≡ some c → c.last_seen < now)
    → find (canonical_tuple t) tr.connections ≡ none
    → find (canonical_tuple t) (create_connection tr now pos t).connections
      ≡ some (fresh_connection t now)
unfolding create_connection
create_connection-valid tr now pos t v room old e =
    let key = canonical_tuple t in
    let conn = fresh_connection t now in
    let es = insert_at pos (key, conn) tr.connections in
    elim (Bool-cases (ltb tr.max_connections (length es))) [
      | inl full ↦
          let (k, c, f) = nonempty-find tr.connections (
            omega (
              arith,
              ltb→lt tr.max_connections (length es),
              length-insert_at pos (key, conn) tr.connections,
            )) in
          rw full (evict-survives pos key conn tr.connections v.unique e k c f (old k c f))
      | inr fits ↦
          rw fits
            (find-insert_at pos key key conn tr.connections e ∙ rw ((tuple_eq_iff key key).1 refl))
    ]

-- What the pointer names: the record that was there, or a new one.
abbrev pub found_or : Option Connection → Connection → Connection
found_or none c = c
found_or (some c) d = c

-- If the table has room for one record at least and every record in it was last seen before now,
-- then the pointer that `getOrCreateConnection` returns names the flow's record: the one that was
-- there, or else a fresh one.
pub get_or_create_connection-valid :
    (tr : Tracker) (now pos : ℕ) (t : FiveTuple)
    → IsTable tr
    → 1 ≤ tr.max_connections
    → ((k : FiveTuple) (c : Connection) → find k tr.connections ≡ some c → c.last_seen < now)
    → find
        (get_or_create_connection tr now pos t).1
        (get_or_create_connection tr now pos t).0.connections
      ≡ some (found_or (get_connection tr t) (fresh_connection t now))
unfolding get_or_create_connection get_connection
get_or_create_connection-valid tr now pos t v room old =
    elim (Option-cases (find (canonical_tuple t) tr.connections)) [
      | inl e ↦ rw (e, get_or_create_connection) (create_connection-valid tr now pos t v room old e)
      | inr (c, e) ↦ rw (e, get_or_create_connection, get_connection) e
    ]

oldest-stays :
    (b : Entry) (es : List Entry)
    → All (λ (e : Entry). b.1.last_seen ≤ e.1.last_seen) es
    → oldest b es ≡ b
unfolding oldest
oldest-stays b [] h = refl
oldest-stays b (e ∷ es) h =
    rw (le→ltb-false e.1.last_seen b.1.last_seen h.0) (oldest-stays b es h.1)

evicts_itself :
    (key : FiveTuple) (conn : Connection) (es : List Entry)
    → find key es ≡ none
    → All (λ (e : Entry). conn.last_seen ≤ e.1.last_seen) es
    → find key (evict_entries ((key, conn) ∷ es)) ≡ none
unfolding evict_entries
evicts_itself key conn es e h =
    rw (oldest-stays (key, conn) ((key, conn) ∷ es) (le_refl conn.last_seen, h))
      (unfold erase in rw ((tuple_eq_iff key key).1 refl) e)

-- A new flow that the hash table puts first in a full table, where no record was seen before the
-- present tick of the clock, is evicted by its own insertion: the pointer returned names nothing.
pub get_or_create_connection_dangles :
    (tr : Tracker) (now : ℕ) (t : FiveTuple)
    → find (canonical_tuple t) tr.connections ≡ none
    → tr.max_connections ≤ length tr.connections
    → All (λ (e : Entry). now ≤ e.1.last_seen) tr.connections
    → find
        (get_or_create_connection tr now 0 t).1
        (get_or_create_connection tr now 0 t).0.connections
      ≡ none
unfolding get_or_create_connection insert_at
get_or_create_connection_dangles tr now t e full h =
    rw
      (
        e,
        get_or_create_connection,
        lt→ltb tr.max_connections (suc (length tr.connections)) (omega arith),
      )
      (evicts_itself (canonical_tuple t) (fresh_connection t now) tr.connections e h)
