-- ===== src/Tracker/Evict.antt =====
-- Eviction takes the least recently seen connection and nothing else.
use deep_packet_analyzer.Base.{
  ltb, ◌≤◌, ◌≡◌, ◌≢◌, refl, ◌⊎◌, inl, inr, List, [], ◌∷◌, none, some, if◌then◌else◌, arith,
}
use deep_packet_analyzer.Tuple.{FiveTuple, tuple_eq, tuple_eq_iff}
use deep_packet_analyzer.Connection.{Connection}
use deep_packet_analyzer.Tracker.{Tracker, evict_oldest, evict_entries}
use deep_packet_analyzer.Tracker.Table.{Entry, find, oldest}
use deep_packet_analyzer.Tracker.Lookup.{IsUnique, find-erase}

oldest-cases :
    (b : Entry) (es : List Entry)
    → IsUnique es
    → (oldest b es ≡ b) ⊎ (find (oldest b es).0 es ≡ some (oldest b es).1)
unfolding oldest find
oldest-cases b [] u = inl refl
oldest-cases (j, d) ((i, c) ∷ es) u = ground (
  arith,
  oldest-cases (if ltb c.last_seen d.last_seen then (i, c) else (j, d)) es u.1,
  tuple_eq_iff i i,
  tuple_eq_iff i (oldest (if ltb c.last_seen d.last_seen then (i, c) else (j, d)) es).0,
)

oldest-le-best : (b : Entry) (es : List Entry) → (oldest b es).1.last_seen ≤ b.1.last_seen
unfolding oldest
oldest-le-best b [] = omega arith
oldest-le-best (j, d) ((i, c) ∷ es) =
    ground (arith, oldest-le-best (if ltb c.last_seen d.last_seen then (i, c) else (j, d)) es)

oldest-le :
    (b : Entry) (es : List Entry) (k : FiveTuple) (d : Connection)
    → find k es ≡ some d
    → (oldest b es).1.last_seen ≤ d.last_seen
unfolding oldest find
oldest-le b [] k d h = ground arith
oldest-le (j, b) ((i, c) ∷ es) k d h = ground (
  arith,
  oldest-le (if ltb c.last_seen b.last_seen then (i, c) else (j, b)) es k d,
  oldest-le-best (if ltb c.last_seen b.last_seen then (i, c) else (j, b)) es,
)

pub find-head : (i : FiveTuple) (c : Connection) (es : List Entry) → find i ((i, c) ∷ es) ≡ some c
unfolding find
find-head i c es = ground (arith, tuple_eq_iff i i)

pub oldest-present :
    (e : Entry) (es : List Entry)
    → IsUnique (e ∷ es)
    → find (oldest e (e ∷ es)).0 (e ∷ es) ≡ some (oldest e (e ∷ es)).1
oldest-present (i, c) es u = elim (oldest-cases (i, c) ((i, c) ∷ es) u) [
  | inl e ↦ rw e (find-head i c es)
  | inr f ↦ f
]

-- The key and the record that `evictOldest` erases from a table that is not empty.
pub record Victim (es rest : List Entry) : Type 0 where
  pub key : FiveTuple
  pub conn : Connection
  pub present : find key es ≡ some conn
  pub least : (j : FiveTuple) (d : Connection) → find j es ≡ some d → conn.last_seen ≤ d.last_seen
  pub removed : (j : FiveTuple) → find j rest ≡ (if tuple_eq key j then none else find j es)

pub evict_entries-Victim : (es : List Entry) → IsUnique es → es ≢ [] → Victim es (evict_entries es)
unfolding evict_entries
evict_entries-Victim [] u h = absurd (h refl)
evict_entries-Victim ((i, c) ∷ es) u h = record {
  key = (oldest (i, c) ((i, c) ∷ es)).0;
  conn = (oldest (i, c) ((i, c) ∷ es)).1;
  present = oldest-present (i, c) es u;
  least = λ j d f. oldest-le (i, c) ((i, c) ∷ es) j d f;
  removed = λ j. find-erase (oldest (i, c) ((i, c) ∷ es)).0 j ((i, c) ∷ es) u;
}

-- `evictOldest` on a table that is not empty erases exactly one record, and none that stays was
-- seen before it.
pub evict_oldest-removes_least :
    (tr : Tracker)
    → IsUnique tr.connections
    → tr.connections ≢ []
    → (k : FiveTuple) × (c : Connection) × (find k tr.connections ≡ some c)
      × ((j : FiveTuple) (d : Connection)
          → find j tr.connections ≡ some d
          → c.last_seen ≤ d.last_seen)
      × ((j : FiveTuple)
          → find j (evict_oldest tr).connections
            ≡ (if tuple_eq k j then none else find j tr.connections))
unfolding evict_oldest
evict_oldest-removes_least tr u h =
    let v = evict_entries-Victim tr.connections u h in
    (v.key, v.conn, v.present, v.least, v.removed)
