-- ===== src/Tracker/Invariant.antt =====
-- Every operation of the tracker keeps its table well formed.
use deep_packet_analyzer.Base.{
  ℕ, zero, suc, ◌+◌, ◌≤◌, ◌<◌, ◌≡◌, ◌≢◌, refl, sym, ap, ◌∙◌, inl, inr, Bool, List, [], ◌∷◌, none,
  some, arith, length, Option-cases, Bool-cases, ltb, ltb-false→le,
}
use deep_packet_analyzer.Tuple.{FiveTuple, tuple_eq_iff, canonical_tuple}
use deep_packet_analyzer.Connection.{Connection, fresh_connection, closed}
use deep_packet_analyzer.Tracker.{
  Tracker, evict_entries, create_connection, get_or_create_connection, close_connection,
  cleanup_stale, is_stale,
}
use deep_packet_analyzer.Tracker.Evict.{oldest-present}
use deep_packet_analyzer.Tracker.Table.{Entry, find, store, insert_at, erase, oldest, retain}
use deep_packet_analyzer.Tracker.Lookup.{
  IsUnique, insert_at-IsUnique, store-IsUnique, erase-IsUnique, retain-IsUnique,
}

-- Each record stands under the canonical form of its own tuple.
abbrev pub IsKeyed : List Entry → Type 0
IsKeyed [] = Unit {0}
IsKeyed ((k, c) ∷ es) = (k ≡ canonical_tuple c.tuple) × IsKeyed es

-- The table holds one record for a flow, under its canonical tuple, and no more than its limit.
pub record IsTable (tr : Tracker) : Type 0 where
  pub unique : IsUnique tr.connections
  pub keyed : IsKeyed tr.connections
  pub bounded : length tr.connections ≤ tr.max_connections

insert_at-IsKeyed :
    (pos : ℕ) (k : FiveTuple) (c : Connection) (es : List Entry)
    → k ≡ canonical_tuple c.tuple
    → IsKeyed es
    → IsKeyed (insert_at pos (k, c) es)
unfolding insert_at
insert_at-IsKeyed zero k c es h b = (h, b)
insert_at-IsKeyed (suc pos) k c [] h b = (h, tt)
insert_at-IsKeyed (suc pos) k c ((i, d) ∷ es) h b = (b.0, insert_at-IsKeyed pos k c es h b.1)

pub store-IsKeyed :
    (k : FiveTuple) (c : Connection) (es : List Entry)
    → k ≡ canonical_tuple c.tuple
    → IsKeyed es
    → IsKeyed (store k c es)
unfolding store
store-IsKeyed k c [] h b = tt
store-IsKeyed k c ((i, d) ∷ es) h b = ground (arith, tuple_eq_iff i k, store-IsKeyed k c es h b.1)

erase-IsKeyed : (k : FiveTuple) (es : List Entry) → IsKeyed es → IsKeyed (erase k es)
unfolding erase
erase-IsKeyed k [] b = tt
erase-IsKeyed k ((i, d) ∷ es) b = ground (arith, erase-IsKeyed k es b.1)

retain-IsKeyed :
    (gone : Connection → Bool) (es : List Entry) → IsKeyed es → IsKeyed (retain gone es).0
unfolding retain
retain-IsKeyed gone [] b = tt
retain-IsKeyed gone ((i, d) ∷ es) b = ground (arith, retain-IsKeyed gone es b.1)

pub IsKeyed-find :
    (es : List Entry) (k : FiveTuple) (c : Connection)
    → IsKeyed es
    → find k es ≡ some c
    → k ≡ canonical_tuple c.tuple
unfolding find
IsKeyed-find [] k c b h = ground arith
IsKeyed-find ((i, d) ∷ es) k c b h = ground (arith, tuple_eq_iff i k, IsKeyed-find es k c b.1)

pub length-insert_at :
    (pos : ℕ) (e : Entry) (es : List Entry) → length (insert_at pos e es) ≡ suc (length es)
unfolding insert_at
length-insert_at zero e es = refl
length-insert_at (suc pos) e [] = refl
length-insert_at (suc pos) e (x ∷ es) = ap suc (length-insert_at pos e es)

pub length-store :
    (k : FiveTuple) (c : Connection) (es : List Entry) → length (store k c es) ≡ length es
unfolding store
length-store k c [] = refl
length-store k c ((i, d) ∷ es) = ground (arith, length-store k c es)

length-erase :
    (k : FiveTuple) (es : List Entry) (c : Connection)
    → find k es ≡ some c
    → suc (length (erase k es)) ≡ length es
unfolding find erase
length-erase k [] c h = ground arith
length-erase k ((i, d) ∷ es) c h = ground (arith, length-erase k es c)

-- What stays and what is counted add up.
pub length-retain :
    (gone : Connection → Bool) (es : List Entry)
    → length (retain gone es).0 + (retain gone es).1 ≡ length es
unfolding retain
length-retain gone [] = omega arith
length-retain gone (e ∷ es) = ground (arith, length-retain gone es)

evict_entries-IsTable :
    (es : List Entry)
    → IsUnique es
    → IsKeyed es
    → es ≢ []
    → IsUnique (evict_entries es)
      × IsKeyed (evict_entries es)
      × (suc (length (evict_entries es)) ≡ length es)
unfolding evict_entries
evict_entries-IsTable [] u b h = absurd (h refl)
evict_entries-IsTable (e ∷ es) u b h =
    let k = (oldest e (e ∷ es)).0 in
    (
      erase-IsUnique k (e ∷ es) u,
      erase-IsKeyed k (e ∷ es) b,
      length-erase k (e ∷ es) (oldest e (e ∷ es)).1 (oldest-present e es u),
    )

length-pos : (es : List Entry) → 0 < length es → es ≢ []
length-pos [] h e = omega arith
length-pos (x ∷ es) h e = cc

create_connection-IsTable :
    (tr : Tracker) (now pos : ℕ) (t : FiveTuple)
    → IsTable tr
    → find (canonical_tuple t) tr.connections ≡ none
    → IsTable (create_connection tr now pos t)
unfolding create_connection
create_connection-IsTable tr now pos t v f =
    let key = canonical_tuple t in
    let conn = fresh_connection t now in
    let added = insert_at pos (key, conn) tr.connections in
    let u : IsUnique added = insert_at-IsUnique pos key conn tr.connections f v.unique in
    let b : IsKeyed added = insert_at-IsKeyed pos key conn tr.connections refl v.keyed in
    let n : length added ≡ suc (length tr.connections) =
      length-insert_at pos (key, conn) tr.connections in
    let (u', b', n') = evict_entries-IsTable added u b (length-pos added (omega arith)) in
    elim (Bool-cases (ltb tr.max_connections (length added))) [
      | inl full ↦ rw full (record {
        unique = u';
        keyed = b';
        bounded = omega (arith, v.bounded, ltb-false→le tr.max_connections (length added));
      })
      | inr room ↦ rw room (record {
        unique = u;
        keyed = b;
        bounded = omega (arith, v.bounded, ltb-false→le tr.max_connections (length added));
      })
    ]

-- `getOrCreateConnection` keeps the table well formed, wherever the new node is placed.
pub get_or_create_connection-IsTable :
    (tr : Tracker) (now pos : ℕ) (t : FiveTuple)
    → IsTable tr
    → IsTable (get_or_create_connection tr now pos t).0
unfolding get_or_create_connection
get_or_create_connection-IsTable tr now pos t v =
    elim (Option-cases (find (canonical_tuple t) tr.connections)) [
      | inl e ↦ rw (e, get_or_create_connection) (create_connection-IsTable tr now pos t v e)
      | inr (c, e) ↦ rw (e, get_or_create_connection) v
    ]

pub store-IsTable :
    (tr : Tracker) (k : FiveTuple) (c d : Connection)
    → IsTable tr
    → find k tr.connections ≡ some d
    → c.tuple ≡ d.tuple
    → IsTable (record tr { connections = store k c tr.connections })
store-IsTable tr k c d v f e = record {
  unique = store-IsUnique k c d tr.connections f v.unique;
  keyed =
      store-IsKeyed k c tr.connections
        (IsKeyed-find tr.connections k d v.keyed f ∙ ap canonical_tuple (sym e)) v.keyed;
  bounded = omega (arith, v.bounded, length-store k c tr.connections);
}

pub close_connection-IsTable :
    (tr : Tracker) (t : FiveTuple) → IsTable tr → IsTable (close_connection tr t)
unfolding close_connection
close_connection-IsTable tr t v = elim (Option-cases (find (canonical_tuple t) tr.connections)) [
  | inl e ↦ rw (e, close_connection) v
  | inr (c, e) ↦
      rw (e, close_connection)
        (store-IsTable tr (canonical_tuple t) (record c { state = closed }) c v e refl)
]

pub cleanup_stale-IsTable :
    (tr : Tracker) (now timeout : ℕ) → IsTable tr → IsTable (cleanup_stale tr now timeout).0
unfolding cleanup_stale
cleanup_stale-IsTable tr now timeout v = record {
  unique = retain-IsUnique (is_stale now timeout) tr.connections v.unique;
  keyed = retain-IsKeyed (is_stale now timeout) tr.connections v.keyed;
  bounded = omega (arith, v.bounded, length-retain (is_stale now timeout) tr.connections);
}
