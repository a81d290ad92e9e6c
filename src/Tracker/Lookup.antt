-- ===== src/Tracker/Lookup.antt =====
-- What a lookup sees after each change of the table, while no key stands twice.
use deep_packet_analyzer.Base.{
  ℕ, zero, suc, ◌≡◌, refl, Bool, List, [], ◌∷◌, Option, none, some, if◌then◌else◌, arith,
}
use deep_packet_analyzer.Tuple.{FiveTuple, tuple_eq, tuple_eq_iff}
use deep_packet_analyzer.Connection.{Connection}
use deep_packet_analyzer.Tracker.Table.{Entry, find, store, insert_at, erase, retain}

-- One node for a key.
abbrev pub IsUnique : List Entry → Type 0
IsUnique [] = Unit {0}
IsUnique ((j, c) ∷ es) = (find j es ≡ none) × IsUnique es

pub find-insert_at :
    (pos : ℕ) (j k : FiveTuple) (c : Connection) (es : List Entry)
    → find j es ≡ none
    → find k (insert_at pos (j, c) es) ≡ (if tuple_eq j k then some c else find k es)
unfolding find insert_at
find-insert_at zero j k c es h = refl
find-insert_at (suc pos) j k c [] h = refl
find-insert_at (suc pos) j k c ((i, d) ∷ es) h =
    ground
      (arith, tuple_eq_iff i k, tuple_eq_iff j k, tuple_eq_iff i j, find-insert_at pos j k c es)

pub find-store :
    (j k : FiveTuple) (c d : Connection) (es : List Entry)
    → find j es ≡ some d
    → find k (store j c es) ≡ (if tuple_eq j k then some c else find k es)
unfolding find store
find-store j k c d [] h = ground arith
find-store j k c d ((i, b) ∷ es) h =
    ground (arith, tuple_eq_iff i k, tuple_eq_iff j k, tuple_eq_iff i j, find-store j k c d es)

pub find-erase :
    (j k : FiveTuple) (es : List Entry)
    → IsUnique es
    → find k (erase j es) ≡ (if tuple_eq j k then none else find k es)
unfolding find erase
find-erase j k [] u = ground arith
find-erase j k ((i, c) ∷ es) u =
    ground (arith, tuple_eq_iff i k, tuple_eq_iff j k, tuple_eq_iff i j, find-erase j k es u.1)

-- What stays of a lookup when the records with a property go.
abbrev pub unless : (Connection → Bool) → Option Connection → Option Connection
unless gone none = none
unless gone (some c) = if gone c then none else some c

pub find-retain :
    (gone : Connection → Bool) (k : FiveTuple) (es : List Entry)
    → IsUnique es
    → find k (retain gone es).0 ≡ unless gone (find k es)
unfolding find retain
find-retain gone k [] u = refl
find-retain gone k ((i, c) ∷ es) u = ground (arith, tuple_eq_iff i k, find-retain gone k es u.1)

pub insert_at-IsUnique :
    (pos : ℕ) (j : FiveTuple) (c : Connection) (es : List Entry)
    → find j es ≡ none
    → IsUnique es
    → IsUnique (insert_at pos (j, c) es)
unfolding find insert_at
insert_at-IsUnique zero j c es h u = (h, u)
insert_at-IsUnique (suc pos) j c [] h u = (refl, tt)
insert_at-IsUnique (suc pos) j c ((i, d) ∷ es) h u = ground (
  arith,
  tuple_eq_iff i j,
  tuple_eq_iff j i,
  find-insert_at pos j i c es,
  insert_at-IsUnique pos j c es,
)

pub store-IsUnique :
    (j : FiveTuple) (c d : Connection) (es : List Entry)
    → find j es ≡ some d
    → IsUnique es
    → IsUnique (store j c es)
unfolding find store
store-IsUnique j c d [] h u = tt
store-IsUnique j c d ((i, b) ∷ es) h u =
    ground
      (arith, tuple_eq_iff i j, tuple_eq_iff j i, find-store j i c d es, store-IsUnique j c d es)

pub erase-IsUnique : (j : FiveTuple) (es : List Entry) → IsUnique es → IsUnique (erase j es)
unfolding find erase
erase-IsUnique j [] u = tt
erase-IsUnique j ((i, c) ∷ es) u =
    ground
      (arith, tuple_eq_iff i j, tuple_eq_iff j i, find-erase j i es u.1, erase-IsUnique j es u.1)

pub retain-IsUnique :
    (gone : Connection → Bool) (es : List Entry) → IsUnique es → IsUnique (retain gone es).0
unfolding find retain
retain-IsUnique gone [] u = tt
retain-IsUnique gone ((i, c) ∷ es) u =
    ground (arith, find-retain gone i es u.1, retain-IsUnique gone es u.1)
