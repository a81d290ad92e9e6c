-- ===== src/Tracker/Table.antt =====
-- std::unordered_map<FiveTuple, Connection>: the nodes in the order of iteration, with one node
-- for a key.
use deep_packet_analyzer.Base.{
  ℕ, zero, suc, ◌+◌, Bool, List, [], ◌∷◌, Option, none, some, ltb, if◌then◌else◌,
}
use deep_packet_analyzer.Tuple.{FiveTuple, tuple_eq}
use deep_packet_analyzer.Connection.{Connection}

abbrev pub Entry : Type 0
Entry = FiveTuple × Connection

unfoldable pub find : FiveTuple → List Entry → Option Connection
find k [] = none
find k ((j, c) ∷ es) = if tuple_eq j k then some c else find k es

-- A write through a pointer to the node of `k`.
unfoldable pub store : FiveTuple → Connection → List Entry → List Entry
store k c [] = []
store k c ((j, d) ∷ es) = if tuple_eq j k then (j, c) ∷ es else (j, d) ∷ store k c es

-- A new node, at place `pos` of the order or at its end.
unfoldable pub insert_at : ℕ → Entry → List Entry → List Entry
insert_at zero e es = e ∷ es
insert_at (suc pos) e [] = e ∷ []
insert_at (suc pos) e (x ∷ es) = x ∷ insert_at pos e es

unfoldable pub erase : FiveTuple → List Entry → List Entry
erase k [] = []
erase k ((j, c) ∷ es) = if tuple_eq j k then es else (j, c) ∷ erase k es

-- The loop of `evictOldest`: the first of the nodes with the least `last_seen`.
unfoldable pub oldest : Entry → List Entry → Entry
oldest best [] = best
oldest best (e ∷ es) = oldest (if ltb e.1.last_seen best.1.last_seen then e else best) es

-- The loop of `cleanupStale`: the nodes that stay, and the number of those erased.
unfoldable pub retain : (Connection → Bool) → List Entry → List Entry × ℕ
retain gone [] = ([], 0)
retain gone (e ∷ es) =
    let rest = retain gone es in if gone e.1 then (rest.0, rest.1 + 1) else (e ∷ rest.0, rest.1)
