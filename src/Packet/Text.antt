-- ===== src/Packet/Text.antt =====
-- What the printed packets show of a header: `protocolToString` and `tcpFlagsToString` of
-- src/packet_parser.cpp.
use deep_packet_analyzer.Base.{
  ℕ, ◌≡◌, refl, ap, arith, Bool, true, false, not, ◌&&◌, ◌||◌, List, [], ◌∷◌, ◌++◌, ◌==◌,
  if◌then◌else◌, bit_and, Bytes, codes, show_nat,
}

unfoldable pub protocol_to_string : ℕ → Bytes
protocol_to_string protocol =
    if protocol == 1
    then codes "ICMP"
    else if protocol == 6
    then codes "TCP"
    else if protocol == 17
    then codes "UDP"
    else codes "Unknown(" ++ show_nat protocol ++ codes ")"

abbrev pub is_set : ℕ → ℕ → Bool
is_set flags mask = not (bit_and flags mask == 0)

-- `if (...) result += name`, as what is added.
unfoldable pub added : Bool → Bytes → Bytes
added set name = if set then name else []

unfoldable pub pop_back : Bytes → Bytes
pop_back [] = []
pop_back (c ∷ []) = []
pop_back (c ∷ d ∷ cs) = c ∷ pop_back (d ∷ cs)

unfoldable pub none_if_empty : Bytes → Bytes
none_if_empty [] = codes "none"
none_if_empty (c ∷ cs) = c ∷ cs

unfoldable pub flags_text : Bool → Bool → Bool → Bool → Bool → Bool → Bytes
unfolding added pop_back none_if_empty
flags_text syn ack fin rst psh urg = none_if_empty (
    pop_back (
      added syn (codes "SYN ")
      ++ added ack (codes "ACK ")
      ++ added fin (codes "FIN ")
      ++ added rst (codes "RST ")
      ++ added psh (codes "PSH ")
      ++ added urg (codes "URG ")))

unfoldable pub tcp_flags_to_string : ℕ → Bytes
unfolding flags_text
tcp_flags_to_string flags =
    flags_text (is_set flags 2) (is_set flags 16) (is_set flags 1) (is_set flags 4) (is_set flags 8)
      (is_set flags 32)

-- Whether a text stands in another one.
pub starts : Bytes → Bytes → Bool
starts [] text = true
starts (c ∷ cs) [] = false
starts (c ∷ cs) (d ∷ ds) = (c == d) && starts cs ds

pub occurs : Bytes → Bytes → Bool
unfolding starts
occurs name [] = starts name []
occurs name (d ∷ ds) = starts name (d ∷ ds) || occurs name ds

-- The flags whose names stand in a text.
pub named_flags : Bytes → List Bool
unfolding occurs
named_flags text =
    occurs (codes "SYN") text
    ∷ occurs (codes "ACK") text
    ∷ occurs (codes "FIN") text
    ∷ occurs (codes "RST") text
    ∷ occurs (codes "PSH") text
    ∷ occurs (codes "URG") text
    ∷ []

-- Equality of lists of Booleans as a test.
same : List Bool → List Bool → Bool
same [] [] = true
same [] (b ∷ bs) = false
same (a ∷ cs) [] = false
same (a ∷ cs) (b ∷ bs) = (if a then b else not b) && same cs bs

same-eq : (cs bs : List Bool) → same cs bs ≡ true → cs ≡ bs
unfolding same
same-eq [] [] h = refl
same-eq [] (b ∷ bs) h = ground (arith, h)
same-eq (a ∷ cs) [] h = ground (arith, h)
same-eq (true ∷ cs) (true ∷ bs) h = ap (λ ds. true ∷ ds) (same-eq cs bs h)
same-eq (true ∷ cs) (false ∷ bs) h = ground (arith, h)
same-eq (false ∷ cs) (true ∷ bs) h = ground (arith, h)
same-eq (false ∷ cs) (false ∷ bs) h = ap (λ ds. false ∷ ds) (same-eq cs bs h)

every : (Bool → Bool) → Bool
every p = p true && p false

every-holds : (p : Bool → Bool) → every p ≡ true → (b : Bool) → p b ≡ true
unfolding every
every-holds p h true = ground (arith, h)
every-holds p h false = ground (arith, h)

is_read : Bool → Bool → Bool → Bool → Bool → Bool → Bool
unfolding same named_flags flags_text
is_read s a f r p u = same (named_flags (flags_text s a f r p u)) (s ∷ a ∷ f ∷ r ∷ p ∷ u ∷ [])

every_flag :
    every
      (λ s. every (λ a. every (λ f. every (λ r. every (λ p. every (λ u. is_read s a f r p u))))))
    ≡ true
unfolding every is_read
every_flag = refl

-- The text of a byte of flags names each of the six flags exactly if its bit is set.
pub named_flags-tcp_flags_to_string :
    (flags : ℕ)
    → named_flags (tcp_flags_to_string flags)
      ≡ is_set flags 2
        ∷ is_set flags 16
        ∷ is_set flags 1
        ∷ is_set flags 4
        ∷ is_set flags 8
        ∷ is_set flags 32
        ∷ []
unfolding tcp_flags_to_string is_read
named_flags-tcp_flags_to_string flags =
    let h1 = every-holds _ every_flag (is_set flags 2) in
    let h2 = every-holds _ h1 (is_set flags 16) in
    let h3 = every-holds _ h2 (is_set flags 1) in
    let h4 = every-holds _ h3 (is_set flags 4) in
    let h5 = every-holds _ h4 (is_set flags 8) in same-eq _ _ (every-holds _ h5 (is_set flags 32))
