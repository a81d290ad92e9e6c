-- ===== src/Extract/Dns/Query.antt =====
-- What the query extractor reads.
use deep_packet_analyzer.Base.{
  ℕ, zero, suc, ◌+◌, ◌*◌, ◌≤◌, ◌<◌, ◌≡◌, ◌≢◌, sym, ap, ◌∙◌, true, List, [], ◌∷◌, ◌++◌, append_assoc,
  append-nil, some, arith, ltb, ltb-false→le, length, length-append, length-drop, take, drop,
  take-length-append, drop-length-append, All, Bytes, byte_at, byte_at-lt, bit_and, ok, Succeeds,
  Ends, Ends-Succeeds, Bool-cases, inl, inr,
}
use deep_packet_analyzer.Base.Bits.{bit_or_bytes}
use deep_packet_analyzer.Extract.Dns.{is_dns_query, with_dot, labels, extract_query}

is_dns_query-Ends : (p : Bytes) → Ends (is_dns_query p)
unfolding is_dns_query
is_dns_query-Ends p = elim (Bool-cases (ltb (length p) 12)) [
  | inl short ↦ rw short tt
  | inr long ↦
      let n : 12 ≤ length p = ltb-false→le (length p) 12 long in
      let (b2, e2) = byte_at-lt p 2 (omega arith) in
      let (b4, e4) = byte_at-lt p 4 (omega arith) in
      let (b5, e5) = byte_at-lt p 5 (omega arith) in ground (arith, e2, e4, e5)
]

labels-Ends : (fuel : ℕ) (domain rest : Bytes) → length rest < fuel → Ends (labels fuel domain rest)
unfolding labels
labels-Ends zero domain rest h = absurd (omega arith)
labels-Ends (suc fuel) domain [] h = tt
labels-Ends (suc fuel) domain (n ∷ rest) h =
    ground
      (arith, length-drop n rest, labels-Ends fuel (with_dot domain ++ take n rest) (drop n rest))

-- On every payload `DNSExtractor::extractQuery` returns: its loop ends, and it reads nothing past
-- the end of the payload.
pub extract_query-Succeeds : (p : Bytes) → Succeeds (extract_query p)
unfolding extract_query
extract_query-Succeeds p =
    let (query, e) = Ends-Succeeds _ (is_dns_query-Ends p) in
    let (domain, f) =
      Ends-Succeeds _
        (labels-Ends (suc (length p)) [] (drop 12 p) (omega (arith, length-drop 12 p))) in
    Ends-Succeeds _ (ground (arith, e, f))

-- A label is written behind its length; a name ends in an empty label.
abbrev pub IsLabel : Bytes → Type 0
IsLabel l = (0 < length l) × (length l ≤ 63)

abbrev pub name_bytes : List Bytes → Bytes → Bytes
name_bytes [] rest = 0 ∷ rest
name_bytes (l ∷ ls) rest = length l ∷ (l ++ name_bytes ls rest)

-- The labels behind the first, each behind a dot.
abbrev pub dot_tails : List Bytes → Bytes
dot_tails [] = []
dot_tails (l ∷ ls) = b'.' ∷ (l ++ dot_tails ls)

-- The labels joined by dots.
abbrev pub joined : List Bytes → Bytes
joined [] = []
joined (l ∷ ls) = l ++ dot_tails ls

labels_step :
    (fuel : ℕ) (domain l rest : Bytes)
    → IsLabel l
    → labels (suc fuel) domain (length l ∷ (l ++ rest)) ≡ labels fuel (with_dot domain ++ l) rest
unfolding labels
labels_step fuel domain l rest h =
    ground (arith, take-length-append l rest, drop-length-append l rest, length-append l rest)

-- Behind a name that is not empty, each label comes with its dot.
labels_tail :
    (ls : List Bytes) (fuel c : ℕ) (cs rest : Bytes)
    → All IsLabel ls
    → length ls < fuel
    → labels fuel (c ∷ cs) (name_bytes ls rest) ≡ ok ((c ∷ cs) ++ dot_tails ls)
unfolding labels
labels_tail ls zero c cs rest h f = absurd (omega arith)
labels_tail [] (suc fuel) c cs rest h f = ap ok (sym (append-nil (c ∷ cs)))
labels_tail (l ∷ ls) (suc fuel) c cs rest h f =
    labels_step fuel (c ∷ cs) l (name_bytes ls rest) h.0
    ∙ labels_tail ls fuel c ((cs ++ (b'.' ∷ [])) ++ l) rest h.1 (omega arith)
    ∙ ap (λ (t : Bytes). ok (c ∷ t)) (simp append_assoc)

labels-name_bytes :
    (l : Bytes) (ls : List Bytes) (fuel : ℕ) (rest : Bytes)
    → All IsLabel (l ∷ ls)
    → length (l ∷ ls) < fuel
    → labels fuel [] (name_bytes (l ∷ ls) rest) ≡ ok (joined (l ∷ ls))
unfolding labels
labels-name_bytes l ls zero rest h f = absurd (omega arith)
labels-name_bytes [] ls (suc fuel) rest h f = absurd (omega (arith, h.0.0))
labels-name_bytes (c ∷ cs) ls (suc fuel) rest h f =
    labels_step fuel [] (c ∷ cs) (name_bytes ls rest) h.0
    ∙ labels_tail ls fuel c cs rest h.1 (omega arith)

length-name_bytes : (ls : List Bytes) (rest : Bytes) → length ls < length (name_bytes ls rest)
length-name_bytes [] rest = omega arith
length-name_bytes (l ∷ ls) rest =
    omega (arith, length-append l (name_bytes ls rest), length-name_bytes ls rest)

query_passes :
    (i0 i1 flags f1 hi lo a0 a1 n0 n1 r0 r1 : ℕ) (rest : Bytes)
    → bit_and flags 0x80 ≡ 0
    → lo < 256
    → hi * 256 + lo ≢ 0
    → is_dns_query (i0 ∷ i1 ∷ flags ∷ f1 ∷ hi ∷ lo ∷ a0 ∷ a1 ∷ n0 ∷ n1 ∷ r0 ∷ r1 ∷ rest) ≡ ok true
unfolding is_dns_query byte_at
query_passes i0 i1 flags f1 hi lo a0 a1 n0 n1 r0 r1 rest q b ne =
    ground (arith, bit_or_bytes hi lo b)

-- A DNS message with the response bit clear, a question count other than 0, and a name of one or
-- more labels of 1 to 63 bytes behind its header gives the labels joined by dots, whatever follows.
pub extract_query-name_bytes :
    (i0 i1 flags f1 hi lo a0 a1 n0 n1 r0 r1 : ℕ) (l : Bytes) (ls : List Bytes) (rest : Bytes)
    → bit_and flags 0x80 ≡ 0
    → lo < 256
    → hi * 256 + lo ≢ 0
    → All IsLabel (l ∷ ls)
    → extract_query
        (i0 ∷ i1 ∷ flags ∷ f1 ∷ hi ∷ lo ∷ a0 ∷ a1 ∷ n0 ∷ n1 ∷ r0 ∷ r1 ∷ name_bytes (l ∷ ls) rest)
      ≡ ok (some (joined (l ∷ ls)))
extract_query-name_bytes i0 i1 flags f1 hi lo a0 a1 n0 n1 r0 r1 [] ls rest q b ne h =
    absurd (omega (arith, h.0.0))
extract_query-name_bytes i0 i1 flags f1 hi lo a0 a1 n0 n1 r0 r1 (c ∷ cs) ls rest q b ne h =
    unfold extract_query in
    rw (
      query_passes i0 i1 flags f1 hi lo a0 a1 n0 n1 r0 r1 (name_bytes ((c ∷ cs) ∷ ls) rest) q b ne,
      labels-name_bytes (c ∷ cs) ls
          (suc (
            suc (
              suc (
                suc (
                  suc (
                    suc (
                      suc (
                        suc (
                          suc (
                            suc
                              (suc (suc (suc (length (name_bytes ((c ∷ cs) ∷ ls) rest)))))))))))))))
          rest h (omega (arith, length-name_bytes ((c ∷ cs) ∷ ls) rest)),
    )
