-- ===== src/Extract/Http/Host.antt =====
-- What the Host extractor reads.
use deep_packet_analyzer.Base.{
  ℕ, ◌≤◌, ◌<◌, ◌≡◌, ◌≢◌, ◌⊎◌, refl, ap, ◌∙◌, true, false, [], ◌∷◌, ◌++◌, Option, some, arith, ltb,
  ltb→lt, lt→ltb, map, to_lower, append-nil, length, length-append, drop, All, Bytes, codes,
  byte_at, byte_at-lt, Result, ok, Succeeds, Ends, Ends-Succeeds, Bool-cases, inl, inr,
}
use deep_packet_analyzer.Extract.Http.{
  is_http_request, is_host_header, skip_blanks, take_line, before_colon, host_or, scan_headers,
  extract,
}

is_host_header-Ends : (s : Bytes) → 5 ≤ length s → Ends (is_host_header s)
unfolding is_host_header
is_host_header-Ends s n =
    let (b0, e0) = byte_at-lt s 0 (omega arith) in
    let (b1, e1) = byte_at-lt s 1 (omega arith) in
    let (b2, e2) = byte_at-lt s 2 (omega arith) in
    let (b3, e3) = byte_at-lt s 3 (omega arith) in
    let (b4, e4) = byte_at-lt s 4 (omega arith) in ground (arith, e0, e1, e2, e3, e4)

host_or-Ends : (h : Bytes) (r : Result (Option Bytes)) → Ends r → Ends (host_or h r)
unfolding host_or
host_or-Ends [] r e = e
host_or-Ends (c ∷ cs) r e = tt

scan_headers-Ends : (s : Bytes) → Ends (scan_headers s)
unfolding scan_headers
scan_headers-Ends [] = tt
scan_headers-Ends (c ∷ cs) = elim (Bool-cases (ltb 6 (length (c ∷ cs)))) [
  | inr short ↦ rw short tt
  | inl long ↦
      let (found, e) =
        Ends-Succeeds _
          (is_host_header-Ends (c ∷ cs) (omega (arith, ltb→lt 6 (length (c ∷ cs)) long))) in
      ground (
        arith,
        e,
        scan_headers-Ends cs,
        host_or-Ends (take_line (skip_blanks (drop 5 (c ∷ cs)))) (scan_headers cs),
      )
]

-- On every payload `HTTPHostExtractor::extract` returns, and reads nothing past its end.
pub http_extract-Succeeds : (p : Bytes) → Succeeds (extract p)
unfolding extract
http_extract-Succeeds p = Ends-Succeeds _ (ground (arith, scan_headers-Ends p))

-- None of the positions of `pre` is taken for the header, with `rest` behind it.
abbrev pub NoHeader : Bytes → Bytes → Type 0
NoHeader [] rest = Unit {0}
NoHeader (c ∷ cs) rest = (is_host_header (c ∷ (cs ++ rest)) ≡ ok false) × NoHeader cs rest

-- A byte of a host name: no blank, no end of line, no colon.
abbrev pub IsHostByte : ℕ → Type 0
IsHostByte c = (c ≢ b' ') × (c ≢ b'\t') × (c ≢ b'\r') × (c ≢ b'\n') × (c ≢ b':')

scan_headers-skip :
    (pre rest : Bytes)
    → NoHeader pre rest
    → 6 < length rest
    → scan_headers (pre ++ rest) ≡ scan_headers rest
unfolding scan_headers
scan_headers-skip [] rest h n = refl
scan_headers-skip (c ∷ pre) rest h n =
    ground (arith, h.0, length-append pre rest, scan_headers-skip pre rest h.1 n)

abbrev pub IsBlank : ℕ → Type 0
IsBlank c = (c ≡ b' ') ⊎ (c ≡ b'\t')

-- What may follow the host: the end of the line or of the payload, or a port.
abbrev pub StopsHost : Bytes → Type 0
StopsHost [] = Unit {0}
StopsHost (c ∷ cs) = (c ≡ b'\r') ⊎ (c ≡ b'\n') ⊎ (c ≡ b':')

skip_blanks-append : (bs x : Bytes) → All IsBlank bs → skip_blanks (bs ++ x) ≡ skip_blanks x
unfolding skip_blanks
skip_blanks-append [] x h = refl
skip_blanks-append (b ∷ bs) x h = ground (arith, skip_blanks-append bs x h.1)

take_line-append :
    (host x : Bytes) → All IsHostByte host → take_line (host ++ x) ≡ host ++ take_line x
unfolding take_line
take_line-append [] x h = refl
take_line-append (c ∷ cs) x h = ground (arith, take_line-append cs x h.1)

before_colon-append :
    (host x : Bytes) → All IsHostByte host → before_colon (host ++ x) ≡ host ++ before_colon x
unfolding before_colon
before_colon-append [] x h = refl
before_colon-append (c ∷ cs) x h = ground (arith, before_colon-append cs x h.1)

host_stops : (after : Bytes) → StopsHost after → before_colon (take_line after) ≡ []
unfolding before_colon take_line
host_stops [] h = refl
host_stops (c ∷ cs) h = ground arith

-- The value of the header, from the blanks on.
host_or-value :
    (bs host after : Bytes) (r : Result (Option Bytes))
    → All IsBlank bs
    → All IsHostByte host
    → host ≢ []
    → StopsHost after
    → host_or (take_line (skip_blanks (bs ++ (host ++ after)))) r ≡ ok (some host)
host_or-value bs [] after r hb hh ne hs = absurd (ne refl)
host_or-value bs (c ∷ cs) after r hb hh ne hs =
    rw (skip_blanks-append bs ((c ∷ cs) ++ after) hb, skip_first)
      (rw (take_line-append (c ∷ cs) after hh) (
        unfold host_or in
        ap (λ v. ok (some v))
          (before_colon-append (c ∷ cs) (take_line after) hh
            ∙ rw (host_stops after hs) (append-nil (c ∷ cs)))))
  where
    skip_first : skip_blanks ((c ∷ cs) ++ after) ≡ (c ∷ cs) ++ after
    skip_first = unfold skip_blanks in ground arith

-- "Host:" in any case.
abbrev pub IsHostHeader : Bytes → Type 0
IsHostHeader name = map to_lower name ≡ codes "host:"

is_host_header-name :
    (h o s t c : ℕ) (rest : Bytes)
    → IsHostHeader (h ∷ o ∷ s ∷ t ∷ c ∷ [])
    → is_host_header (h ∷ o ∷ s ∷ t ∷ c ∷ rest) ≡ ok true
unfolding is_host_header byte_at to_lower
is_host_header-name h o s t c rest e = ground arith

scan_headers-found :
    (h o s t c : ℕ) (bs host after : Bytes)
    → IsHostHeader (h ∷ o ∷ s ∷ t ∷ c ∷ [])
    → All IsBlank bs
    → All IsHostByte host
    → host ≢ []
    → StopsHost after
    → 2 ≤ length (bs ++ (host ++ after))
    → scan_headers (h ∷ o ∷ s ∷ t ∷ c ∷ (bs ++ (host ++ after))) ≡ ok (some host)
unfolding scan_headers
scan_headers-found h o s t c bs host after e hb hh ne hs n =
    rw
      (
        lt→ltb 6 (length (h ∷ o ∷ s ∷ t ∷ c ∷ (bs ++ (host ++ after)))) (omega arith),
        is_host_header-name h o s t c (bs ++ (host ++ after)) e,
      )
      (host_or-value bs host after _ hb hh ne hs)

-- An HTTP request that holds "Host:", in any case, then blanks, a host name and the end of the line
-- or a port, gives the host name, if no earlier position reads as "Host:". Nothing is asked of
-- what stands in front: it need not end a line.
pub http_extract-host :
    (pre : Bytes) (h o s t c : ℕ) (bs host after : Bytes)
    → IsHostHeader (h ∷ o ∷ s ∷ t ∷ c ∷ [])
    → All IsBlank bs
    → All IsHostByte host
    → host ≢ []
    → StopsHost after
    → 2 ≤ length (bs ++ (host ++ after))
    → NoHeader pre (h ∷ o ∷ s ∷ t ∷ c ∷ (bs ++ (host ++ after)))
    → is_http_request (pre ++ (h ∷ o ∷ s ∷ t ∷ c ∷ (bs ++ (host ++ after)))) ≡ true
    → extract (pre ++ (h ∷ o ∷ s ∷ t ∷ c ∷ (bs ++ (host ++ after)))) ≡ ok (some host)
unfolding extract
http_extract-host pre h o s t c bs host after e hb hh ne hs n none_before request = rw request (
    scan_headers-skip pre (h ∷ o ∷ s ∷ t ∷ c ∷ (bs ++ (host ++ after))) none_before (omega arith)
    ∙ scan_headers-found h o s t c bs host after e hb hh ne hs n)
