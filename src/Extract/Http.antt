-- ===== src/Extract/Http.antt =====
-- `HTTPHostExtractor` of src/sni_extractor.cpp. The position `i` of a loop is the rest of the
-- payload from `i` on.
pub mod Host
use Prim.Native.String.{String}
use deep_packet_analyzer.Base.{
  ℕ, Bool, true, false, not, ◌||◌, List, [], ◌∷◌, Option, none, some, ltb, ◌==◌, if◌then◌else◌,
  length, drop, Bytes, codes, starts, byte_at, Result, ok, ◌>>=◌,
}

-- The loop over the method names: `memcmp` on four bytes.
unfoldable pub any_method : List String → Bytes → Bool
any_method [] payload = false
any_method (m ∷ ms) payload = starts (codes m) payload || any_method ms payload

-- `isHTTPRequest`.
unfoldable pub is_http_request : Bytes → Bool
unfolding any_method starts
is_http_request payload =
    if ltb (length payload) 4
    then false
    else any_method ("GET " ∷ "POST" ∷ "PUT " ∷ "HEAD" ∷ "DELE" ∷ "PATC" ∷ "OPTI" ∷ []) payload

-- The five tests on `payload[i]` to `payload[i + 4]`, each read only if the ones before it passed.
unfoldable pub is_host_header : Bytes → Result Bool
is_host_header s = do
  h ← byte_at s 0
  if not (h == b'H' || h == b'h') then ok false else (do
    o ← byte_at s 1
    if not (o == b'o' || o == b'O') then ok false else (do
      c ← byte_at s 2
      if not (c == b's' || c == b'S') then ok false else (do
        t ← byte_at s 3
        if not (t == b't' || t == b'T')
            then ok false
            else (do colon ← byte_at s 4; ok (colon == b':')))))

-- `while (payload[start] == ' ' || payload[start] == '\t') start++`.
unfoldable pub skip_blanks : Bytes → Bytes
skip_blanks [] = []
skip_blanks (c ∷ cs) = if c == b' ' || c == b'\t' then skip_blanks cs else c ∷ cs

-- From `start` up to the end of the line.
unfoldable pub take_line : Bytes → Bytes
take_line [] = []
take_line (c ∷ cs) = let rest = take_line cs in if c == b'\r' || c == b'\n' then [] else c ∷ rest

-- `host.substr(0, host.find(':'))`, or the whole host.
unfoldable pub before_colon : Bytes → Bytes
before_colon [] = []
before_colon (c ∷ cs) = let rest = before_colon cs in if c == b':' then [] else c ∷ rest

-- The host is used if it is not empty; otherwise the loop goes on.
unfoldable pub host_or : Bytes → Result (Option Bytes) → Result (Option Bytes)
host_or [] rest = rest
host_or (c ∷ cs) rest = ok (some (before_colon (c ∷ cs)))

-- `for (i = 0; i + host_header_len < length; i++)`.
unfoldable pub scan_headers : Bytes → Result (Option Bytes)
scan_headers [] = ok none
scan_headers (c ∷ cs) =
    let rest = scan_headers cs in
    if ltb 6 (length (c ∷ cs))
    then (do
      found ← is_host_header (c ∷ cs)
      if found then host_or (take_line (skip_blanks (drop 5 (c ∷ cs)))) rest else rest)
    else ok none

-- `HTTPHostExtractor::extract`.
unfoldable pub extract : Bytes → Result (Option Bytes)
extract payload = if not (is_http_request payload) then ok none else scan_headers payload
