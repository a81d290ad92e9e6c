-- ===== src/Extract/Tls/Safety.antt =====
-- The extractor reads inside the payload only, and ends.
use deep_packet_analyzer.Base.{
  ℕ, zero, suc, ◌+◌, ◌≤◌, ◌<◌, ◌≡◌, Bool, true, false, arith, ltb, leb, ltb-false→le, leb→le,
  length, min, Bytes, read_u16-Succeeds, read_u24-Succeeds, byte_at-lt, slice-le, ok, Succeeds,
  Ends, Ends-Succeeds, Bool-cases, inl, inr,
}
use deep_packet_analyzer.Extract.Tls.{
  is_tls_client_hello, sni_extension, scan_extensions, extensions, compression_methods,
  cipher_suites, session_id, extract,
}

is_tls_client_hello-Ends : (p : Bytes) → Ends (is_tls_client_hello p)
unfolding is_tls_client_hello
is_tls_client_hello-Ends p = elim (Bool-cases (ltb (length p) 9)) [
  | inl short ↦ rw short tt
  | inr long ↦
      let n : 9 ≤ length p = ltb-false→le (length p) 9 long in
      let (b0, e0) = byte_at-lt p 0 (omega arith) in
      let (b1, e1) = read_u16-Succeeds p 1 (omega arith) in
      let (b3, e3) = read_u16-Succeeds p 3 (omega arith) in
      let (b5, e5) = byte_at-lt p 5 (omega arith) in ground (arith, e0, e1, e3, e5)
]

sni_extension-Ends :
    (p : Bytes) (offset n : ℕ) → offset + n ≤ length p → Ends (sni_extension p offset n)
unfolding sni_extension
sni_extension-Ends p offset n h = elim (Bool-cases (ltb n 5)) [
  | inl short ↦ rw short tt
  | inr long ↦
      let w : 5 ≤ n = ltb-false→le n 5 long in
      let (b0, e0) = read_u16-Succeeds p offset (omega arith) in
      let (b2, e2) = byte_at-lt p (offset + 2) (omega arith) in
      let (b3, e3) = read_u16-Succeeds p (offset + 3) (omega arith) in
      ground (arith, e0, e2, e3, slice-le p (offset + 5) b3)
]

scan_extensions-Ends :
    (fuel : ℕ) (p : Bytes) (offset end : ℕ)
    → end ≤ length p
    → 0 < fuel
    → end < offset + fuel
    → Ends (scan_extensions fuel p offset end)
unfolding scan_extensions
scan_extensions-Ends zero p offset end h f m = absurd (omega arith)
scan_extensions-Ends (suc fuel) p offset end h f m = elim (Bool-cases (leb (offset + 4) end)) [
  | inr over ↦ rw over tt
  | inl more ↦
      let w : offset + 4 ≤ end = leb→le (offset + 4) end more in
      let (ty, e0) = read_u16-Succeeds p offset (omega arith) in
      let (n, e2) = read_u16-Succeeds p (offset + 2) (omega arith) in
      ground (
        arith,
        e0,
        e2,
        sni_extension-Ends p (offset + 4) n,
        scan_extensions-Ends fuel p (offset + 4 + n) end h,
      )
]

extensions-Ends : (p : Bytes) (offset : ℕ) → Ends (extensions p offset)
unfolding extensions
extensions-Ends p offset = elim (Bool-cases (ltb (length p) (offset + 2))) [
  | inl short ↦ rw short tt
  | inr long ↦
      let w : offset + 2 ≤ length p = ltb-false→le (length p) (offset + 2) long in
      let (n, e) = read_u16-Succeeds p offset w in
      ground (
        arith,
        e,
        scan_extensions-Ends (suc (length p)) p (offset + 2) (min (offset + 2 + n) (length p))
            (omega arith) (omega arith) (omega arith),
      )
]

compression_methods-Ends : (p : Bytes) (offset : ℕ) → Ends (compression_methods p offset)
unfolding compression_methods
compression_methods-Ends p offset = elim (Bool-cases (leb (length p) offset)) [
  | inl short ↦ rw short tt
  | inr long ↦
      let (n, e) = byte_at-lt p offset (ground arith) in
      ground (arith, e, extensions-Ends p (offset + 1 + n))
]

cipher_suites-Ends : (p : Bytes) (offset : ℕ) → Ends (cipher_suites p offset)
unfolding cipher_suites
cipher_suites-Ends p offset = elim (Bool-cases (ltb (length p) (offset + 2))) [
  | inl short ↦ rw short tt
  | inr long ↦
      let (n, e) = read_u16-Succeeds p offset (ltb-false→le (length p) (offset + 2) long) in
      ground (arith, e, compression_methods-Ends p (offset + 2 + n))
]

session_id-Ends : (p : Bytes) (offset : ℕ) → Ends (session_id p offset)
unfolding session_id
session_id-Ends p offset = elim (Bool-cases (leb (length p) offset)) [
  | inl short ↦ rw short tt
  | inr long ↦
      let (n, e) = byte_at-lt p offset (ground arith) in
      ground (arith, e, cipher_suites-Ends p (offset + 1 + n))
]

-- Only a payload of nine bytes at least is taken for a Client Hello.
pub is_tls_client_hello-long : (p : Bytes) → is_tls_client_hello p ≡ ok true → 9 ≤ length p
unfolding is_tls_client_hello
is_tls_client_hello-long p h = elim (Bool-cases (ltb (length p) 9)) [
  | inl short ↦ ground (arith, h)
  | inr long ↦ ltb-false→le (length p) 9 long
]

extract-Ends : (p : Bytes) (hello : Bool) → is_tls_client_hello p ≡ ok hello → Ends (extract p)
unfolding extract
extract-Ends p false e = rw (e, extract) tt
extract-Ends p true e =
    let n : 9 ≤ length p = is_tls_client_hello-long p e in
    let (v, f) = read_u24-Succeeds p 6 (omega arith) in rw (e, extract, f) (session_id-Ends p 43)

-- On every payload, whatever its bytes, `SNIExtractor::extract` returns: its loop ends within the
-- length of the payload, and no read is outside of the payload.
pub tls_extract-Succeeds : (p : Bytes) → Succeeds (extract p)
tls_extract-Succeeds p =
    let (hello, e) = Ends-Succeeds _ (is_tls_client_hello-Ends p) in
    Ends-Succeeds (extract p) (extract-Ends p hello e)
