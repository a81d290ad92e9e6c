-- ===== src/Extract/Tls/RoundTrip.antt =====
-- A Client Hello written field by field as include/sni_extractor.h lays it out, and what the
-- extractor reads from it.
use deep_packet_analyzer.Base.{
  ℕ, zero, suc, ◌+◌, ◌-◌, ◌/◌, ◌%◌, ◌≤◌, ◌<◌, ◌≡◌, ◌≢◌, refl, sym, ap, ◌∙◌, true, List, [], ◌∷◌,
  ◌++◌, some, arith, le→ltb-false, length, length-append, Bytes, byte_at, byte_at-drop, slice-drop,
  read_u16, read_u24-Succeeds, u16, read_u16-u16, drop-u16, drop-skip, All, drop_step, length-at,
  drop, ok,
}
use deep_packet_analyzer.Extract.Tls.Safety.{is_tls_client_hello-long}
use deep_packet_analyzer.Extract.Tls.{
  is_tls_client_hello, sni_extension, scan_extensions, extensions, compression_methods,
  cipher_suites, session_id, extract,
}

pub record Extension : Type 0 where
  pub kind : ℕ
  pub body : Bytes

pub record ClientHello : Type 0 where
  pub version : ℕ
  pub handshake_length : ℕ
  pub client_version : ℕ
  pub random : Bytes
  pub session : Bytes
  pub ciphers : Bytes
  pub compression : Bytes
  pub before : List Extension
  pub name : Bytes
  pub after : Bytes

abbrev pub extension_bytes : Extension → Bytes → Bytes
extension_bytes x rest = u16 x.kind (u16 (length x.body) (x.body ++ rest))

abbrev pub extensions_bytes : List Extension → Bytes → Bytes
extensions_bytes [] rest = rest
extensions_bytes (x ∷ xs) rest = extension_bytes x (extensions_bytes xs rest)

-- The server_name extension with one host name.
abbrev pub sni_of : Bytes → Extension
sni_of name = record { kind = 0; body = u16 (length name + 3) (0 ∷ u16 (length name) name) }

abbrev pub extensions_of : ClientHello → Bytes
extensions_of h = extensions_bytes h.before (extension_bytes (sni_of h.name) h.after)

-- From the session id on.
abbrev pub session_bytes : ClientHello → Bytes
session_bytes h =
    length h.session
    ∷ (h.session
        ++ u16 (length h.ciphers) (
            h.ciphers
            ++ (length h.compression
                ∷ (h.compression ++ u16 (length (extensions_of h)) (extensions_of h)))))

-- What the record holds, behind the type of the handshake message.
abbrev pub handshake_bytes : ClientHello → Bytes
handshake_bytes h =
    h.handshake_length / 65536
    ∷ u16 (h.handshake_length % 65536) (u16 h.client_version (h.random ++ session_bytes h))

abbrev pub hello_bytes : ClientHello → Bytes
hello_bytes h =
    0x16 ∷ u16 h.version (u16 (suc (length (handshake_bytes h))) (1 ∷ handshake_bytes h))

drop-counted :
    (buf : Bytes) (o : ℕ) (xs rest : Bytes)
    → drop o buf ≡ length xs ∷ (xs ++ rest)
    → drop (o + 1 + length xs) buf ≡ rest
drop-counted buf o xs rest e =
    drop-skip buf (o + 1) xs rest (drop_step buf o (length xs) (xs ++ rest) e)

drop-counted16 :
    (buf : Bytes) (o : ℕ) (xs rest : Bytes)
    → drop o buf ≡ u16 (length xs) (xs ++ rest)
    → drop (o + 2 + length xs) buf ≡ rest
drop-counted16 buf o xs rest e =
    drop-skip buf (o + 2) xs rest (drop-u16 buf o (length xs) (xs ++ rest) e)

session_id_step :
    (buf : Bytes) (o : ℕ) (xs rest : Bytes)
    → drop o buf ≡ length xs ∷ (xs ++ rest)
    → session_id buf o ≡ cipher_suites buf (o + 1 + length xs)
unfolding session_id
session_id_step buf o xs rest e = ground (
  arith,
  length-at buf o (length xs) (xs ++ rest) e,
  byte_at-drop buf o (length xs) (xs ++ rest) e,
)

compression_methods_step :
    (buf : Bytes) (o : ℕ) (xs rest : Bytes)
    → drop o buf ≡ length xs ∷ (xs ++ rest)
    → compression_methods buf o ≡ extensions buf (o + 1 + length xs)
unfolding compression_methods
compression_methods_step buf o xs rest e = ground (
  arith,
  length-at buf o (length xs) (xs ++ rest) e,
  byte_at-drop buf o (length xs) (xs ++ rest) e,
)

length-at_u16 :
    (buf : Bytes) (o n : ℕ) (rest : Bytes)
    → drop o buf ≡ u16 n rest
    → o + 2 + length rest ≡ length buf
length-at_u16 buf o n rest e = omega (arith, length-at buf o (n / 256) (n % 256 ∷ rest) e)

cipher_suites_step :
    (buf : Bytes) (o : ℕ) (xs rest : Bytes)
    → drop o buf ≡ u16 (length xs) (xs ++ rest)
    → cipher_suites buf o ≡ compression_methods buf (o + 2 + length xs)
unfolding cipher_suites
cipher_suites_step buf o xs rest e = ground (
  arith,
  length-at_u16 buf o (length xs) (xs ++ rest) e,
  read_u16-u16 buf o (length xs) (xs ++ rest) e,
)

at_offset : (buf : Bytes) (o o' : ℕ) {r : Bytes} → o ≡ o' → drop o buf ≡ r → drop o' buf ≡ r
at_offset buf o o' p e = ap (λ k. drop k buf) (sym p) ∙ e

sni_extension_step :
    (buf : Bytes) (o : ℕ) (name rest : Bytes)
    → drop o buf ≡ u16 (length name + 3) (0 ∷ u16 (length name) (name ++ rest))
    → sni_extension buf o (length name + 5) ≡ ok (some name)
unfolding sni_extension
sni_extension_step buf o name rest e =
    let tail = u16 (length name) (name ++ rest) in
    let e2 = drop-u16 buf o (length name + 3) (0 ∷ tail) e in
    let e3 = at_offset buf (o + 2 + 1) (o + 3) (omega arith) (drop_step buf (o + 2) 0 tail e2) in
    let e5 =
      at_offset buf (o + 3 + 2) (o + 5) (omega arith)
        (drop-u16 buf (o + 3) (length name) (name ++ rest) e3) in
    let r0 = read_u16-u16 buf o (length name + 3) (0 ∷ tail) e in
    let r2 = byte_at-drop buf (o + 2) 0 tail e2 in
    let r3 = read_u16-u16 buf (o + 3) (length name) (name ++ rest) e3 in
    let n : o + 5 + length name ≤ length buf =
      omega (
        arith,
        length-at_u16 buf (o + 3) (length name) (name ++ rest) e3,
        length-append name rest,
      ) in
    ground (arith, r0, r2, r3, slice-drop buf (o + 5) name rest e5 n)

-- One extension, at an offset.
module _ (fuel : ℕ) (buf : Bytes) (o : ℕ) (x : Extension) (rest : Bytes)
    (e : drop o buf ≡ extension_bytes x rest) where
  at_length : drop (o + 2) buf ≡ u16 (length x.body) (x.body ++ rest)
  at_length = drop-u16 buf o x.kind (u16 (length x.body) (x.body ++ rest)) e

  at_body : drop (o + 4) buf ≡ x.body ++ rest
  at_body =
      at_offset buf (o + 2 + 2) (o + 4) (omega arith)
        (drop-u16 buf (o + 2) (length x.body) (x.body ++ rest) at_length)

  body_fits : o + 4 + length x.body + length rest ≡ length buf
  body_fits = omega (
    arith,
    length-at_u16 buf (o + 2) (length x.body) (x.body ++ rest) at_length,
    length-append x.body rest,
  )

  scan_extensions_skip :
      x.kind ≢ 0
      → scan_extensions (suc fuel) buf o (length buf)
        ≡ scan_extensions fuel buf (o + 4 + length x.body) (length buf)
  unfolding scan_extensions
  scan_extensions_skip h = ground (
    arith,
    body_fits,
    read_u16-u16 buf o x.kind (u16 (length x.body) (x.body ++ rest)) e,
    read_u16-u16 buf (o + 2) (length x.body) (x.body ++ rest) at_length,
  )

  scan_extensions_sni :
      x.kind ≡ 0
      → scan_extensions (suc fuel) buf o (length buf) ≡ sni_extension buf (o + 4) (length x.body)
  scan_extensions_sni h =
      unfold scan_extensions in
      ground (
        arith,
        body_fits,
        read_u16-u16 buf o x.kind (u16 (length x.body) (x.body ++ rest)) e,
        read_u16-u16 buf (o + 2) (length x.body) (x.body ++ rest) at_length,
      )

-- Past extensions of other kinds the loop comes to the server name.
scan_extensions-finds :
    (before : List Extension) (fuel : ℕ) (buf : Bytes) (o : ℕ) (name rest : Bytes)
    → All (λ (x : Extension). x.kind ≢ 0) before
    → drop o buf ≡ extensions_bytes before (extension_bytes (sni_of name) rest)
    → 0 < fuel
    → length buf < o + fuel
    → scan_extensions fuel buf o (length buf) ≡ ok (some name)
scan_extensions-finds before zero buf o name rest a e f m = absurd (omega arith)
scan_extensions-finds [] (suc fuel) buf o name rest a e f m =
    scan_extensions_sni fuel buf o (sni_of name) rest e refl
    ∙ ap (sni_extension buf (o + 4)) (omega arith)
    ∙ sni_extension_step buf (o + 4) name rest (at_body fuel buf o (sni_of name) rest e)
scan_extensions-finds (x ∷ before) (suc fuel) buf o name rest a e f m =
    let others = extensions_bytes before (extension_bytes (sni_of name) rest) in
    let fits = body_fits fuel buf o x others e in
    scan_extensions_skip fuel buf o x others e a.0
    ∙ scan_extensions-finds before fuel buf (o + 4 + length x.body) name rest a.1
        (drop-skip buf (o + 4) x.body others (at_body fuel buf o x others e)) (omega (arith, fits))
        (omega arith)

extensions-finds :
    (buf : Bytes) (o : ℕ) (h : ClientHello)
    → All (λ (x : Extension). x.kind ≢ 0) h.before
    → drop o buf ≡ u16 (length (extensions_of h)) (extensions_of h)
    → extensions buf o ≡ ok (some h.name)
unfolding extensions
extensions-finds buf o h a e =
    let whole = length-at_u16 buf o (length (extensions_of h)) (extensions_of h) e in
    let r = read_u16-u16 buf o (length (extensions_of h)) (extensions_of h) e in
    let found =
      scan_extensions-finds h.before (suc (length buf)) buf (o + 2) h.name h.after a
        (drop-u16 buf o (length (extensions_of h)) (extensions_of h) e) (omega arith)
        (omega arith) in
    rw (le→ltb-false (length buf) (o + 2) (omega arith), r)
      (ap (scan_extensions (suc (length buf)) buf (o + 2)) (omega arith) ∙ found)

session_id-finds :
    (buf : Bytes) (o : ℕ) (h : ClientHello)
    → All (λ (x : Extension). x.kind ≢ 0) h.before
    → drop o buf ≡ session_bytes h
    → session_id buf o ≡ ok (some h.name)
session_id-finds buf o h a e =
    let exts = u16 (length (extensions_of h)) (extensions_of h) in
    let comp = length h.compression ∷ (h.compression ++ exts) in
    let ciph = u16 (length h.ciphers) (h.ciphers ++ comp) in
    let o1 = o + 1 + length h.session in
    let e1 = drop-counted buf o h.session ciph e in
    let o2 = o1 + 2 + length h.ciphers in
    let e2 = drop-counted16 buf o1 h.ciphers comp e1 in
    session_id_step buf o h.session ciph e
    ∙ cipher_suites_step buf o1 h.ciphers comp e1
    ∙ compression_methods_step buf o2 h.compression exts e2
    ∙ extensions-finds buf (o2 + 1 + length h.compression) h a
        (drop-counted buf o2 h.compression exts e2)

header_of :
    (buf : Bytes) (version n : ℕ)
    → 9 ≤ length buf
    → byte_at buf 0 ≡ ok 0x16
    → read_u16 buf 1 ≡ ok version
    → read_u16 buf 3 ≡ ok n
    → byte_at buf 5 ≡ ok 1
    → 0x0300 ≤ version
    → version ≤ 0x0304
    → n ≤ length buf - 5
    → is_tls_client_hello buf ≡ ok true
unfolding is_tls_client_hello
header_of buf version n l b0 r1 r3 b5 lo hi h = ground arith

-- The header tests let a record of a known version pass whose length is as announced.
header_passes :
    (version : ℕ) (t : Bytes)
    → 0x0300 ≤ version
    → version ≤ 0x0304
    → 3 ≤ length t
    → is_tls_client_hello (0x16 ∷ u16 version (u16 (suc (length t)) (1 ∷ t))) ≡ ok true
header_passes version t lo hi n =
    let buf : Bytes = 0x16 ∷ u16 version (u16 (suc (length t)) (1 ∷ t)) in
    let r1 : read_u16 buf 1 ≡ ok version =
      read_u16-u16 buf 1 version (u16 (suc (length t)) (1 ∷ t)) refl in
    let r3 : read_u16 buf 3 ≡ ok (suc (length t)) =
      read_u16-u16 buf 3 (suc (length t)) (1 ∷ t) refl in
    header_of buf version (suc (length t)) (omega arith) (byte_at-drop buf 0 0x16 _ refl) r1 r3
      (byte_at-drop buf 5 1 t refl) lo hi (omega arith)

extract_passed : (buf : Bytes) → is_tls_client_hello buf ≡ ok true → extract buf ≡ session_id buf 43
unfolding extract
extract_passed buf e =
    let n : 9 ≤ length buf = is_tls_client_hello-long buf e in
    let (v, f) = read_u24-Succeeds buf 6 (omega arith) in rw (e, f)

-- A Client Hello of a known version whose random has 32 bytes gives its host name: the session id,
-- the cipher suites, the compression methods, the extensions before the server name (of any other
-- kind, any number of them) and what follows it may be anything. Lengths are counted as written;
-- where each fits its field, the record is a string of bytes.
pub tls_extract-hello_bytes :
    (h : ClientHello)
    → 0x0300 ≤ h.version
    → h.version ≤ 0x0304
    → length h.random ≡ 32
    → All (λ (x : Extension). x.kind ≢ 0) h.before
    → extract (hello_bytes h) ≡ ok (some h.name)
tls_extract-hello_bytes h lo hi r a =
    extract_passed (hello_bytes h) (header_passes h.version (handshake_bytes h) lo hi (omega arith))
    ∙ session_id-finds (hello_bytes h) 43 h a (
        at_offset (hello_bytes h) (11 + length h.random) 43 (omega arith)
          (drop-skip (hello_bytes h) 11 h.random (session_bytes h) refl))
