-- ===== src/Extract/Tls.antt =====
-- `SNIExtractor` of src/sni_extractor.cpp. A payload and its length are one byte string; a read
-- past its end is a fault.
pub mod Safety
pub mod RoundTrip
use deep_packet_analyzer.Base.{
  ℕ, zero, suc, ◌+◌, ◌-◌, Bool, true, false, not, ◌||◌, [], ◌∷◌, Option, none, some, ltb, leb, ◌==◌,
  if◌then◌else◌, length, min, Bytes, byte_at, slice, read_u16, read_u24, Result, ok, err, no_fuel,
  ◌>>=◌,
}

-- `isTLSClientHello`.
unfoldable pub is_tls_client_hello : Bytes → Result Bool
is_tls_client_hello payload = if ltb (length payload) 9 then ok false else (do
  content_type ← byte_at payload 0
  if not (content_type == 0x16) then ok false else (do
    version ← read_u16 payload 1
    if ltb version 0x0300 || ltb 0x0304 version then ok false else (do
      record_length ← read_u16 payload 3
      if ltb (length payload - 5) record_length
          then ok false
          else (do handshake ← byte_at payload 5; ok (handshake == 0x01)))))

-- The body of the loop once the SNI extension is found; `offset` is behind its header.
unfoldable pub sni_extension : Bytes → ℕ → ℕ → Result (Option Bytes)
sni_extension payload offset extension_length = if ltb extension_length 5 then ok none else (do
  sni_list_length ← read_u16 payload offset
  if ltb sni_list_length 3 then ok none else (do
    sni_type ← byte_at payload (offset + 2)
    sni_length ← read_u16 payload (offset + 3)
    if not (sni_type == 0x00)
        then ok none
        else if ltb (extension_length - 5) sni_length
        then ok none
        else (do sni ← slice payload (offset + 5) sni_length; ok (some sni))))

-- The loop over the extensions, on fuel.
unfoldable pub scan_extensions : ℕ → Bytes → ℕ → ℕ → Result (Option Bytes)
unfolding sni_extension
scan_extensions zero payload offset extensions_end = err no_fuel
scan_extensions (suc fuel) payload offset extensions_end =
    if leb (offset + 4) extensions_end
    then (do
      extension_type ← read_u16 payload offset
      extension_length ← read_u16 payload (offset + 2)
      let rest = scan_extensions fuel payload (offset + 4 + extension_length) extensions_end
      if ltb extensions_end (offset + 4 + extension_length)
          then ok none
          else if extension_type == 0x0000
          then sni_extension payload (offset + 4) extension_length
          else rest)
    else ok none

-- From the length of the extensions on. A round moves the offset by four at least, so the length
-- of the payload is enough fuel.
unfoldable pub extensions : Bytes → ℕ → Result (Option Bytes)
extensions payload offset = if ltb (length payload) (offset + 2) then ok none else (do
  extensions_length ← read_u16 payload offset
  scan_extensions (suc (length payload)) payload (offset + 2)
      (min (offset + 2 + extensions_length) (length payload)))

-- From the compression methods on.
unfoldable pub compression_methods : Bytes → ℕ → Result (Option Bytes)
compression_methods payload offset =
    if leb (length payload) offset
    then ok none
    else (do n ← byte_at payload offset; extensions payload (offset + 1 + n))

-- From the cipher suites on.
unfoldable pub cipher_suites : Bytes → ℕ → Result (Option Bytes)
cipher_suites payload offset =
    if ltb (length payload) (offset + 2)
    then ok none
    else (do n ← read_u16 payload offset; compression_methods payload (offset + 2 + n))

-- From the session id on.
unfoldable pub session_id : Bytes → ℕ → Result (Option Bytes)
session_id payload offset =
    if leb (length payload) offset
    then ok none
    else (do n ← byte_at payload offset; cipher_suites payload (offset + 1 + n))

-- `SNIExtractor::extract`: 5 bytes of record header, 4 of handshake header, 2 of version and 32 of
-- random stand before the session id. The handshake length is read and not used.
unfoldable pub extract : Bytes → Result (Option Bytes)
extract payload = do
  hello ← is_tls_client_hello payload
  if not hello
      then ok none
      else (do handshake_length ← read_u24 payload (5 + 1); session_id payload (5 + 4 + 2 + 32))
