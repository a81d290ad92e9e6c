-- ===== src/Base/Cursor.antt =====
-- Reading at an offset of a buffer: `drop o buf` is what lies there.
use Prim.Native.Nat.{ℕ, zero, suc, ◌+◌, ◌≤◌, ◌<◌, ◌*◌, ◌^◌, ◌/◌, ◌%◌, bit_or}
use mathlib.Core.Path.{◌≡◌, sym, ap, ◌∙◌}
use mathlib.Core.List.{[], ◌∷◌, ◌++◌}
use mathlib.Core.Option.{some}
use native.Mathlib.Omega.{arith}
use deep_packet_analyzer.Base.Lists.{
  length, get_elem?, take, drop, length-drop, take-length-append, drop-length-append, drop-drop,
}
use deep_packet_analyzer.Base.Outcome.{Result, ok, ◌>>=◌, Succeeds}
use deep_packet_analyzer.Base.Strings.{Bytes, byte_at, slice, byte_at-lt}
use deep_packet_analyzer.Base.Bits.{bit_or_bytes}

-- `(uint16_t(p[i]) << 8) | p[i + 1]`.
unfoldable pub read_u16 : Bytes → ℕ → Result ℕ
read_u16 buf i = do a ← byte_at buf i; b ← byte_at buf (i + 1); ok (bit_or (a * 2 ^ 8) b)

-- `(p[i] << 16) | (p[i + 1] << 8) | p[i + 2]`.
unfoldable pub read_u24 : Bytes → ℕ → Result ℕ
read_u24 buf i = do
  a ← byte_at buf i
  b ← byte_at buf (i + 1)
  c ← byte_at buf (i + 2)
  ok (bit_or (bit_or (a * 2 ^ 16) (b * 2 ^ 8)) c)

pub read_u16-Succeeds : (buf : Bytes) (i : ℕ) → i + 2 ≤ length buf → Succeeds (read_u16 buf i)
unfolding read_u16
read_u16-Succeeds buf i h =
    let (a, e) = byte_at-lt buf i (omega arith) in
    let (b, f) = byte_at-lt buf (i + 1) (omega arith) in (bit_or (a * 2 ^ 8) b, rw (e, f))

pub read_u24-Succeeds : (buf : Bytes) (i : ℕ) → i + 3 ≤ length buf → Succeeds (read_u24 buf i)
unfolding read_u24
read_u24-Succeeds buf i h =
    let (a, e) = byte_at-lt buf i (omega arith) in
    let (b, f) = byte_at-lt buf (i + 1) (omega arith) in
    let (c, g) = byte_at-lt buf (i + 2) (omega arith) in
    (bit_or (bit_or (a * 2 ^ 16) (b * 2 ^ 8)) c, rw (e, f, g))

get_elem?-drop :
    (buf : Bytes) (o b : ℕ) (rest : Bytes) → drop o buf ≡ b ∷ rest → get_elem? buf o ≡ some b
get_elem?-drop [] zero b rest h = cc
get_elem?-drop [] (suc o) b rest h = cc
get_elem?-drop (x ∷ buf) zero b rest h = cc
get_elem?-drop (x ∷ buf) (suc o) b rest h = get_elem?-drop buf o b rest h

-- Past `xs`, what follows it lies.
pub drop-skip :
    (buf : Bytes) (o : ℕ) (xs rest : Bytes)
    → drop o buf ≡ xs ++ rest
    → drop (o + length xs) buf ≡ rest
drop-skip buf o xs rest h =
    sym (drop-drop (length xs) o buf) ∙ ap (drop (length xs)) h ∙ drop-length-append xs rest

pub drop_step :
    (buf : Bytes) (o b : ℕ) (rest : Bytes) → drop o buf ≡ b ∷ rest → drop (o + 1) buf ≡ rest
drop_step buf o b rest h = drop-skip buf o (b ∷ []) rest h

pub byte_at-drop :
    (buf : Bytes) (o b : ℕ) (rest : Bytes) → drop o buf ≡ b ∷ rest → byte_at buf o ≡ ok b
unfolding byte_at
byte_at-drop buf o b rest h = rw (get_elem?-drop buf o b rest h, byte_at)

-- What lies at an offset fits before the end, if there is anything.
pub length-at :
    (buf : Bytes) (o b : ℕ) (xs : Bytes) → drop o buf ≡ b ∷ xs → o + suc (length xs) ≡ length buf
length-at buf o b xs h = omega (arith, length-drop o buf, ap length h)

pub read_u16-drop :
    (buf : Bytes) (o a b : ℕ) (rest : Bytes)
    → b < 256
    → drop o buf ≡ a ∷ b ∷ rest
    → read_u16 buf o ≡ ok (a * 256 + b)
unfolding read_u16
read_u16-drop buf o a b rest h e =
    rw
      (
        byte_at-drop buf o a (b ∷ rest) e,
        byte_at-drop buf (o + 1) b rest (drop_step buf o a (b ∷ rest) e),
      )
      (ap ok (bit_or_bytes a b h))

-- Two bytes, most significant first.
abbrev pub u16 : ℕ → Bytes → Bytes
u16 n rest = n / 256 ∷ n % 256 ∷ rest

pub read_u16-u16 :
    (buf : Bytes) (o n : ℕ) (rest : Bytes) → drop o buf ≡ u16 n rest → read_u16 buf o ≡ ok n
read_u16-u16 buf o n rest e =
    read_u16-drop buf o (n / 256) (n % 256) rest (omega arith) e ∙ ap ok (omega arith)

pub drop-u16 :
    (buf : Bytes) (o n : ℕ) (rest : Bytes) → drop o buf ≡ u16 n rest → drop (o + 2) buf ≡ rest
drop-u16 buf o n rest e = drop-skip buf o (n / 256 ∷ n % 256 ∷ []) rest e

pub slice-drop :
    (buf : Bytes) (o : ℕ) (xs rest : Bytes)
    → drop o buf ≡ xs ++ rest
    → o + length xs ≤ length buf
    → slice buf o (length xs) ≡ ok xs
unfolding slice
slice-drop buf o xs rest e h = ground (arith, ap (take (length xs)) e ∙ take-length-append xs rest)
