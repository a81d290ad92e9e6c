-- ===== src/Base/Strings.antt =====
-- Byte strings: std::string, and what a pointer and a length denote.
use Prim.Native.Char.{code}
use Prim.Native.Nat.{ℕ, zero, suc, ◌+◌, ◌≤◌, ◌<◌}
use Prim.Native.String.{String}
use mathlib.Core.Path.{◌≡◌}
use mathlib.Core.Logic.{◌↔◌}
use mathlib.Core.Bool.{Bool, true, false, ◌&&◌, ◌||◌}
use mathlib.Core.List.{List, [], ◌∷◌}
use mathlib.Core.Option.{none, some}
use native.Mathlib.Omega.{arith}
use deep_packet_analyzer.Base.Test.{leb, ◌==◌, if◌then◌else◌}
use deep_packet_analyzer.Base.Lists.{length, get_elem?, get_elem?-lt, take, drop}
use deep_packet_analyzer.Base.Outcome.{Result, ok, err, out_of_bounds}

abbrev pub Bytes : Type 0
Bytes = List ℕ

-- The code points of a literal: its bytes, since every literal here is ASCII.
abbrev pub codes : String → Bytes
codes String.[] = []
codes (String.◌∷◌ c s) = code c ∷ codes s

-- operator== of std::string.
unfoldable pub equal : Bytes → Bytes → Bool
equal [] t = elim t [ [] ↦ true | c ∷ cs ↦ false ]
equal (b ∷ s) [] = false
equal (b ∷ s) (c ∷ t) = b == c && equal s t

pub equal_iff : (s t : Bytes) → (equal s t ≡ true) ↔ (s ≡ t)
unfolding equal
equal_iff [] [] = ground arith
equal_iff [] (c ∷ t) = ground arith
equal_iff (b ∷ s) [] = ground arith
equal_iff (b ∷ s) (c ∷ t) = ground (arith, equal_iff s t)

-- std::tolower in the "C" locale.
unfoldable pub to_lower : ℕ → ℕ
to_lower c = if leb b'A' c && leb c b'Z' then c + 32 else c

-- Does the text begin with the pattern?
unfoldable pub starts : Bytes → Bytes → Bool
starts [] s = true
starts (p ∷ ps) [] = false
starts (p ∷ ps) (c ∷ s) = p == c && starts ps s

-- `s.find(pattern) != npos`.
unfoldable pub contains : Bytes → Bytes → Bool
unfolding starts
contains pattern [] = starts pattern []
contains pattern (c ∷ s) = starts pattern (c ∷ s) || contains pattern s

-- `p[i]` on a buffer that ends at its last byte.
unfoldable pub byte_at : Bytes → ℕ → Result ℕ
byte_at buf i = elim (get_elem? buf i) [ none ↦ err out_of_bounds | some b ↦ ok b ]

-- `std::string(p + i, n)`.
unfoldable pub slice : Bytes → ℕ → ℕ → Result Bytes
slice buf i n = if leb (i + n) (length buf) then ok (take n (drop i buf)) else err out_of_bounds

pub byte_at-lt : (buf : Bytes) (i : ℕ) → i < length buf → (b : ℕ) × (byte_at buf i ≡ ok b)
unfolding byte_at
byte_at-lt buf i h = let (b, e) = get_elem?-lt buf i h in (b, rw (e, byte_at))

pub slice-le :
    (buf : Bytes) (i n : ℕ) → i + n ≤ length buf → slice buf i n ≡ ok (take n (drop i buf))
unfolding slice
slice-le buf i n h = ground arith

-- A string whose every element is a byte.
abbrev pub IsBytes : Bytes → Type 0
IsBytes [] = Unit {0}
IsBytes (b ∷ bs) = (b < 256) × IsBytes bs

pub get_elem?-IsBytes :
    (bs : Bytes) (i : ℕ) {b : ℕ} → IsBytes bs → get_elem? bs i ≡ some b → b < 256
get_elem?-IsBytes [] i h e = cc
get_elem?-IsBytes (x ∷ xs) zero h e = ground arith
get_elem?-IsBytes (x ∷ xs) (suc i) h e = get_elem?-IsBytes xs i h.1 e
