-- ===== src/Simple/Update.antt =====
-- What a packet does to its flow in the single-threaded program.
use deep_packet_analyzer.Base.{
  ℕ, ◌+◌, ◌*◌, ◌≤◌, ◌≡◌, inl, inr, refl, ◌∙◌, Bool, true, false, Option, none, some, ltb,
  if◌then◌else◌, length, arith, Bytes, byte_at-lt, Result, ok, ◌>>=◌, Returns, Succeeds,
  Ends-Succeeds, Bool-cases,
}
use deep_packet_analyzer.Tuple.{FiveTuple}
use deep_packet_analyzer.Connection.{add64}
use deep_packet_analyzer.Extract.Tls.Safety.{tls_extract-Succeeds}
use deep_packet_analyzer.Extract.Http.Host.{http_extract-Succeeds}
use deep_packet_analyzer.Packet.{ParsedPacket, low_nibble}
use deep_packet_analyzer.Simple.{
  Flow, BlockingRules, is_blocked, count_packet, tcp_payload, set_name, sni_from, host_from,
  try_sni, try_host, try_dns, try_port, check_blocked, update_flow,
}

tcp_payload-Succeeds : (p : Bytes) → 15 ≤ length p → Succeeds (tcp_payload p)
tcp_payload-Succeeds p h =
    let (b, e) = byte_at-lt p 14 (omega (arith, h)) in
    let start = 14 + low_nibble b * 4 + 12 in
    elim (Bool-cases (ltb start (length p))) [
      | inl c ↦
          let (d, f) = byte_at-lt p start (ground (arith, c)) in
          Ends-Succeeds (tcp_payload p) (unfold tcp_payload in ground (arith, e, c, f))
      | inr c ↦ Ends-Succeeds (tcp_payload p) (unfold tcp_payload in ground (arith, e, c))
    ]

-- The flow with another name and type at most.
abbrev pub IsNamed : Flow → Flow → Type 0
IsNamed f g =
    (g.blocked ≡ f.blocked) × (g.packets ≡ f.packets) × (g.bytes ≡ f.bytes) × (g.tuple ≡ f.tuple)

set_name-IsNamed : (f : Flow) (name : Option Bytes) → IsNamed f (set_name f name)
unfolding set_name
set_name-IsNamed f none = (refl, refl, refl, refl)
set_name-IsNamed f (some name) = (refl, refl, refl, refl)

sni_from-IsNamed : (f : Flow) (payload : Option Bytes) → Returns (sni_from f payload) (IsNamed f)
unfolding sni_from
sni_from-IsNamed f none = (f, refl, (refl, refl, refl, refl))
sni_from-IsNamed f (some payload) = elim (Bool-cases (ltb 5 (length payload))) [
  | inl c ↦
      let (name, e) = tls_extract-Succeeds payload in
      (set_name f name, rw (c, e) refl, set_name-IsNamed f name)
  | inr c ↦ (f, rw c refl, (refl, refl, refl, refl))
]

host_from-IsNamed : (f : Flow) (payload : Option Bytes) → Returns (host_from f payload) (IsNamed f)
unfolding host_from
host_from-IsNamed f none = (f, refl, (refl, refl, refl, refl))
host_from-IsNamed f (some payload) =
    let (name, e) = http_extract-Succeeds payload in
    (set_name f name, rw e refl, set_name-IsNamed f name)

-- Work that is done under a test only.
guarded {ℓ κ} :
    {A : Type ℓ} (P : A → Type κ) (test : Bool) (r : Result A) (a : A)
    → Returns r P
    → P a
    → Returns (if test then r else ok a) P
guarded P true r a h k = h
guarded P false r a h k = (a, refl, k)

followed {ℓ κ} :
    {A B : Type ℓ} (P : B → Type κ) (r : Result A) (next : A → Result B)
    → Succeeds r
    → ((a : A) → Returns (next a) P)
    → Returns (r >>= next) P
followed P r next (a, e) h = let (b, f, k) = h a in (b, rw e f, k)

try_sni-IsNamed :
    (p : Bytes) (q : ParsedPacket) (f : Flow) → 15 ≤ length p → Returns (try_sni p q f) (IsNamed f)
unfolding try_sni
try_sni-IsNamed p q f h =
    guarded (IsNamed f) _ _ f
      (followed (IsNamed f) (tcp_payload p) (sni_from f) (tcp_payload-Succeeds p h)
        (sni_from-IsNamed f))
      (refl, refl, refl, refl)

try_host-IsNamed :
    (p : Bytes) (q : ParsedPacket) (f : Flow) → 15 ≤ length p → Returns (try_host p q f) (IsNamed f)
unfolding try_host
try_host-IsNamed p q f h =
    guarded (IsNamed f) _ _ f
      (followed (IsNamed f) (tcp_payload p) (host_from f) (tcp_payload-Succeeds p h)
        (host_from-IsNamed f))
      (refl, refl, refl, refl)

fallback-IsNamed : (q : ParsedPacket) (f : Flow) → IsNamed f (try_port q (try_dns q f))
unfolding try_port try_dns
fallback-IsNamed q f = ground arith

-- The flow after a packet: once blocked it stays blocked, and it is left unblocked only if the
-- rules pass its name and type.
abbrev pub IsUpdated : BlockingRules → FiveTuple → ℕ → Flow → Flow → Type 0
IsUpdated rules t size f g =
    (g.packets ≡ add64 f.packets 1)
    × (g.bytes ≡ add64 f.bytes size)
    × (f.blocked ≡ true → g.blocked ≡ true)
    × (g.blocked ≡ false → is_blocked rules t.src_ip g.app_type g.sni ≡ false)

check_blocked-IsUpdated :
    (rules : BlockingRules) (t : FiveTuple) (size : ℕ) (f g : Flow)
    → IsNamed (count_packet t size f) g
    → IsUpdated rules t size f (check_blocked rules t.src_ip g)
unfolding check_blocked count_packet
check_blocked-IsUpdated rules t size f g h = ground arith

pub update_flow-IsUpdated :
    (rules : BlockingRules) (t : FiveTuple) (p : Bytes) (q : ParsedPacket) (f : Flow)
    → 15 ≤ length p
    → Returns (update_flow rules t p q f) (IsUpdated rules t (length p) f)
unfolding update_flow
update_flow-IsUpdated rules t p q f l =
    let start = count_packet t (length p) f in
    let (g, e, h) = try_sni-IsNamed p q start l in
    let (k, e', h') = try_host-IsNamed p q g l in
    let w = fallback-IsNamed q k in
    (
      check_blocked rules t.src_ip (try_port q (try_dns q k)),
      rw (e, e') refl,
      check_blocked-IsUpdated rules t (length p) f (try_port q (try_dns q k))
          (w.0 ∙ h'.0 ∙ h.0, w.1 ∙ h'.1 ∙ h.1, w.2 ∙ h'.2 ∙ h.2, w.3 ∙ h'.3 ∙ h.3),
    )
