-- ===== src/Rules/File/Entries.antt =====
-- The lines of each section of the file of rules, and what loading one does.
use deep_packet_analyzer.Base.{
  append-nil, ℕ, ◌^◌, ◌<◌, ◌≡◌, ◌≢◌, refl, sym, ap, ◌∙◌, subst, true, false, List, [], ◌∷◌, ◌++◌,
  map, arith, All, Bytes, equal, show_nat, show_nat-cases, ok, ◌>>=◌,
}
use deep_packet_analyzer.App.{AppType, app_count, unknown, app_type_to_string}
use deep_packet_analyzer.App.Name.{string_to_app_type-app_type_to_string}
use deep_packet_analyzer.Ip.{ip_to_string, octet}
use deep_packet_analyzer.Ip.RoundTrip.{parse_ip-ip_to_string}
use deep_packet_analyzer.Rules.{
  RuleManager, no_rules, block_ip, block_ip_text, block_app, block_domain, block_port, has_star,
}
use deep_packet_analyzer.Rules.File.{
  ips_header, apps_header, domains_header, ports_header, load_entry, load_lines, block_named,
}
use deep_packet_analyzer.Rules.File.Lines.{IsLine, stoi_u16-show_nat}

-- A line that is neither empty nor a header.
abbrev pub IsItem : Bytes → Type 0
IsItem [] = ⊥
IsItem (c ∷ cs) = c ≢ b'['

module _ {ℓ} {A : Type ℓ} where
  abbrev pub fold : (RuleManager → A → RuleManager) → RuleManager → List A → RuleManager
  fold step r [] = r
  fold step r (a ∷ xs) = fold step (step r a) xs

load_item :
    (section : Bytes) (r r' : RuleManager) (l : Bytes) (rest : List Bytes)
    → IsItem l
    → load_entry section r l ≡ ok r'
    → load_lines section r (l ∷ rest) ≡ load_lines section r' rest
unfolding load_lines
load_item section r r' [] rest h e = absurd h
load_item section r r' (c ∷ cs) rest h e = ground (arith, e)

-- The lines of one section are its elements, loaded one after the other.
pub load_items {ℓ κ} :
    {A : Type ℓ} (P : A → Type κ) (section : Bytes) (f : A → Bytes)
    (step : RuleManager → A → RuleManager)
    → ((r : RuleManager) (a : A)
        → P a
        → IsItem (f a) × (load_entry section r (f a) ≡ ok (step r a)))
    → (r : RuleManager) (xs : List A) (rest : List Bytes) → All P xs
    → load_lines section r (map f xs ++ rest) ≡ load_lines section (fold step r xs) rest
load_items P section f step one r [] rest h = refl
load_items P section f step one r (a ∷ xs) rest h =
    let (i, e) = one r a h.0 in
    load_item section r (step r a) (f a) (map f xs ++ rest) i e
    ∙ load_items P section f step one (step r a) xs rest h.1

show_nat-IsItem : (n : ℕ) (rest : Bytes) → IsItem (show_nat n ++ rest)
show_nat-IsItem n rest =
    let (c, cs, e, d) = show_nat-cases n in
    subst (λ t. IsItem (t ++ rest)) (sym e) (ground (arith, d))

pub load_ip :
    (r : RuleManager) (ip : ℕ)
    → ip < 2 ^ 32
    → IsItem (ip_to_string ip) × (load_entry ips_header r (ip_to_string ip) ≡ ok (block_ip r ip))
unfolding load_entry equal block_ip_text
load_ip r ip h = (
  unfold ip_to_string in show_nat-IsItem (octet ip 0) _,
  ap (λ p. p >>= λ a. ok (block_ip r a)) (parse_ip-ip_to_string ip h),
)

app-IsItem : (a : AppType) → IsItem (app_type_to_string a)
unfolding app_type_to_string
app-IsItem unknown = ground arith
app-IsItem _ = ground arith

pub load_app :
    (r : RuleManager) (a : AppType)
    → a ≢ app_count
    → IsItem (app_type_to_string a)
      × (load_entry apps_header r (app_type_to_string a) ≡ ok (block_app r a))
unfolding load_entry equal
load_app r a h =
    (app-IsItem a, ap (λ o. ok (block_named r o)) (string_to_app_type-app_type_to_string a h))

pub load_domain :
    (r : RuleManager) (d : Bytes)
    → IsItem d × IsLine d
    → IsItem d × (load_entry domains_header r d ≡ ok (block_domain r d))
unfolding load_entry equal
load_domain r d h = (h.0, refl)

pub load_port :
    (r : RuleManager) (p : ℕ)
    → p < 2 ^ 16
    → IsItem (show_nat p) × (load_entry ports_header r (show_nat p) ≡ ok (block_port r p))
unfolding load_entry equal
load_port r p h = (
  subst IsItem (append-nil (show_nat p)) (show_nat-IsItem p []),
  ap (λ q. q >>= λ a. ok (block_port r a)) (stoi_u16-show_nat p h),
)

-- Rules that the file can hold: addresses and ports in range, no end marker among the
-- applications, names on one line that does not begin with '[', and the names with a star among
-- the patterns.
pub record IsSavable (r : RuleManager) : Type 0 where
  pub ips : All (λ (ip : ℕ). ip < 2 ^ 32) r.blocked_ips
  pub apps : All (λ (a : AppType). a ≢ app_count) r.blocked_apps
  pub domains : All (λ (d : Bytes). (IsItem d × IsLine d) × (has_star d ≡ false)) r.blocked_domains
  pub patterns : All (λ (d : Bytes). (IsItem d × IsLine d) × (has_star d ≡ true)) r.domain_patterns
  pub ports : All (λ (p : ℕ). p < 2 ^ 16) r.blocked_ports

-- What the loader does to an empty rule manager.
unfoldable pub restored : RuleManager → RuleManager
restored r =
    let a = fold block_ip no_rules r.blocked_ips in
    let b = fold block_app a r.blocked_apps in
    let c = fold block_domain (fold block_domain b r.blocked_domains) r.domain_patterns in
    fold block_port c r.blocked_ports

pub map_self : (ls : List Bytes) → map (λ (l : Bytes). l) ls ≡ ls
map_self [] = refl
map_self (l ∷ ls) = ap (◌∷◌ l) (map_self ls)

unfoldable pub ports_of : RuleManager → List Bytes
ports_of r = ports_header ∷ map show_nat r.blocked_ports

unfoldable pub domains_of : RuleManager → List Bytes
unfolding ports_of
domains_of r = domains_header ∷ ((r.blocked_domains ++ r.domain_patterns) ++ ([] ∷ ports_of r))
