-- ===== src/Rules/File/Text.antt =====
-- What `saveRules` writes is cut into its lines again.
use deep_packet_analyzer.Base.{
  ℕ, ◌≡◌, ◌≢◌, refl, subst, Bool, true, false, not, ◌&&◌, List, [], ◌∷◌, ◌++◌, map, arith, ◌==◌,
  All, Bytes, IsDigit, show_nat, show_nat-digits,
}
use deep_packet_analyzer.App.{AppType, unknown, app_type_to_string}
use deep_packet_analyzer.Ip.{ip_to_string, octet}
use deep_packet_analyzer.Rules.{
  RuleManager, has_star, get_blocked_ips, get_blocked_apps, get_blocked_domains,
}
use deep_packet_analyzer.Rules.File.{
  saved_lines, ips_header, apps_header, domains_header, ports_header,
}
use deep_packet_analyzer.Rules.File.Lines.{IsLine}
use deep_packet_analyzer.Rules.File.Entries.{IsItem, IsSavable, map_self, ports_of, domains_of}

module _ {ℓ κ} {A : Type ℓ} (P : A → Type κ) where
  All-append : (xs ys : List A) → All P xs → All P ys → All P (xs ++ ys)
  All-append [] ys h k = k
  All-append (x ∷ xs) ys h k = (h.0, All-append xs ys h.1 k)

All-map {ℓ κ μ} :
    {A : Type ℓ} {B : Type κ} (Q : A → Type μ) (P : B → Type 0) (f : A → B)
    → ((a : A) → Q a → P (f a))
    → (xs : List A) → All Q xs
    → All P (map f xs)
All-map Q P f one [] h = tt
All-map Q P f one (x ∷ xs) h = (one x h.0, All-map Q P f one xs h.1)

digits-IsLine : (l : Bytes) → All IsDigit l → IsLine l
digits-IsLine [] h = tt
digits-IsLine (c ∷ cs) h = (ground (arith, h.0), digits-IsLine cs h.1)

show_nat-IsLine : (n : ℕ) → IsLine (show_nat n)
show_nat-IsLine n = digits-IsLine (show_nat n) (show_nat-digits n)

dotted-IsLine : (n : ℕ) (rest : Bytes) → IsLine rest → IsLine (show_nat n ++ (b'.' ∷ rest))
dotted-IsLine n rest h =
    All-append (λ (c : ℕ). c ≢ b'\n') (show_nat n) (b'.' ∷ rest) (show_nat-IsLine n)
      (ground arith, h)

ip_to_string-IsLine : (ip : ℕ) → IsLine (ip_to_string ip)
unfolding ip_to_string
ip_to_string-IsLine ip =
    dotted-IsLine (octet ip 0) _
      (dotted-IsLine (octet ip 8) _ (dotted-IsLine (octet ip 16) _ (show_nat-IsLine (octet ip 24))))

is_line : Bytes → Bool
is_line [] = true
is_line (c ∷ cs) = not (c == b'\n') && is_line cs

is_line-IsLine : (l : Bytes) → is_line l ≡ true → IsLine l
unfolding is_line
is_line-IsLine [] h = tt
is_line-IsLine (c ∷ cs) h = (ground (arith, h), is_line-IsLine cs (ground (arith, h)))

app-is_line : (a : AppType) → is_line (app_type_to_string a) ≡ true
unfolding app_type_to_string is_line
app-is_line unknown = refl
app-is_line _ = refl

names-IsLine :
    (b : Bool) (ds : List Bytes)
    → All (λ (d : Bytes). (IsItem d × IsLine d) × (has_star d ≡ b)) ds
    → All IsLine ds
names-IsLine b ds k =
    subst (All IsLine) (map_self ds) (All-map _ IsLine (λ d. d) (λ d q. q.0.1) ds k)

numbers-IsLine : (xs : List ℕ) → All IsLine (map show_nat xs)
numbers-IsLine [] = tt
numbers-IsLine (x ∷ xs) = (show_nat-IsLine x, numbers-IsLine xs)

ports-IsLine : (r : RuleManager) → All IsLine (ports_of r)
unfolding ports_of is_line
ports-IsLine r = (is_line-IsLine ports_header refl, numbers-IsLine r.blocked_ports)

domains-IsLine : (r : RuleManager) → IsSavable r → All IsLine (domains_of r)
unfolding domains_of is_line
domains-IsLine r h = (
  is_line-IsLine domains_header refl,
  All-append IsLine (r.blocked_domains ++ r.domain_patterns) ([] ∷ ports_of r)
      (All-append IsLine r.blocked_domains r.domain_patterns (names-IsLine false _ h.domains)
        (names-IsLine true _ h.patterns))
      (tt, ports-IsLine r),
)

pub saved_lines-IsLine : (r : RuleManager) → IsSavable r → All IsLine (saved_lines r)
unfolding saved_lines get_blocked_ips get_blocked_apps get_blocked_domains is_line domains_of
saved_lines-IsLine r h = (
  is_line-IsLine ips_header refl,
  All-append IsLine (map ip_to_string r.blocked_ips) _
      (All-map _ IsLine ip_to_string (λ a q. ip_to_string-IsLine a) r.blocked_ips h.ips)
      (
        tt,
        (
          is_line-IsLine apps_header refl,
          All-append IsLine (map app_type_to_string r.blocked_apps) ([] ∷ domains_of r)
              (All-map _ IsLine app_type_to_string (λ a q. is_line-IsLine _ (app-is_line a))
                r.blocked_apps h.apps)
              (tt, domains-IsLine r h),
        ),
      ),
)
