-- ===== src/Simple/Blocking.antt =====
-- What each rule of the single-threaded program adds.
use deep_packet_analyzer.Base.{
  ℕ, ◌≡◌, ◌<◌, ◌^◌, refl, ap, ◌∙◌, some, ◌||◌, List, [], ◌∷◌, ◌++◌, ==_iff, arith, Bytes, contains,
  Returns, ◌≢◌,
}
use deep_packet_analyzer.App.{AppType, app_count, app_eq, string_to_app_type, app_type_to_string}
use deep_packet_analyzer.App.Name.{app_eq_iff, string_to_app_type-app_type_to_string}
use deep_packet_analyzer.Ip.{ip_to_string}
use deep_packet_analyzer.Ip.RoundTrip.{parse_ip-ip_to_string}
use deep_packet_analyzer.Rules.{num_eq}
use deep_packet_analyzer.Rules.Sets.{insert, member-insert}
use deep_packet_analyzer.Simple.{
  BlockingRules, block_ip, block_app, block_domain, any_domain, is_blocked,
}

any_domain-append :
    (sni : Bytes) (ds es : List Bytes)
    → any_domain sni (ds ++ es) ≡ (any_domain sni ds || any_domain sni es)
unfolding any_domain
any_domain-append sni [] es = refl
any_domain-append sni (d ∷ ds) es = ground (arith, any_domain-append sni ds es)

block_app_found :
    (r : BlockingRules) (app : AppType) (name : Bytes)
    → string_to_app_type name ≡ some app
    → block_app r name ≡ record r { blocked_apps = insert app_eq app r.blocked_apps }
unfolding block_app
block_app_found r app name e = rw (e, block_app) refl

-- Each rule blocks, on top of what was blocked before: the packets from the address, the flows of
-- the application that is printed so, and the flows whose name contains the domain.
pub is_blocked-rules :
    (r : BlockingRules) (ip : ℕ) (app : AppType) (domain : Bytes) (src : ℕ) (seen : AppType)
    (sni : Bytes)
    → ip < 2 ^ 32
    → app ≢ app_count
    → Returns
        (block_ip r (ip_to_string ip))
        (λ r'. is_blocked r' src seen sni ≡ (num_eq ip src || is_blocked r src seen sni))
      × (is_blocked (block_app r (app_type_to_string app)) src seen sni
          ≡ (app_eq app seen || is_blocked r src seen sni))
      × (is_blocked (block_domain r domain) src seen sni
          ≡ (contains domain sni || is_blocked r src seen sni))
unfolding is_blocked block_ip block_domain any_domain
is_blocked-rules r ip app domain src seen sni h n =
    let e = parse_ip-ip_to_string ip h in
    let k = string_to_app_type-app_type_to_string app n in
    (
      (
        record r { blocked_ips = insert num_eq ip r.blocked_ips },
        rw e refl,
        ground (arith, member-insert num_eq ==_iff ip src r.blocked_ips),
      ),
      ap (λ (x : BlockingRules). is_blocked x src seen sni)
            (block_app_found r app (app_type_to_string app) k)
          ∙ ground (arith, member-insert app_eq app_eq_iff app seen r.blocked_apps),
      ground (arith, any_domain-append sni r.blocked_domains (domain ∷ [])),
    )
