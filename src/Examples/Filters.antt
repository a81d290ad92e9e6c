-- ===== src/Examples/Filters.antt =====
-- A few rules, and the file they are saved to.
use deep_packet_analyzer.Base.{
  ℕ, ◌≡◌, ◌⊎◌, ◌↔◌, refl, true, false, ◌||◌, none, [], ◌∷◌, ◌++◌, map, to_lower, Bytes, codes,
  arith, Returns, if◌then◌else◌, equal,
}
use deep_packet_analyzer.App.{AppType, youtube, tiktok}
use deep_packet_analyzer.Rules.{
  RuleManager, no_rules, has_star, is_ip_blocked, is_app_blocked, is_port_blocked, block_domain,
  unblock_domain, is_domain_blocked, domain_matches_pattern, should_block,
}
use deep_packet_analyzer.Rules.Decide.{should_block-eq-none_iff, is_domain_blocked-block_domain}
use deep_packet_analyzer.Rules.Pattern.{
  domain_matches_pattern_iff, block_domain_inert, unblock_domain-twice,
}
use deep_packet_analyzer.Rules.File.{save_rules, load_rules}
use deep_packet_analyzer.Rules.File.Entries.{IsSavable}
use deep_packet_analyzer.Rules.File.RoundTrip.{load_rules-save_rules}
use deep_packet_analyzer.Base.{starts}

abbrev some_rules : RuleManager
some_rules = record {
  blocked_ips = 0x0101a8c0 ∷ [];
  blocked_apps = youtube ∷ [];
  blocked_domains = codes "a.example" ∷ [];
  domain_patterns = codes "*.b.example" ∷ [];
  blocked_ports = 8080 ∷ [];
}

some_rules-IsSavable : IsSavable some_rules
unfolding has_star
some_rules-IsSavable = record {
  ips = (omega arith, tt);
  apps = (ground arith, tt);
  domains = (
    (
      (
        ground arith,
        (
          ground arith,
          (
            ground arith,
            (
              ground arith,
              (
                ground arith,
                (ground arith, (ground arith, (ground arith, (ground arith, (ground arith, tt))))),
              ),
            ),
          ),
        ),
      ),
      refl,
    ),
    tt,
  );
  patterns = (
    (
      (
        ground arith,
        (
          ground arith,
          (
            ground arith,
            (
              ground arith,
              (
                ground arith,
                (
                  ground arith,
                  (
                    ground arith,
                    (
                      ground arith,
                      (ground arith, (ground arith, (ground arith, (ground arith, tt)))),
                    ),
                  ),
                ),
              ),
            ),
          ),
        ),
      ),
      refl,
    ),
    tt,
  );
  ports = (omega arith, tt);
}

load_rules-save_rules_example : Returns (load_rules no_rules (save_rules some_rules)) (λ r'.
    (src_ip dst_port : ℕ) (app : AppType) (domain : Bytes)
    → should_block r' src_ip dst_port app domain
      ≡ should_block some_rules src_ip dst_port app domain)
load_rules-save_rules_example = load_rules-save_rules some_rules some_rules-IsSavable

should_block-eq-none_iff_example :
    (should_block some_rules 1 443 tiktok (codes "x.b.example") ≡ none) ↔ (
      (is_ip_blocked some_rules 1 ≡ false)
      × (is_port_blocked some_rules 443 ≡ false)
      × (is_app_blocked some_rules tiktok ≡ false)
      × ((codes "x.b.example" ≡ []) ⊎ (is_domain_blocked some_rules (codes "x.b.example") ≡ false)))
should_block-eq-none_iff_example =
    should_block-eq-none_iff some_rules 1 443 tiktok (codes "x.b.example")

is_domain_blocked-block_domain_example :
    is_domain_blocked (block_domain some_rules (codes "*.c.example")) (codes "x.c.example") ≡ (
      (if has_star (codes "*.c.example")
        then domain_matches_pattern
            (map to_lower (codes "x.c.example"))
            (map to_lower (codes "*.c.example"))
        else equal (codes "*.c.example") (codes "x.c.example"))
      || is_domain_blocked some_rules (codes "x.c.example"))
is_domain_blocked-block_domain_example =
    is_domain_blocked-block_domain some_rules (codes "*.c.example") (codes "x.c.example")

domain_matches_pattern_iff_example :
    (domain_matches_pattern (codes "x.c") (b'*' ∷ b'.' ∷ codes "c") ≡ true)
    ↔ ((codes "x.c" ≡ codes "c") ⊎ ((pre : Bytes) × (codes "x.c" ≡ pre ++ (b'.' ∷ codes "c"))))
domain_matches_pattern_iff_example = domain_matches_pattern_iff (codes "c") (codes "x.c")

ads-has_star : has_star (codes "ads*.c") ≡ true
unfolding has_star
ads-has_star = refl

ads-starts : starts (codes "*.") (codes "ads*.c") ≡ false
unfolding starts
ads-starts = refl

block_domain_inert_example :
    is_domain_blocked (block_domain some_rules (codes "ads*.c")) (codes "ads1.c")
    ≡ is_domain_blocked some_rules (codes "ads1.c")
block_domain_inert_example =
    block_domain_inert some_rules (codes "ads*.c") (codes "ads1.c") ads-has_star ads-starts

unblock_domain-twice_example :
    is_domain_blocked
      (unblock_domain
        (block_domain (block_domain some_rules (codes "ads*.c")) (codes "ads*.c"))
        (codes "ads*.c"))
      (codes "x.c")
    ≡ is_domain_blocked (block_domain some_rules (codes "ads*.c")) (codes "x.c")
unblock_domain-twice_example =
    unblock_domain-twice some_rules (codes "ads*.c") (codes "x.c") ads-has_star
