-- ===== src/Rules/Decide.antt =====
-- What the rules decide, and how each change of the rules changes it.
use deep_packet_analyzer.Base.{
  ℕ, ◌≡◌, ◌↔◌, ◌⊎◌, refl, false, not, ◌&&◌, ◌||◌, List, [], ◌∷◌, ◌++◌, map, none, if◌then◌else◌,
  arith, Bytes, equal, equal_iff, ==_iff, to_lower,
}
use deep_packet_analyzer.App.{AppType, app_eq}
use deep_packet_analyzer.App.Name.{app_eq_iff}
use deep_packet_analyzer.Rules.{
  RuleManager, num_eq, block_ip, unblock_ip, is_ip_blocked, block_app, unblock_app, is_app_blocked,
  has_star, block_domain, domain_matches_pattern, any_pattern, is_domain_blocked, block_port,
  unblock_port, is_port_blocked, should_block,
}
use deep_packet_analyzer.Rules.Sets.{member-insert, member-erase}

-- A packet passes exactly when its source address, its port and its application are not blocked,
-- and its domain is empty or not blocked.
pub should_block-eq-none_iff :
    (r : RuleManager) (src_ip dst_port : ℕ) (app : AppType) (domain : Bytes)
    → (should_block r src_ip dst_port app domain ≡ none) ↔ (
        (is_ip_blocked r src_ip ≡ false)
        × (is_port_blocked r dst_port ≡ false)
        × (is_app_blocked r app ≡ false)
        × ((domain ≡ []) ⊎ (is_domain_blocked r domain ≡ false)))
unfolding should_block
should_block-eq-none_iff r src_ip dst_port app [] = ground arith
should_block-eq-none_iff r src_ip dst_port app (c ∷ cs) = ground arith

-- Blocking an address, an application or a port blocks that one, unblocking it lets that one pass,
-- and neither changes the answer for any other.
pub block_unblock :
    (r : RuleManager) (i j p q : ℕ) (a b : AppType)
    → (is_ip_blocked (block_ip r i) j ≡ (num_eq i j || is_ip_blocked r j))
      × (is_ip_blocked (unblock_ip r i) j ≡ (not (num_eq i j) && is_ip_blocked r j))
      × (is_port_blocked (block_port r p) q ≡ (num_eq p q || is_port_blocked r q))
      × (is_port_blocked (unblock_port r p) q ≡ (not (num_eq p q) && is_port_blocked r q))
      × (is_app_blocked (block_app r a) b ≡ (app_eq a b || is_app_blocked r b))
      × (is_app_blocked (unblock_app r a) b ≡ (not (app_eq a b) && is_app_blocked r b))
unfolding is_ip_blocked block_ip unblock_ip is_port_blocked block_port unblock_port is_app_blocked
    block_app unblock_app
block_unblock r i j p q a b = (
  member-insert num_eq ==_iff i j r.blocked_ips,
  member-erase num_eq ==_iff i j r.blocked_ips,
  member-insert num_eq ==_iff p q r.blocked_ports,
  member-erase num_eq ==_iff p q r.blocked_ports,
  member-insert app_eq app_eq_iff a b r.blocked_apps,
  member-erase app_eq app_eq_iff a b r.blocked_apps,
)

pub any_pattern-append :
    (d : Bytes) (ps qs : List Bytes)
    → any_pattern d (ps ++ qs) ≡ (any_pattern d ps || any_pattern d qs)
unfolding any_pattern
any_pattern-append d [] qs = refl
any_pattern-append d (p ∷ ps) qs = ground (arith, any_pattern-append d ps qs)

-- Blocking a domain adds to what is blocked: a name with a star, the domains that match it in lower
-- case; any other, that very name.
pub is_domain_blocked-block_domain :
    (r : RuleManager) (rule domain : Bytes)
    → is_domain_blocked (block_domain r rule) domain ≡ (
        (if has_star rule
          then domain_matches_pattern (map to_lower domain) (map to_lower rule)
          else equal rule domain)
        || is_domain_blocked r domain)
unfolding is_domain_blocked block_domain any_pattern
is_domain_blocked-block_domain r rule domain = ground (
  arith,
  any_pattern-append (map to_lower domain) r.domain_patterns (rule ∷ []),
  member-insert equal equal_iff rule domain r.blocked_domains,
)
