-- ===== src/Rules.antt =====
-- The rule manager: include/rule_manager.h and src/rule_manager.cpp. The locks make each operation
-- atomic, so an operation is a function on the whole state; the lines it prints are left out.
use deep_packet_analyzer.Base.{
  ℕ, zero, suc, ◌+◌, ◌-◌, ◌^◌, ◌%◌, Bool, true, false, not, ◌&&◌, ◌||◌, List, [], ◌∷◌, ◌++◌, map,
  Option, none, some, leb, ◌==◌, if◌then◌else◌, length, drop, Bytes, codes, equal, contains,
  to_lower, show_nat, Result, ok, err, ◌>>=◌,
}
use deep_packet_analyzer.App.{AppType, app_eq, app_type_to_string}
use deep_packet_analyzer.Ip.{parse_ip, ip_to_string}
pub mod Sets
pub mod Decide
pub mod Pattern
pub mod File
use Sets.{member, insert, erase, erase_first}

-- The sets of the source, each with its elements in the order of iteration.
pub record RuleManager : Type 0 where
  pub blocked_ips : List ℕ
  pub blocked_apps : List AppType
  pub blocked_domains : List Bytes
  pub domain_patterns : List Bytes
  pub blocked_ports : List ℕ

abbrev pub no_rules : RuleManager
no_rules = record {
  blocked_ips = [];
  blocked_apps = [];
  blocked_domains = [];
  domain_patterns = [];
  blocked_ports = [];
}

abbrev pub num_eq : ℕ → ℕ → Bool
num_eq a b = a == b

unfoldable pub block_ip : RuleManager → ℕ → RuleManager
block_ip r ip = record r { blocked_ips = insert num_eq ip r.blocked_ips }

unfoldable pub block_ip_text : RuleManager → Bytes → Result RuleManager
block_ip_text r ip = do a ← parse_ip ip; ok (block_ip r a)

unfoldable pub unblock_ip : RuleManager → ℕ → RuleManager
unblock_ip r ip = record r { blocked_ips = erase num_eq ip r.blocked_ips }

unfoldable pub unblock_ip_text : RuleManager → Bytes → Result RuleManager
unblock_ip_text r ip = do a ← parse_ip ip; ok (unblock_ip r a)

unfoldable pub is_ip_blocked : RuleManager → ℕ → Bool
is_ip_blocked r ip = member num_eq ip r.blocked_ips

unfoldable pub get_blocked_ips : RuleManager → List Bytes
get_blocked_ips r = map ip_to_string r.blocked_ips

unfoldable pub block_app : RuleManager → AppType → RuleManager
block_app r app = record r { blocked_apps = insert app_eq app r.blocked_apps }

unfoldable pub unblock_app : RuleManager → AppType → RuleManager
unblock_app r app = record r { blocked_apps = erase app_eq app r.blocked_apps }

unfoldable pub is_app_blocked : RuleManager → AppType → Bool
is_app_blocked r app = member app_eq app r.blocked_apps

unfoldable pub get_blocked_apps : RuleManager → List AppType
get_blocked_apps r = r.blocked_apps

-- `domain.find('*') != npos`.
unfoldable pub has_star : Bytes → Bool
has_star [] = false
has_star (c ∷ cs) = c == b'*' || has_star cs

-- A pattern is appended; any other domain goes into the set.
unfoldable pub block_domain : RuleManager → Bytes → RuleManager
block_domain r domain =
    if has_star domain
    then record r { domain_patterns = r.domain_patterns ++ domain ∷ [] }
    else record r { blocked_domains = insert equal domain r.blocked_domains }

-- Of the patterns only the first equal one is erased.
unfoldable pub unblock_domain : RuleManager → Bytes → RuleManager
unblock_domain r domain =
    if has_star domain
    then record r { domain_patterns = erase_first domain r.domain_patterns }
    else record r { blocked_domains = erase equal domain r.blocked_domains }

-- `domain.compare(domain.size() - suffix.size(), suffix.size(), suffix) == 0`, where it fits.
unfoldable pub ends_with : Bytes → Bytes → Bool
ends_with suffix domain =
    leb (length suffix) (length domain)
    && equal (drop (length domain - length suffix) domain) suffix

-- `domainMatchesPattern`: only a pattern that begins with "*." matches anything.
unfoldable pub domain_matches_pattern : Bytes → Bytes → Bool
domain_matches_pattern domain [] = false
domain_matches_pattern domain (star ∷ []) = false
domain_matches_pattern domain (star ∷ dot ∷ rest) =
    (star == b'*' && dot == b'.') && (ends_with (dot ∷ rest) domain || equal domain rest)

-- The loop over the patterns, with the domain in lower case.
unfoldable pub any_pattern : Bytes → List Bytes → Bool
any_pattern domain [] = false
any_pattern domain (p ∷ ps) =
    domain_matches_pattern domain (map to_lower p) || any_pattern domain ps

unfoldable pub is_domain_blocked : RuleManager → Bytes → Bool
is_domain_blocked r domain =
    member equal domain r.blocked_domains || any_pattern (map to_lower domain) r.domain_patterns

unfoldable pub get_blocked_domains : RuleManager → List Bytes
get_blocked_domains r = r.blocked_domains ++ r.domain_patterns

unfoldable pub block_port : RuleManager → ℕ → RuleManager
block_port r port = record r { blocked_ports = insert num_eq port r.blocked_ports }

unfoldable pub unblock_port : RuleManager → ℕ → RuleManager
unblock_port r port = record r { blocked_ports = erase num_eq port r.blocked_ports }

unfoldable pub is_port_blocked : RuleManager → ℕ → Bool
is_port_blocked r port = member num_eq port r.blocked_ports

pub data BlockType : Type 0 where
  ip app domain port : BlockType

pub record BlockReason : Type 0 where
  pub kind : BlockType
  pub detail : Bytes

-- `domain.empty()`.
abbrev pub is_empty : Bytes → Bool
is_empty [] = true
is_empty (c ∷ cs) = false

unfoldable pub should_block : RuleManager → ℕ → ℕ → AppType → Bytes → Option BlockReason
should_block r src_ip dst_port a d =
    if is_ip_blocked r src_ip
    then some (record { kind = ip; detail = ip_to_string src_ip })
    else if is_port_blocked r dst_port
    then some (record { kind = port; detail = show_nat dst_port })
    else if is_app_blocked r a
    then some (record { kind = app; detail = app_type_to_string a })
    else if not (is_empty d) && is_domain_blocked r d
    then some (record { kind = domain; detail = d })
    else none

unfoldable pub clear_all : RuleManager → RuleManager
clear_all r = record r {
  blocked_ips = [];
  blocked_apps = [];
  blocked_domains = [];
  domain_patterns = [];
  blocked_ports = [];
}

pub record RuleStats : Type 0 where
  pub ips : ℕ
  pub apps : ℕ
  pub domains : ℕ
  pub ports : ℕ

unfoldable pub get_stats : RuleManager → RuleStats
get_stats r = record {
  ips = length r.blocked_ips;
  apps = length r.blocked_apps;
  domains = length r.blocked_domains + length r.domain_patterns;
  ports = length r.blocked_ports;
}
