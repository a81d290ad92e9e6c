-- ===== src/Rules/File/RoundTrip.antt =====
-- Saving the rules and loading the file into an empty rule manager.
use deep_packet_analyzer.Base.{
  append_assoc, append-nil, ℕ, ◌^◌, ◌<◌, ◌≡◌, ◌≢◌, sym, ap, ◌∙◌, List, [], ◌∷◌, ◌++◌, map, All,
  Bytes, show_nat, ok, Returns,
}
use deep_packet_analyzer.App.{AppType, app_count, app_type_to_string}
use deep_packet_analyzer.Ip.{ip_to_string}
use deep_packet_analyzer.Rules.{
  RuleManager, no_rules, block_ip, block_app, block_domain, block_port, get_blocked_ips,
  get_blocked_apps, get_blocked_domains, should_block,
}
use deep_packet_analyzer.Rules.File.{
  saved_lines, save_rules, ips_header, apps_header, domains_header, ports_header, load_lines,
  load_rules,
}
use deep_packet_analyzer.Rules.File.Lines.{IsLine, split_lines-put_lines}
use deep_packet_analyzer.Rules.File.Entries.{
  IsItem, IsSavable, fold, restored, load_items, load_ip, load_app, load_domain, load_port,
  map_self, ports_of,
}
use deep_packet_analyzer.Rules.File.Restored.{restored-should_block}
use deep_packet_analyzer.Rules.File.Text.{saved_lines-IsLine}

load_domains :
    (P : Bytes → Type 0)
    → ((d : Bytes) → P d → IsItem d × IsLine d)
    → (r : RuleManager) (ds rest : List Bytes) → All P ds
    → load_lines domains_header r (ds ++ rest)
      ≡ load_lines domains_header (fold block_domain r ds) rest
load_domains P sub r ds rest h =
    ap (λ ls. load_lines domains_header r (ls ++ rest)) (sym (map_self ds))
    ∙ load_items P domains_header (λ d. d) block_domain (λ q d k. load_domain q d (sub d k)) r ds
        rest h

load_ports :
    (r q : RuleManager)
    → IsSavable r
    → (section : Bytes) → load_lines section q (ports_of r) ≡ ok (fold block_port q r.blocked_ports)
unfolding ports_of load_lines
load_ports r q h section =
    ap (load_lines ports_header q) (sym (append-nil (map show_nat r.blocked_ports)))
    ∙ load_items (λ p. p < 2 ^ 16) ports_header show_nat block_port load_port q r.blocked_ports []
        h.ports

load_saved :
    (r : RuleManager) → IsSavable r → load_lines [] no_rules (saved_lines r) ≡ ok (restored r)
unfolding saved_lines load_lines ports_of restored get_blocked_ips get_blocked_apps
    get_blocked_domains
load_saved r h =
    let a = fold block_ip no_rules r.blocked_ips in
    let b = fold block_app a r.blocked_apps in
    let c = fold block_domain b r.blocked_domains in
    load_items (λ p. p < 2 ^ 32) ips_header ip_to_string block_ip load_ip no_rules r.blocked_ips _
      h.ips
    ∙ load_items (λ p. p ≢ app_count) apps_header app_type_to_string block_app load_app a
        r.blocked_apps _ h.apps
    ∙ ap (load_lines domains_header b)
        (append_assoc r.blocked_domains r.domain_patterns ([] ∷ ports_of r))
    ∙ load_domains _ (λ d k. k.0) b r.blocked_domains _ h.domains
    ∙ load_domains _ (λ d k. k.0) c r.domain_patterns _ h.patterns
    ∙ load_ports r (fold block_domain c r.domain_patterns) h domains_header

-- Savable rules that are saved and loaded into an empty rule manager decide every packet as before.
pub load_rules-save_rules :
    (r : RuleManager)
    → IsSavable r
    → Returns (load_rules no_rules (save_rules r)) (λ r'.
      (src_ip dst_port : ℕ) (app : AppType) (domain : Bytes)
      → should_block r' src_ip dst_port app domain ≡ should_block r src_ip dst_port app domain)
unfolding load_rules save_rules
load_rules-save_rules r h = (
  restored r,
  ap (load_lines [] no_rules) (split_lines-put_lines (saved_lines r) (saved_lines-IsLine r h))
      ∙ load_saved r h,
  restored-should_block r h,
)
