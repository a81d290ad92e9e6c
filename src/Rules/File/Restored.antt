-- ===== src/Rules/File/Restored.antt =====
-- The rule manager that the loader builds, next to the one that was saved.
use deep_packet_analyzer.Base.{
  append_assoc, append-nil, ℕ, ◌≡◌, ◌↔◌, refl, sym, ap, ◌∙◌, Bool, true, false, ◌||◌, List, [], ◌∷◌,
  ◌++◌, arith, All, Bytes, equal, equal_iff, ==_iff,
}
use deep_packet_analyzer.App.{AppType, app_eq}
use deep_packet_analyzer.App.Name.{app_eq_iff}
use deep_packet_analyzer.Rules.{
  RuleManager, no_rules, num_eq, block_ip, block_app, block_domain, block_port, has_star,
  is_ip_blocked, is_app_blocked, is_domain_blocked, is_port_blocked, should_block,
}
use deep_packet_analyzer.Rules.Sets.{member, insert, member-insert}
use deep_packet_analyzer.Rules.File.Lines.{IsLine}
use deep_packet_analyzer.Rules.File.Entries.{IsItem, IsSavable, fold, restored}

module _ {ℓ} {A : Type ℓ} (eq : A → A → Bool) where
  abbrev insert_all : List A → List A → List A
  insert_all ys [] = ys
  insert_all ys (x ∷ xs) = insert_all (insert eq x ys) xs

  member-insert_all :
      (eq_iff : (a b : A) → (eq a b ≡ true) ↔ (a ≡ b)) (a : A) (ys xs : List A)
      → member eq a (insert_all ys xs) ≡ (member eq a xs || member eq a ys)
  unfolding member
  member-insert_all eq_iff a ys [] = refl
  member-insert_all eq_iff a ys (x ∷ xs) =
      ground (arith, member-insert_all eq_iff a (insert eq x ys) xs, member-insert eq eq_iff x a ys)

  restored_member :
      (eq_iff : (a b : A) → (eq a b ≡ true) ↔ (a ≡ b)) (a : A) (xs : List A)
      → member eq a (insert_all [] xs) ≡ member eq a xs
  unfolding member
  restored_member eq_iff a xs = ground (arith, member-insert_all eq_iff a [] xs)

fold_ips :
    (r : RuleManager) (xs : List ℕ)
    → fold block_ip r xs ≡ record r { blocked_ips = insert_all num_eq r.blocked_ips xs }
unfolding block_ip
fold_ips r [] = refl
fold_ips r (x ∷ xs) = fold_ips (block_ip r x) xs

fold_apps :
    (r : RuleManager) (xs : List AppType)
    → fold block_app r xs ≡ record r { blocked_apps = insert_all app_eq r.blocked_apps xs }
unfolding block_app
fold_apps r [] = refl
fold_apps r (x ∷ xs) = fold_apps (block_app r x) xs

fold_ports :
    (r : RuleManager) (xs : List ℕ)
    → fold block_port r xs ≡ record r { blocked_ports = insert_all num_eq r.blocked_ports xs }
unfolding block_port
fold_ports r [] = refl
fold_ports r (x ∷ xs) = fold_ports (block_port r x) xs

block_domain_exact :
    (r : RuleManager) (d : Bytes)
    → has_star d ≡ false
    → block_domain r d ≡ record r { blocked_domains = insert equal d r.blocked_domains }
unfolding block_domain
block_domain_exact r d h = ground (arith, h)

block_domain_star :
    (r : RuleManager) (d : Bytes)
    → has_star d ≡ true
    → block_domain r d ≡ record r { domain_patterns = r.domain_patterns ++ d ∷ [] }
unfolding block_domain
block_domain_star r d h = ground (arith, h)

fold_domains :
    (r : RuleManager) (xs : List Bytes)
    → All (λ (d : Bytes). (IsItem d × IsLine d) × (has_star d ≡ false)) xs
    → fold block_domain r xs ≡ record r { blocked_domains = insert_all equal r.blocked_domains xs }
fold_domains r [] h = refl
fold_domains r (x ∷ xs) h =
    ap (λ r'. fold block_domain r' xs) (block_domain_exact r x h.0.1)
    ∙ fold_domains (record r { blocked_domains = insert equal x r.blocked_domains }) xs h.1

fold_patterns :
    (r : RuleManager) (xs : List Bytes)
    → All (λ (d : Bytes). (IsItem d × IsLine d) × (has_star d ≡ true)) xs
    → fold block_domain r xs ≡ record r { domain_patterns = r.domain_patterns ++ xs }
fold_patterns r [] h =
    ap (λ ps. record r { domain_patterns = ps }) (sym (append-nil r.domain_patterns))
fold_patterns r (x ∷ xs) h =
    ap (λ r'. fold block_domain r' xs) (block_domain_star r x h.0.1)
    ∙ fold_patterns (record r { domain_patterns = r.domain_patterns ++ x ∷ [] }) xs h.1
    ∙ ap (λ ps. record r { domain_patterns = ps }) (append_assoc r.domain_patterns (x ∷ []) xs)

restored_lem :
    (r : RuleManager)
    → IsSavable r
    → restored r ≡ record {
      blocked_ips = insert_all num_eq [] r.blocked_ips;
      blocked_apps = insert_all app_eq [] r.blocked_apps;
      blocked_domains = insert_all equal [] r.blocked_domains;
      domain_patterns = r.domain_patterns;
      blocked_ports = insert_all num_eq [] r.blocked_ports;
    }
unfolding restored
restored_lem r h =
    let a = record no_rules { blocked_ips = insert_all num_eq [] r.blocked_ips } in
    let b = record a { blocked_apps = insert_all app_eq [] r.blocked_apps } in
    let c = record b { blocked_domains = insert_all equal [] r.blocked_domains } in
    let d = record c { domain_patterns = r.domain_patterns } in
    let all_ports : RuleManager → RuleManager = λ q. fold block_port q r.blocked_ports in
    let all_patterns : RuleManager → RuleManager = λ q. fold block_domain q r.domain_patterns in
    let all_domains : RuleManager → RuleManager = λ q. fold block_domain q r.blocked_domains in
    let all_apps : RuleManager → RuleManager = λ q. fold block_app q r.blocked_apps in
    ap (λ q. all_ports (all_patterns (all_domains (all_apps q)))) (fold_ips no_rules r.blocked_ips)
    ∙ ap (λ q. all_ports (all_patterns (all_domains q))) (fold_apps a r.blocked_apps)
    ∙ ap (λ q. all_ports (all_patterns q)) (fold_domains b r.blocked_domains h.domains)
    ∙ ap all_ports (fold_patterns c r.domain_patterns h.patterns)
    ∙ fold_ports d r.blocked_ports

pub restored-should_block :
    (r : RuleManager)
    → IsSavable r
    → (src_ip dst_port : ℕ) (app : AppType) (domain : Bytes)
    → should_block (restored r) src_ip dst_port app domain
      ≡ should_block r src_ip dst_port app domain
restored-should_block r h i p a d =
    ap (λ q. should_block q i p a d) (restored_lem r h)
    ∙ unfold should_block is_ip_blocked is_port_blocked is_app_blocked is_domain_blocked in
      ground (
        arith,
        restored_member num_eq ==_iff i r.blocked_ips,
        restored_member num_eq ==_iff p r.blocked_ports,
        restored_member app_eq app_eq_iff a r.blocked_apps,
        restored_member equal equal_iff d r.blocked_domains,
      )
