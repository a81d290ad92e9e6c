-- ===== src/Engine/Api.antt =====
-- The rule interface of the engine, src/dpi_engine.cpp. The rule manager is there once the engine
-- is initialized.
use deep_packet_analyzer.Base.{
  ◌≡◌, ◌≢◌, refl, not, ◌&&◌, ◌||◌, Bool, Option, none, some, Bytes, Result, ok, ◌>>=◌,
}
use deep_packet_analyzer.App.{AppType, app_count, app_eq, string_to_app_type, app_type_to_string}
use deep_packet_analyzer.App.Name.{string_to_app_type-app_type_to_string}
use deep_packet_analyzer.Rules.{
  RuleManager, block_ip_text, unblock_ip_text, block_app, unblock_app, block_domain, unblock_domain,
  is_app_blocked,
}
use deep_packet_analyzer.Rules.Decide.{block_unblock}

-- A call on the rule manager, if there is one.
abbrev on_rules : (RuleManager → RuleManager) → Option RuleManager → Option RuleManager
on_rules f none = none
on_rules f (some r) = some (f r)

abbrev on_rules_result :
    (RuleManager → Result RuleManager) → Option RuleManager → Result (Option RuleManager)
on_rules_result f none = ok none
on_rules_result f (some r) = f r >>= λ r'. ok (some r')

unfoldable pub engine_block_ip : Option RuleManager → Bytes → Result (Option RuleManager)
engine_block_ip rules ip = on_rules_result (λ r. block_ip_text r ip) rules

unfoldable pub engine_unblock_ip : Option RuleManager → Bytes → Result (Option RuleManager)
engine_unblock_ip rules ip = on_rules_result (λ r. unblock_ip_text r ip) rules

unfoldable pub engine_block_app : Option RuleManager → AppType → Option RuleManager
engine_block_app rules app = on_rules (λ r. block_app r app) rules

unfoldable pub engine_unblock_app : Option RuleManager → AppType → Option RuleManager
engine_unblock_app rules app = on_rules (λ r. unblock_app r app) rules

-- `blockApp(const std::string&)`: a name that no application has leaves the rules as they are.
unfoldable pub engine_block_app_named : Option RuleManager → Bytes → Option RuleManager
unfolding engine_block_app
engine_block_app_named rules name = elim (string_to_app_type name) [
  | none ↦ rules
  | some app ↦ engine_block_app rules app
]

unfoldable pub engine_unblock_app_named : Option RuleManager → Bytes → Option RuleManager
unfolding engine_unblock_app
engine_unblock_app_named rules name = elim (string_to_app_type name) [
  | none ↦ rules
  | some app ↦ engine_unblock_app rules app
]

unfoldable pub engine_block_domain : Option RuleManager → Bytes → Option RuleManager
engine_block_domain rules domain = on_rules (λ r. block_domain r domain) rules

unfoldable pub engine_unblock_domain : Option RuleManager → Bytes → Option RuleManager
engine_unblock_domain rules domain = on_rules (λ r. unblock_domain r domain) rules

-- The rules are there, and answer this for the application.
pub Blocks : Option RuleManager → AppType → Bool → Type 0
Blocks rules app answer = (r : RuleManager) × (rules ≡ some r) × (is_app_blocked r app ≡ answer)

-- On an initialized engine, blocking an application by the name that is printed for it blocks that
-- application and no other, unblocking it by that name lets it pass again, and a name that no
-- application has changes nothing.
pub block_app_named :
    (r : RuleManager) (a b : AppType) (name : Bytes)
    → a ≢ app_count
    → string_to_app_type name ≡ none
    → Blocks
        (engine_block_app_named (some r) (app_type_to_string a))
        b
        (app_eq a b || is_app_blocked r b)
      × Blocks
          (engine_unblock_app_named (some r) (app_type_to_string a))
          b
          (not (app_eq a b) && is_app_blocked r b)
      × (engine_block_app_named (some r) name ≡ some r)
      × (engine_unblock_app_named (some r) name ≡ some r)
unfolding engine_block_app_named engine_unblock_app_named engine_block_app engine_unblock_app Blocks
block_app_named r a b name h e =
    let k = string_to_app_type-app_type_to_string a h in
    let d = block_unblock r 0 0 0 0 a b in
    (
      (block_app r a, rw (k, engine_block_app_named) refl, d.4),
      (unblock_app r a, rw (k, engine_unblock_app_named) refl, d.5),
      rw (e, engine_block_app_named) refl,
      rw (e, engine_unblock_app_named) refl,
    )
