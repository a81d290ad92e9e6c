-- ===== src/App/Name.antt =====
-- Names of application types, and the loop that looks them up.
use deep_packet_analyzer.Base.{◌≡◌, ◌≢◌, ◌↔◌, refl, sym, ap, ◌∙◌, some, true, ==_iff, get_or}
use deep_packet_analyzer.App.{
  AppType, unknown, app_count, all_apps, app_index, app_eq, app_type_to_string, string_to_app_type,
}

at_index : (a : AppType) → get_or all_apps (app_index a) app_count ≡ a
unfolding app_index
at_index unknown = refl
at_index _ = refl

pub app_eq_iff : (a b : AppType) → (app_eq a b ≡ true) ↔ (a ≡ b)
unfolding app_eq
app_eq_iff a b = (
  λ h. sym (at_index a) ∙ ap (λ n. get_or all_apps n app_count) ((==_iff _ _).0 h) ∙ at_index b,
  λ e. (==_iff _ _).1 (ap app_index e),
)

-- Every application type but the end marker is found again by its printed name.
pub string_to_app_type-app_type_to_string :
    (a : AppType) → a ≢ app_count → string_to_app_type (app_type_to_string a) ≡ some a
unfolding string_to_app_type
string_to_app_type-app_type_to_string app_count h = absurd (h refl)
string_to_app_type-app_type_to_string _ h = refl
