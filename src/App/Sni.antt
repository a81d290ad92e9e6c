-- ===== src/App/Sni.antt =====
-- What `sniToAppType` makes of a server name.
use deep_packet_analyzer.Base.{
  ℕ, ◌≤◌, ◌≡◌, ◌≢◌, ◌⊎◌, inl, inr, refl, ap, ap₂, true, [], ◌∷◌, ◌++◌, map, arith, Bytes, codes,
  starts, contains, to_lower,
}
use deep_packet_analyzer.App.{
  unknown, https, netflix, microsoft, app_index, contains_any, classify_lower, sni_to_app_type,
}

starts-append : (a b t : Bytes) → starts (a ++ b) t ≡ true → contains b t ≡ true
unfolding contains
starts-append [] b [] h = h
starts-append [] b (c ∷ t) h = ground arith
starts-append (p ∷ a) b [] h = ground arith
starts-append (p ∷ a) b (c ∷ t) h = ground (arith, starts-append a b t)

-- A text that holds `a ++ b` holds `b`.
pub contains-append : (a b t : Bytes) → contains (a ++ b) t ≡ true → contains b t ≡ true
unfolding contains
contains-append a b [] h = starts-append a b [] h
contains-append a b (c ∷ t) h = ground (arith, starts-append a b (c ∷ t), contains-append a b t)

starts-prefix : (a b t : Bytes) → starts (a ++ b) t ≡ true → starts a t ≡ true
unfolding starts
starts-prefix [] b t h = refl
starts-prefix (p ∷ a) b [] h = h
starts-prefix (p ∷ a) b (c ∷ t) h = ground (arith, starts-prefix a b t)

-- A text that holds `a ++ b` holds `a`.
pub contains-prefix : (a b t : Bytes) → contains (a ++ b) t ≡ true → contains a t ≡ true
unfolding contains
contains-prefix a b [] h = starts-prefix a b [] h
contains-prefix a b (c ∷ t) h = ground (arith, starts-prefix a b (c ∷ t), contains-prefix a b t)

to_lower_idem : (c : ℕ) → to_lower (to_lower c) ≡ to_lower c
unfolding to_lower
to_lower_idem c = ground arith

lower_idem : (s : Bytes) → map to_lower (map to_lower s) ≡ map to_lower s
lower_idem [] = refl
lower_idem (c ∷ s) = ap₂ (◌∷◌) (to_lower_idem c) (lower_idem s)

-- Upper and lower case are one to the classifier.
pub sni_to_app_type-lower : (s : Bytes) → sni_to_app_type (map to_lower s) ≡ sni_to_app_type s
unfolding sni_to_app_type
sni_to_app_type-lower [] = refl
sni_to_app_type-lower (c ∷ s) = ap classify_lower (lower_idem (c ∷ s))

classify_lower-range :
    (s : Bytes)
    → (classify_lower s ≡ https)
      ⊎ ((6 ≤ app_index (classify_lower s)) × (app_index (classify_lower s) ≤ 22))
unfolding classify_lower app_index
classify_lower-range s = ground arith

-- A name is classified as HTTPS or as one of the seventeen named applications, unless it is empty.
pub sni_to_app_type-range :
    (s : Bytes)
    → ((s ≡ []) × (sni_to_app_type s ≡ unknown))
      ⊎ (s ≢ [])
        × ((sni_to_app_type s ≡ https)
            ⊎ ((6 ≤ app_index (sni_to_app_type s)) × (app_index (sni_to_app_type s) ≤ 22)))
unfolding sni_to_app_type
sni_to_app_type-range [] = inl (refl, refl)
sni_to_app_type-range (c ∷ s) = inr (λ e. cc, classify_lower-range (map to_lower (c ∷ s)))

twitter_hit :
    (s : Bytes)
    → (contains (codes "x.com") s ≡ true) ⊎ (contains (codes "t.co") s ≡ true)
    → contains_any ("twitter" ∷ "twimg" ∷ "x.com" ∷ "t.co" ∷ []) s ≡ true
unfolding contains_any
twitter_hit s h = ground arith

-- The Twitter test stands before the tests for Netflix and Microsoft.
twitter_first :
    (s : Bytes)
    → (contains (codes "x.com") s ≡ true) ⊎ (contains (codes "t.co") s ≡ true)
    → (classify_lower s ≢ netflix) × (classify_lower s ≢ microsoft)
unfolding classify_lower
twitter_first s h = ground (arith, twitter_hit s h)

mentions_shadowed :
    (s : Bytes)
    → (contains (codes "netflix.com") s ≡ true) ⊎ (contains (codes "microsoft.com") s ≡ true)
    → (classify_lower s ≢ netflix) × (classify_lower s ≢ microsoft)
mentions_shadowed s (inl h) =
    twitter_first s (inl (contains-append (codes "netfli") (codes "x.com") s h))
mentions_shadowed s (inr h) = twitter_first s (
    inr (
      contains-append (codes "microsof") (codes "t.co") s
        (contains-prefix (codes "microsoft.co") (codes "m") s h)))

-- A name that mentions netflix.com or microsoft.com, in any case, is never classified as Netflix
-- or Microsoft: the shorter patterns `x.com` and `t.co` of Twitter are tested first.
pub sni_to_app_type_shadowed :
    (s : Bytes)
    → (contains (codes "netflix.com") (map to_lower s) ≡ true)
      ⊎ (contains (codes "microsoft.com") (map to_lower s) ≡ true)
    → (sni_to_app_type s ≢ netflix) × (sni_to_app_type s ≢ microsoft)
unfolding sni_to_app_type
sni_to_app_type_shadowed [] h = (λ e. cc, λ e. cc)
sni_to_app_type_shadowed (c ∷ s) h = mentions_shadowed (map to_lower (c ∷ s)) h
