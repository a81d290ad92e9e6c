-- ===== src/Rules/Pattern.antt =====
-- The domains that a wildcard rule blocks.
use deep_packet_analyzer.Base.{
  ℕ, ◌-◌, ◌≡◌, ◌↔◌, ◌⊎◌, inl, inr, refl, sym, ap, ◌∙◌, true, false, ◌||◌, List, [], ◌∷◌, ◌++◌,
  append_assoc, map, arith, length, length-append, take, drop, take-append-drop, drop-length-append,
  Bytes, equal, equal_iff, to_lower, Bool-cases, starts, codes,
}
use deep_packet_analyzer.Rules.{
  RuleManager, has_star, block_domain, unblock_domain, ends_with, domain_matches_pattern,
  any_pattern, is_domain_blocked,
}
use deep_packet_analyzer.Rules.Sets.{member, erase_first}
use deep_packet_analyzer.Rules.Decide.{any_pattern-append, is_domain_blocked-block_domain}

ends_with-append : (pre suffix : Bytes) → ends_with suffix (pre ++ suffix) ≡ true
unfolding ends_with
ends_with-append pre suffix =
    let here : drop (length (pre ++ suffix) - length suffix) (pre ++ suffix) ≡ suffix =
      ap (λ k. drop k (pre ++ suffix)) (omega (arith, length-append pre suffix))
      ∙ drop-length-append pre suffix in
    ground (arith, (equal_iff _ suffix).1 here, length-append pre suffix)

ends_with-drop :
    (suffix d : Bytes) → ends_with suffix d ≡ true → drop (length d - length suffix) d ≡ suffix
unfolding ends_with
ends_with-drop suffix d h = ground (arith, equal_iff (drop (length d - length suffix) d) suffix)

ends_with_iff :
    (suffix d : Bytes) → (ends_with suffix d ≡ true) ↔ ((pre : Bytes) × (d ≡ pre ++ suffix))
ends_with_iff suffix d = (
  λ h.
      let n = length d - length suffix in
      (take n d, sym (take-append-drop n d) ∙ ap (◌++◌ (take n d)) (ends_with-drop suffix d h)),
  λ (pre, e). rw e (ends_with-append pre suffix),
)

matches-base :
    (base d : Bytes) → equal d base ≡ true → domain_matches_pattern d (b'*' ∷ b'.' ∷ base) ≡ true
unfolding domain_matches_pattern
matches-base base d h = ground arith

matches-sub :
    (base d : Bytes)
    → ends_with (b'.' ∷ base) d ≡ true
    → domain_matches_pattern d (b'*' ∷ b'.' ∷ base) ≡ true
unfolding domain_matches_pattern
matches-sub base d h = rw h

matches_otherwise :
    (base d : Bytes)
    → ends_with (b'.' ∷ base) d ≡ false
    → domain_matches_pattern d (b'*' ∷ b'.' ∷ base) ≡ true
    → d ≡ base
unfolding domain_matches_pattern
matches_otherwise base d e h = ground (arith, equal_iff d base)

-- A rule "*." and a base matches exactly the base and the names that end in a dot and the base.
pub domain_matches_pattern_iff :
    (base d : Bytes)
    → (domain_matches_pattern d (b'*' ∷ b'.' ∷ base) ≡ true)
      ↔ ((d ≡ base) ⊎ ((pre : Bytes) × (d ≡ pre ++ (b'.' ∷ base))))
domain_matches_pattern_iff base d = (
  λ h. elim (Bool-cases (ends_with (b'.' ∷ base) d)) [
    | inl sub ↦ inr ((ends_with_iff (b'.' ∷ base) d).0 sub)
    | inr other ↦ inl (matches_otherwise base d other h)
  ],
  λ h. elim h [
    | inl e ↦ matches-base base d ((equal_iff d base).1 e)
    | inr p ↦ matches-sub base d ((ends_with_iff (b'.' ∷ base) d).1 p)
  ],
)

to_lower-eq-star : (c : ℕ) → to_lower c ≡ b'*' → c ≡ b'*'
unfolding to_lower
to_lower-eq-star c h = ground arith

to_lower-eq-dot : (c : ℕ) → to_lower c ≡ b'.' → c ≡ b'.'
unfolding to_lower
to_lower-eq-dot c h = ground arith

matches_only_wildcard :
    (rule d : Bytes)
    → starts (codes "*.") rule ≡ false
    → domain_matches_pattern d (map to_lower rule) ≡ false
unfolding domain_matches_pattern starts
matches_only_wildcard [] d h = refl
matches_only_wildcard (s ∷ []) d h = refl
matches_only_wildcard (s ∷ t ∷ rest) d h = ground (arith, to_lower-eq-star s, to_lower-eq-dot t)

-- A rule that holds a star and does not begin with "*." is accepted and blocks nothing.
pub block_domain_inert :
    (r : RuleManager) (rule domain : Bytes)
    → has_star rule ≡ true
    → starts (codes "*.") rule ≡ false
    → is_domain_blocked (block_domain r rule) domain ≡ is_domain_blocked r domain
block_domain_inert r rule domain star plain =
    is_domain_blocked-block_domain r rule domain
    ∙ rw (star, matches_only_wildcard rule (map to_lower domain) plain)

erase_first-twice :
    (d p : Bytes) (ps : List Bytes)
    → any_pattern d (erase_first p (ps ++ (p ∷ p ∷ []))) ≡ any_pattern d (ps ++ (p ∷ []))
unfolding any_pattern erase_first
erase_first-twice d p [] = ground (arith, (equal_iff p p).1 refl)
erase_first-twice d p (x ∷ ps) = ground (
  arith,
  equal_iff x p,
  erase_first-twice d p ps,
  any_pattern-append d ps (p ∷ p ∷ []),
  any_pattern-append d ps (p ∷ []),
)

module _ (rule : Bytes) (star : has_star rule ≡ true) where
  block_domain-star :
      (r : RuleManager)
      → block_domain r rule ≡ record r { domain_patterns = r.domain_patterns ++ rule ∷ [] }
  unfolding block_domain
  block_domain-star r = rw star

  unblock_domain-star :
      (r : RuleManager)
      → unblock_domain r rule ≡ record r { domain_patterns = erase_first rule r.domain_patterns }
  unfolding unblock_domain
  unblock_domain-star r = rw star

-- A wildcard rule that was given twice stays in force when it is taken back once.
pub unblock_domain-twice :
    (r : RuleManager) (rule domain : Bytes)
    → has_star rule ≡ true
    → is_domain_blocked (unblock_domain (block_domain (block_domain r rule) rule) rule) domain
      ≡ is_domain_blocked (block_domain r rule) domain
unfolding is_domain_blocked
unblock_domain-twice r rule domain star =
    let d = map to_lower domain in
    let ps = r.domain_patterns in
    rw
      (
        block_domain-star rule star r,
        block_domain-star rule star,
        unblock_domain-star rule star,
        append_assoc ps (rule ∷ []) (rule ∷ []),
      )
      (ap (λ b. member equal domain r.blocked_domains || b) (erase_first-twice d rule ps))
