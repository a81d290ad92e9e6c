-- ===== src/Rules/Sets.antt =====
-- std::unordered_set as the list of its elements, and the one std::vector that is searched.
use deep_packet_analyzer.Base.{
  ◌≡◌, ◌↔◌, refl, Bool, true, false, not, ◌&&◌, ◌||◌, List, [], ◌∷◌, ◌++◌, if◌then◌else◌, arith,
  Bytes, equal,
}

module _ {ℓ} {A : Type ℓ} (eq : A → A → Bool) where
  -- `set.count(a) > 0`.
  unfoldable pub member : A → List A → Bool
  member a [] = false
  member a (x ∷ xs) = eq x a || member a xs

  unfoldable pub insert : A → List A → List A
  unfolding member
  insert a xs = if member a xs then xs else a ∷ xs

  unfoldable pub erase : A → List A → List A
  erase a [] = []
  erase a (x ∷ xs) = let rest = erase a xs in if eq x a then rest else x ∷ rest

-- `std::find`, and `erase` of what it found.
unfoldable pub erase_first : Bytes → List Bytes → List Bytes
erase_first a [] = []
erase_first a (x ∷ xs) = if equal x a then xs else x ∷ erase_first a xs

module _ {ℓ} {A : Type ℓ} (eq : A → A → Bool) (eq_iff : (a b : A) → (eq a b ≡ true) ↔ (a ≡ b)) where
  pub member-insert :
      (a b : A) (xs : List A) → member eq b (insert eq a xs) ≡ (eq a b || member eq b xs)
  unfolding insert
  member-insert a b xs = ground (arith, eq_iff a b)

  pub member-erase :
      (a b : A) (xs : List A) → member eq b (erase eq a xs) ≡ (not (eq a b) && member eq b xs)
  unfolding member erase
  member-erase a b [] = ground arith
  member-erase a b (x ∷ xs) =
      ground (arith, eq_iff x a, eq_iff x b, eq_iff a b, member-erase a b xs)

pub member-append {ℓ} :
    {A : Type ℓ} (eq : A → A → Bool) (a : A) (xs ys : List A)
    → member eq a (xs ++ ys) ≡ (member eq a xs || member eq a ys)
unfolding member
member-append eq a [] ys = refl
member-append eq a (x ∷ xs) ys = ground (arith, member-append eq a xs ys)
