-- ===== src/Sat/OrderedSets.antt =====
-- `std::set<int>` and `std::set<std::set<int>>`, as the encoding uses them (src/sat/encoding.cpp,
-- src/sat/dnf2cnf.h): lists in increasing order without repetitions.
use lilotane_smt_csp.Prelude.{
  ◌≡◌, refl, ap, Bool, true, false, ◌&&◌, ◌||◌, List, [], ◌∷◌, ℤ, pos, negsuc, Eq, int_eq, list_eq,
  ◌≟◌, ≟_sound, if◌then◌else◌, ltb, all, any, arith,
}

-- `a < b`
unfoldable pub less : ℤ → ℤ → Bool
less (pos a) (pos b) = ltb a b
less (pos a) (negsuc b) = false
less (negsuc a) (pos b) = true
less (negsuc a) (negsuc b) = ltb b a

-- The lexicographic order.
unfoldable pub set_less : List ℤ → List ℤ → Bool
unfolding less
set_less xs [] = false
set_less [] (y ∷ ys) = true
set_less (x ∷ xs) (y ∷ ys) = less x y || (x ≟ y && set_less xs ys)

module _ {A : Type 0} ⦃e : Eq A⦄ (lt : A → A → Bool) where
  unfoldable pub ordered_insert : A → List A → List A
  ordered_insert x [] = x ∷ []
  ordered_insert x (y ∷ ys) =
      let rest = ordered_insert x ys in
      if x ≟ y then y ∷ ys else if lt x y then x ∷ y ∷ ys else y ∷ rest

  pub all-ordered_insert :
      (p : A → Bool) (x : A) (ys : List A) → all p (ordered_insert x ys) ≡ (p x && all p ys)
  unfolding ordered_insert
  all-ordered_insert p x [] = refl
  all-ordered_insert p x (y ∷ ys) = ground (arith, all-ordered_insert p x ys, same)
    where
      same : x ≟ y ≡ true → p x ≡ p y
      same h = ap p (≟_sound x y h)

  pub any-ordered_insert :
      (p : A → Bool) (x : A) (ys : List A) → any p (ordered_insert x ys) ≡ (p x || any p ys)
  unfolding ordered_insert
  any-ordered_insert p x [] = refl
  any-ordered_insert p x (y ∷ ys) = ground (arith, any-ordered_insert p x ys, same)
    where
      same : x ≟ y ≡ true → p x ≡ p y
      same h = ap p (≟_sound x y h)

unfoldable pub set_insert : ℤ → List ℤ → List ℤ
unfolding ordered_insert
set_insert = ordered_insert less

unfoldable pub sets_insert : List ℤ → List (List ℤ) → List (List ℤ)
unfolding ordered_insert
sets_insert = ordered_insert set_less

pub all-set_insert :
    (p : ℤ → Bool) (x : ℤ) (ys : List ℤ) → all p (set_insert x ys) ≡ (p x && all p ys)
unfolding set_insert
all-set_insert = all-ordered_insert less

pub any-set_insert :
    (p : ℤ → Bool) (x : ℤ) (ys : List ℤ) → any p (set_insert x ys) ≡ (p x || any p ys)
unfolding set_insert
any-set_insert = any-ordered_insert less

pub any-sets_insert :
    (p : List ℤ → Bool) (x : List ℤ) (ys : List (List ℤ))
    → any p (sets_insert x ys) ≡ (p x || any p ys)
unfolding sets_insert
any-sets_insert = any-ordered_insert set_less

pub all-sets_insert :
    (p : List ℤ → Bool) (x : List ℤ) (ys : List (List ℤ))
    → all p (sets_insert x ys) ≡ (p x && all p ys)
unfolding sets_insert
all-sets_insert = all-ordered_insert set_less
