-- ===== src/Data/Substitution/Lookup.antt =====
-- Reading after writing: a substitution is a map, wherever `operator[]` puts a new entry.
use lilotane_smt_csp.Prelude.{
  ◌≡◌, refl, true, false, [], ◌∷◌, none, some, ℤ, pos, negsuc, if◌then◌else◌, ==ℤ_iff, ◌==ℤ◌, ◌≟◌,
  int_eq, arith,
}
use lilotane_smt_csp.Data.Substitution.{Entry, Substitution, lt_int, find, assign, assign_from}

-- All keys of the list are larger than `k`.
abbrev pub AllAbove : ℤ → Substitution → Type 0
AllAbove k [] = Unit {0}
AllAbove k (e ∷ s) = (lt_int k e.first ≡ true) × AllAbove k s

abbrev pub IsAscending : Substitution → Type 0
IsAscending [] = Unit {0}
IsAscending (e ∷ s) = AllAbove e.first s × IsAscending s

-- The entries behind the first one ascend.
abbrev pub TailAscends : Substitution → Type 0
TailAscends [] = Unit {0}
TailAscends (e ∷ s) = IsAscending s

pub lt_int_trans : (a b c : ℤ) → lt_int a b ≡ true → lt_int b c ≡ true → lt_int a c ≡ true
lt_int_trans (pos a) (pos b) (pos c) h g = ground arith
lt_int_trans (pos a) (pos b) (negsuc c) h g = cc
lt_int_trans (pos a) (negsuc b) c h g = cc
lt_int_trans (negsuc a) (pos b) (pos c) h g = refl
lt_int_trans (negsuc a) (pos b) (negsuc c) h g = cc
lt_int_trans (negsuc a) (negsuc b) (pos c) h g = refl
lt_int_trans (negsuc a) (negsuc b) (negsuc c) h g = ground arith

pub lt_int_ne : (a b : ℤ) → lt_int a b ≡ true → (b ==ℤ a) ≡ false
lt_int_ne (pos a) (pos b) h = ground arith
lt_int_ne (pos a) (negsuc b) h = cc
lt_int_ne (negsuc a) (pos b) h = refl
lt_int_ne (negsuc a) (negsuc b) h = ground arith

pub lt_int_total : (a b : ℤ) → (a ==ℤ b) ≡ false → lt_int b a ≡ false → lt_int a b ≡ true
lt_int_total (pos a) (pos b) h g = ground arith
lt_int_total (pos a) (negsuc b) h g = cc
lt_int_total (negsuc a) (pos b) h g = refl
lt_int_total (negsuc a) (negsuc b) h g = ground arith

pub find_above : (k j : ℤ) (s : Substitution) → AllAbove k s → lt_int j k ≡ true → find j s ≡ none
unfolding find
find_above k j [] a h = refl
find_above k j (e ∷ s) a h =
    ground (arith, lt_int_ne j e.first, lt_int_trans j k e.first h a.0, find_above k j s a.1 h)

pub find-assign_from :
    (j k v : ℤ) (e : Entry) (s : Substitution)
    → find j (assign_from k v e s) ≡ (if k ≟ j then some v else find j (e ∷ s))
unfolding find assign_from
find-assign_from j k v e [] = ground (arith, ==ℤ_iff e.first k, ==ℤ_iff e.first j, ==ℤ_iff k j)
find-assign_from j k v e (next ∷ s) =
    ground (arith, ==ℤ_iff e.first k, ==ℤ_iff e.first j, ==ℤ_iff k j, find-assign_from j k v next s)

-- Whatever the order of the entries, after `s[k] = v` the key `k` has the value `v`, and every other
-- key has the value that it had.
pub find-assign :
    (j k v : ℤ) (s : Substitution) → find j (assign k v s) ≡ (if k ≟ j then some v else find j s)
unfolding assign
find-assign j k v [] = unfold find in refl
find-assign j k v (e ∷ s) = find-assign_from j k v e s
