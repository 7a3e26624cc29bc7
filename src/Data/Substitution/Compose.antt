-- ===== src/Data/Substitution/Compose.antt =====
-- `concatenate` is composition, and the constructor and `getAll` map one argument list to another.
use lilotane_smt_csp.Prelude.{
  ◌≡◌, refl, ap, Bool, true, false, not, ◌&&◌, ◌||◌, List, [], ◌∷◌, map, none, some, ℤ,
  if◌then◌else◌, ==ℤ_iff, ◌≟◌, int_eq, arith, Bool-cases, Option-cases, inl, inr,
}
use lilotane_smt_csp.Data.Substitution.{
  Substitution, find, count, image, assign, from_args, substitution, through, add_missing,
  concatenate, branch, all_from, get_all,
}
use lilotane_smt_csp.Data.Substitution.Lookup.{AllAbove, IsAscending, lt_int_ne, find-assign}
use lilotane_smt_csp.Data.Substitution.Order.{IsKept, empty, entries}

abbrev pub Distinct : Substitution → Type 0
Distinct [] = Unit {0}
Distinct (e ∷ s) = (find e.first s ≡ none) × Distinct s

find_above_self : (k : ℤ) (s : Substitution) → AllAbove k s → find k s ≡ none
unfolding find
find_above_self k [] a = refl
find_above_self k (e ∷ s) a = ground (arith, lt_int_ne k e.first a.0, find_above_self k s a.1)

IsAscending-Distinct : (s : Substitution) → IsAscending s → Distinct s
IsAscending-Distinct [] a = tt
IsAscending-Distinct (e ∷ s) a = (find_above_self e.first s a.0, IsAscending-Distinct s a.1)

pub IsKept-Distinct : {s : Substitution} → IsKept s → Distinct s
IsKept-Distinct empty = tt
IsKept-Distinct (entries {s = s} a n) = (n, IsAscending-Distinct s a)

-- The first loop: keys of `first`, with their images under `second`, overwrite `s`.
find-through :
    (q : ℤ) (second first s : Substitution)
    → Distinct first
    → find q (through second first s)
      ≡ elim (find q first) [ none ↦ find q s | some d ↦ some (image second d) ]
unfolding through find
find-through q second [] s h = refl
find-through q second (e ∷ first) s h = ground (
  arith,
  find-through q second first (assign e.first (image second e.second) s) h.1,
  find-assign q e.first (image second e.second) s,
  ==ℤ_iff e.first q,
  h.0,
)

find-add_missing :
    (q : ℤ) (second s : Substitution)
    → find q (add_missing second s) ≡ elim (find q s) [ none ↦ find q second | some d ↦ some d ]
unfolding add_missing find count
find-add_missing q [] s = ground arith
find-add_missing q (e ∷ second) s = ground (
  arith,
  find-add_missing q second (if count e.first s then s else assign e.first e.second s),
  find-assign q e.first e.second s,
  ==ℤ_iff e.first q,
)

-- To substitute by `concatenate` is to substitute by the first, then by the second.
pub image-concatenate :
    (first second : Substitution) (x : ℤ)
    → IsKept first
    → image (concatenate first second) x ≡ image second (image first x)
unfolding concatenate image
image-concatenate first second x h = ground (
  arith,
  find-add_missing x second (through second first []),
  find-through x second first [] (IsKept-Distinct h),
)

abbrev pub among : ℤ → List ℤ → Bool
among x [] = false
among x (y ∷ ys) = y ≟ x || among x ys

module _ (f : ℤ → ℤ) where
  find-from_args :
      (q : ℤ) (src : List ℤ) (s : Substitution)
      → find q (from_args src (map f src) s)
        ≡ (if among q src && not (q ≟ f q) then some (f q) else find q s)
  unfolding from_args
  find-from_args q [] s = refl
  find-from_args q (a ∷ src) s = ground (
    arith,
    find-from_args q src (if a ≟ f a then s else assign a (f a) s),
    find-assign q a (f a) s,
    ==ℤ_iff a q,
    ap f {x = a} {y = q},
  )

  -- The substitution of an argument list by its image under a function maps the arguments as the
  -- function does, and everything else to itself.
  pub image-substitution :
      (src : List ℤ) (x : ℤ)
      → image (substitution src (map f src)) x ≡ (if among x src then f x else x)
  unfolding substitution image find
  image-substitution src x = ground (arith, find-from_args x src [], ==ℤ_iff x (f x))

  -- The entries of `s` are values of the function.
  abbrev Agrees : Substitution → Type 0
  Agrees s = (q v : ℤ) → find q s ≡ some v → v ≡ f q

  Agrees-step : (a : ℤ) (s : Substitution) → Agrees s → Agrees (assign a (f a) s)
  Agrees-step a s h q v e =
      ground (arith, find-assign q a (f a) s, ==ℤ_iff a q, ap f {x = a} {y = q}, h q v)

  branch_agreeing :
      (a : ℤ) (s : Substitution) → Agrees s → branch a (f a) (s ∷ []) ≡ (assign a (f a) s ∷ [], [])
  unfolding branch
  branch_agreeing a s h = elim (Option-cases (find a s)) [
    | inl fresh ↦ rw (fresh, branch)
    | inr (v, there) ↦
        let same : v ≟ f a ≡ true = (==ℤ_iff v (f a)).1 (h a v there) in rw (there, branch, same)
  ]

  all_from_agreeing :
      (src : List ℤ) (s : Substitution)
      → Agrees s
      → all_from src (map f src) (s ∷ []) ≡ from_args src (map f src) s ∷ []
  unfolding all_from from_args
  all_from_agreeing [] s h = refl
  all_from_agreeing (a ∷ src) s h = elim (Bool-cases (a ≟ f a)) [
    | inl fixed ↦ rw fixed (all_from_agreeing src s h)
    | inr moved ↦
        rw (moved, branch_agreeing a s h)
          (all_from_agreeing src (assign a (f a) s) (Agrees-step a s h))
  ]

  -- Where the second list is the image of the first under a function, `getAll` finds one
  -- substitution, that of the constructor.
  pub get_all-substitution :
      (src : List ℤ) → get_all src (map f src) ≡ substitution src (map f src) ∷ []
  unfolding get_all substitution
  get_all-substitution src = all_from_agreeing src [] (λ q v e. cc)
