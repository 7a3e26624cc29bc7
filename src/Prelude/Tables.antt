-- ===== src/Prelude/Tables.antt =====
-- The program's hash sets and hash maps: a set is a list without repetitions, a map a list of keys
-- with their values. The order is that in which the container would be walked.
use mathlib.Core.Path.{◌≡◌, refl, ap}
use mathlib.Core.Logic.{◌⊎◌, inl, inr}
use mathlib.Core.Bool.{Bool, true, false, not, ◌&&◌, ◌||◌}
use mathlib.Core.List.{List, [], ◌∷◌}
use mathlib.Core.Option.{Option, none, some}
use native.Mathlib.Omega.{arith}
use lilotane_smt_csp.Prelude.Tests.{if◌then◌else◌, Bool-cases}
use lilotane_smt_csp.Prelude.Lists.{any}
use lilotane_smt_csp.Prelude.Equality.{Eq, ◌≟◌}

module _ {ℓ} {A : Type ℓ} ⦃e : Eq A⦄ where
  -- `set.count(x)`
  unfoldable pub mem : A → List A → Bool
  mem x [] = false
  mem x (y ∷ ys) = x ≟ y || mem x ys

  -- `set.insert(x)`
  unfoldable pub insert_new : A → List A → List A
  insert_new x ys = if mem x ys then ys else x ∷ ys

  -- `set.erase(x)`
  unfoldable pub erase_all : A → List A → List A
  erase_all x [] = []
  erase_all x (y ∷ ys) = if x ≟ y then erase_all x ys else y ∷ erase_all x ys

  pub mem-insert_new : (x y : A) (ys : List A) → mem x (insert_new y ys) ≡ (x ≟ y || mem x ys)
  unfolding insert_new mem
  mem-insert_new x y ys = ground (arith, mem_congr x y ys)
    where
      mem_congr : (x y : A) (ys : List A) → x ≟ y ≡ true → mem y ys ≡ mem x ys
      mem_congr x y [] h = refl
      mem_congr x y (z ∷ zs) h =
          ground (arith, mem_congr x y zs, e.beq_iff x y, e.beq_iff x z, e.beq_iff y z)

  pub mem-erase_all : (x y : A) (ys : List A) → mem x (erase_all y ys) ≡ (not (x ≟ y) && mem x ys)
  unfolding mem erase_all
  mem-erase_all x y [] = ground arith
  mem-erase_all x y (z ∷ zs) =
      ground (arith, mem-erase_all x y zs, e.beq_iff x y, e.beq_iff x z, e.beq_iff y z)

  mem-any : (p : A → Bool) (y : A) (ys : List A) → mem y ys ≡ true → p y ≡ true → any p ys ≡ true
  unfolding mem
  mem-any p y [] h hp = ground arith
  mem-any p y (z ∷ zs) h hp = ground (arith, mem-any p y zs, same)
    where
      same : y ≟ z ≡ true → p y ≡ p z
      same h = ap p ((e.beq_iff y z).0 h)

  pub any-insert_new :
      (p : A → Bool) (y : A) (ys : List A) → any p (insert_new y ys) ≡ (p y || any p ys)
  unfolding insert_new
  any-insert_new p y ys = ground (arith, mem-any p y ys)

  pub mem_as_any : (x : A) (ys : List A) → mem x ys ≡ any (λ y. x ≟ y) ys
  unfolding mem
  mem_as_any x [] = refl
  mem_as_any x (y ∷ ys) = ap (λ b. x ≟ y || b) (mem_as_any x ys)

pub any-congr {ℓ} :
    {A : Type ℓ} (p q : A → Bool) (ys : List A) → ((y : A) → p y ≡ q y) → any p ys ≡ any q ys
any-congr p q [] h = refl
any-congr p q (y ∷ ys) h = ground (arith, any-congr p q ys h, h y)

abbrev pub or_default {κ} : {V : Type κ} → V → Option V → V
or_default d none = d
or_default d (some v) = v

abbrev pub map_option {κ} : {V : Type κ} → (V → V) → Option V → Option V
map_option f none = none
map_option f (some v) = some (f v)

module _ {ℓ κ} {K : Type ℓ} {V : Type κ} ⦃e : Eq K⦄ where
  -- `map.find(k)`, `map.count(k)` and `map.at(k)`
  unfoldable pub lookup : K → List (K × V) → Option V
  lookup k [] = none
  lookup k ((j, v) ∷ t) = if k ≟ j then some v else lookup k t

  unfoldable pub has_key : K → List (K × V) → Bool
  has_key k [] = false
  has_key k ((j, v) ∷ t) = k ≟ j || has_key k t

  -- `map[k] = v`
  unfoldable pub put : K → V → List (K × V) → List (K × V)
  put k v [] = (k, v) ∷ []
  put k v ((j, w) ∷ t) = if k ≟ j then (j, v) ∷ t else (j, w) ∷ put k v t

  -- `f(map[k])`, where `d` is the value that `operator[]` makes for a new key.
  unfoldable pub update : K → V → (V → V) → List (K × V) → List (K × V)
  update k d f [] = (k, f d) ∷ []
  update k d f ((j, w) ∷ t) = if k ≟ j then (j, f w) ∷ t else (j, w) ∷ update k d f t

  -- `map.erase(k)`
  unfoldable pub remove : K → List (K × V) → List (K × V)
  remove k [] = []
  remove k ((j, w) ∷ t) = if k ≟ j then remove k t else (j, w) ∷ remove k t

  -- A loop that changes every value.
  unfoldable pub map_values : (V → V) → List (K × V) → List (K × V)
  map_values f [] = []
  map_values f ((j, w) ∷ t) = (j, f w) ∷ map_values f t

  pub has_key-cases :
      (k : K) (t : List (K × V))
      → ((has_key k t ≡ false) × (lookup k t ≡ none))
        ⊎ ((has_key k t ≡ true) × (v : V) × (lookup k t ≡ some v))
  unfolding has_key lookup
  has_key-cases k [] = inl (refl, refl)
  has_key-cases k ((j, v) ∷ t) = elim (Bool-cases (k ≟ j)) [
    | inl hit ↦ inr (rw hit refl, v, rw hit refl)
    | inr miss ↦ elim (has_key-cases k t) [
      | inl (a, b) ↦ inl (rw miss a, rw miss b)
      | inr (a, w, b) ↦ inr (rw miss a, w, rw miss b)
    ]
  ]

  pub lookup-put :
      (q k : K) (v : V) (t : List (K × V))
      → lookup q (put k v t) ≡ (if q ≟ k then some v else lookup q t)
  unfolding lookup put
  lookup-put q k v [] = refl
  lookup-put q k v ((j, w) ∷ t) =
      ground (arith, lookup-put q k v t, e.beq_iff q k, e.beq_iff q j, e.beq_iff k j)

  pub lookup-update :
      (q k : K) (d : V) (f : V → V) (t : List (K × V))
      → lookup q (update k d f t)
        ≡ (if q ≟ k then some (f (or_default d (lookup k t))) else lookup q t)
  unfolding lookup update
  lookup-update q k d f [] = refl
  lookup-update q k d f ((j, w) ∷ t) =
      ground (arith, lookup-update q k d f t, e.beq_iff q k, e.beq_iff q j, e.beq_iff k j)

  pub lookup-remove :
      (q k : K) (t : List (K × V)) → lookup q (remove k t) ≡ (if q ≟ k then none else lookup q t)
  unfolding lookup remove
  lookup-remove q k [] = ground arith
  lookup-remove q k ((j, w) ∷ t) =
      ground (arith, lookup-remove q k t, e.beq_iff q k, e.beq_iff q j, e.beq_iff k j)

  pub lookup-map_values :
      (q : K) (f : V → V) (t : List (K × V)) → lookup q (map_values f t) ≡ map_option f (lookup q t)
  unfolding lookup map_values
  lookup-map_values q f [] = refl
  lookup-map_values q f ((j, w) ∷ t) = ground (arith, lookup-map_values q f t)
