-- ===== src/Prelude/Lists.antt =====
-- Lists measured and indexed by native numbers, and Boolean quantifiers, under the library's names.
use Prim.Native.Nat.{ℕ, zero, suc, ◌+◌, ◌-◌, ◌≤◌, ◌<◌}
use mathlib.Core.Path.{◌≡◌, refl, ap, ◌∙◌}
use mathlib.Core.Bool.{Bool, true, false, ◌&&◌, ◌||◌}
use mathlib.Core.List.{List, [], ◌∷◌, ◌++◌, reverse, reverse-cons}
use mathlib.Core.Option.{Option, none, some}
use native.Mathlib.Omega.{arith}

module _ {ℓ} {A : Type ℓ} where
  abbrev pub length : List A → ℕ
  length [] = 0
  length (x ∷ xs) = suc (length xs)

  abbrev pub get_elem? : List A → ℕ → Option A
  get_elem? [] i = none
  get_elem? (x ∷ xs) zero = some x
  get_elem? (x ∷ xs) (suc i) = get_elem? xs i

  abbrev pub get_or : List A → ℕ → A → A
  get_or [] i d = d
  get_or (x ∷ xs) zero d = x
  get_or (x ∷ xs) (suc i) d = get_or xs i d

  -- A write out of bounds changes nothing.
  abbrev pub set : List A → ℕ → A → List A
  set [] i v = []
  set (x ∷ xs) zero v = v ∷ xs
  set (x ∷ xs) (suc i) v = x ∷ set xs i v

  abbrev pub take : ℕ → List A → List A
  take zero xs = []
  take (suc n) [] = []
  take (suc n) (x ∷ xs) = x ∷ take n xs

  abbrev pub drop : ℕ → List A → List A
  drop zero xs = xs
  drop (suc n) [] = []
  drop (suc n) (x ∷ xs) = drop n xs

  abbrev pub replicate : ℕ → A → List A
  replicate zero a = []
  replicate (suc n) a = a ∷ replicate n a

  abbrev pub any : (A → Bool) → List A → Bool
  any p [] = false
  any p (x ∷ xs) = p x || any p xs

  abbrev pub all : (A → Bool) → List A → Bool
  all p [] = true
  all p (x ∷ xs) = p x && all p xs

-- A predicate of every entry.
abbrev pub All {ℓ κ} : {A : Type ℓ} → (A → Type κ) → List A → Type κ
All P [] = Unit
All P (x ∷ xs) = P x × All P xs

pub All-append {ℓ κ} :
    {A : Type ℓ} (P : A → Type κ) (xs ys : List A) → All P xs → All P ys → All P (xs ++ ys)
All-append P [] ys hx hy = hy
All-append P (x ∷ xs) ys hx hy = (hx.0, All-append P xs ys hx.1 hy)

module _ {ℓ} {A : Type ℓ} where
  pub length-append : (xs ys : List A) → length (xs ++ ys) ≡ length xs + length ys
  length-append [] ys = omega arith
  length-append (x ∷ xs) ys = omega (arith, length-append xs ys)

  pub length-reverse : (xs : List A) → length (reverse xs) ≡ length xs
  length-reverse [] = refl
  length-reverse (x ∷ xs) =
      omega (
        arith,
        ap length (reverse-cons x xs),
        length-append (reverse xs) (x ∷ []),
        length-reverse xs,
      )

  pub any-append : (p : A → Bool) (xs ys : List A) → any p (xs ++ ys) ≡ (any p xs || any p ys)
  any-append p [] ys = refl
  any-append p (x ∷ xs) ys = ground (arith, any-append p xs ys)

  pub all-append : (p : A → Bool) (xs ys : List A) → all p (xs ++ ys) ≡ (all p xs && all p ys)
  all-append p [] ys = refl
  all-append p (x ∷ xs) ys = ground (arith, all-append p xs ys)

  pub any-reverse : (p : A → Bool) (xs : List A) → any p (reverse xs) ≡ any p xs
  any-reverse p [] = refl
  any-reverse p (x ∷ xs) =
      rw (reverse-cons x xs, any-append p (reverse xs) (x ∷ [])) (ground (arith, any-reverse p xs))

  pub get_elem?-length : (xs : List A) (i : ℕ) {a : A} → get_elem? xs i ≡ some a → i < length xs
  get_elem?-length [] i h = ground arith
  get_elem?-length (x ∷ xs) zero h = omega arith
  get_elem?-length (x ∷ xs) (suc i) h = omega (arith, get_elem?-length xs i h)

  pub take_all : (ys : List A) {n : ℕ} → length ys ≤ n → take n ys ≡ ys
  take_all [] {n = zero} h = refl
  take_all [] {n = suc n} h = refl
  take_all (y ∷ ys) {n = zero} h = absurd (omega arith)
  take_all (y ∷ ys) {n = suc n} h = ap (◌∷◌ y) (take_all ys (omega arith))

  pub take-append_left : (n : ℕ) (ys zs : List A) → n ≤ length ys → take n (ys ++ zs) ≡ take n ys
  take-append_left zero ys zs h = refl
  take-append_left (suc n) [] zs h = absurd (omega arith)
  take-append_left (suc n) (y ∷ ys) zs h = ap (◌∷◌ y) (take-append_left n ys zs (omega arith))

  -- The back of a list, read backwards, without the first `k` entries.
  pub take-reverse : (k : ℕ) (xs : List A) → take (length xs - k) (reverse xs) ≡ reverse (drop k xs)
  take-reverse zero xs = take_all (reverse xs) (omega (arith, length-reverse xs))
  take-reverse (suc k) [] = ap (λ n. take n []) (zero_sub (suc k))
    where
      zero_sub : (n : ℕ) → 0 - n ≡ 0
      zero_sub n = omega arith
  take-reverse (suc k) (x ∷ xs) =
      rw (reverse-cons x xs, suc_sub (length xs) k)
        (take-append_left (length xs - k) (reverse xs) (x ∷ []) (omega (arith, length-reverse xs))
          ∙ take-reverse k xs)
    where
      suc_sub : (n m : ℕ) → suc n - suc m ≡ n - m
      suc_sub n m = omega arith

pub All_of {ℓ κ} : {A : Type ℓ} {P : A → Type κ} → ((x : A) → P x) → (xs : List A) → All P xs
All_of h [] = tt
All_of h (x ∷ xs) = (h x, All_of h xs)

pub All_map {ℓ κ μ} :
    {A : Type ℓ} {P : A → Type κ} {Q : A → Type μ}
    → ((x : A) → P x → Q x)
    → (xs : List A) → All P xs
    → All Q xs
All_map f [] h = tt
All_map f (x ∷ xs) h = (f x h.0, All_map f xs h.1)
