-- ===== src/Sat/BinaryAmo/Blocks.antt =====
-- The blocks of numbers that name no state (the last loop of `BinaryAtMostOne::encode`).
use native.Mathlib.Nat.{pow-suc}
use lilotane_smt_csp.Prelude.{
  ℕ, zero, suc, ◌+◌, ◌-◌, ◌*◌, ◌/◌, ◌^◌, ◌≤◌, ◌<◌, ◌≡◌, refl, ap, ◌∙◌, sym, Bool, false, not, ◌&&◌,
  List, [], ◌∷◌, reverse, ℤ, ltb, leb, ◌==◌, length, drop, take, arith, any-reverse, take-reverse,
  Bool-cases, inl, inr,
}
use lilotane_smt_csp.Sat.Clauses.{Assignment, holds, clause_holds, cnf_holds}
use lilotane_smt_csp.Sat.BinaryAmo.{get_clause, forbid_blocks}
use lilotane_smt_csp.Sat.BinaryAmo.Digits.{digit, value, NonZero, get_clause-holds}

length-get_clause : (k : ℕ) (s : Bool) (vs : List ℤ) → length (get_clause k s vs) ≡ length vs
unfolding get_clause
length-get_clause k s [] = refl
length-get_clause k s (v ∷ vs) = ap suc (length-get_clause (k / 2) s vs)

-- `2 ^ j` numbers share the digits from `j` on.
value-drop :
    (σ : Assignment) (j : ℕ) (vs : List ℤ)
    → j ≤ length vs
    → (r : ℕ) × (value σ vs ≡ r + 2 ^ j * value σ (drop j vs)) × (r < 2 ^ j)
unfolding value
value-drop σ zero vs h = (0, omega arith, omega arith)
value-drop σ (suc j) [] h = absurd (omega arith)
value-drop σ (suc j) (v ∷ vs) h =
    let (r, e, lt) = value-drop σ j vs (omega arith) in
    (digit (holds σ v) + 2 * r, rw (pow-suc, e) (grind arith), rw pow-suc (ground arith))

length-drop : (j : ℕ) (vs : List ℤ) → length (drop j vs) ≡ length vs - j
length-drop zero vs = omega arith
length-drop (suc j) [] = omega arith
length-drop (suc j) (v ∷ vs) = omega (arith, length-drop j vs)

get_clause-drop :
    (j k : ℕ) (s : Bool) (vs : List ℤ)
    → drop j (get_clause (2 ^ j * k) s vs) ≡ get_clause k s (drop j vs)
unfolding get_clause
get_clause-drop zero k s vs = ap (λ n. get_clause n s vs) (omega arith)
get_clause-drop (suc j) k s [] = refl
get_clause-drop (suc j) k s (v ∷ vs) =
    ap (λ n. drop j (get_clause n s vs)) half ∙ get_clause-drop j k s vs
  where
    half : 2 ^ suc j * k / 2 ≡ 2 ^ j * k
    half = rw pow-suc (omega arith)

NonZero-drop : (j : ℕ) (vs : List ℤ) → NonZero vs → NonZero (drop j vs)
NonZero-drop zero vs nz = nz
NonZero-drop (suc j) [] nz = nz
NonZero-drop (suc j) (v ∷ vs) nz = NonZero-drop j vs nz.1

pow-split : (j n : ℕ) → j ≤ n → 2 ^ n ≡ 2 ^ j * 2 ^ (n - j)
pow-split zero n h = omega (arith, ap (λ m. 2 ^ m) (sub_zero n))
  where
    sub_zero : (n : ℕ) → n - 0 ≡ n
    sub_zero n = omega arith
pow-split (suc j) zero h = absurd (omega arith)
pow-split (suc j) (suc n) h =
    rw (pow-suc 2 n, pow-suc 2 j, pow-split j n (omega arith), suc_sub n j) (grind arith)
  where
    suc_sub : (n m : ℕ) → suc n - suc m ≡ n - m
    suc_sub n m = omega arith

lt_of_mul_lt : (p a b : ℕ) → p * a < p * b → a < b
lt_of_mul_lt p a b h = grind arith

mul_step : (p a b : ℕ) → a < b → p * a + p ≤ p * b
mul_step p a b h = grind arith

in_block :
    (p k r q v : ℕ)
    → v ≡ r + p * q
    → r < p
    → not (q == k) ≡ not (leb (p * k) v && ltb v (p * k + p))
in_block p k r q v e h = ground (arith, mul_step p q k, mul_step p k q)

-- One clause excludes the block of `2 ^ j` numbers from `2 ^ j * k` on.
block-holds :
    (σ : Assignment) (j k : ℕ) (vs : List ℤ)
    → NonZero vs
    → j ≤ length vs
    → 2 ^ j * k < 2 ^ length vs
    → clause_holds σ (take (length vs - j) (reverse (get_clause (2 ^ j * k) false vs)))
      ≡ not (leb (2 ^ j * k) (value σ vs) && ltb (value σ vs) (2 ^ j * k + 2 ^ j))
block-holds σ j k vs nz h lt =
    ap (λ n. clause_holds σ (take (n - j) (reverse c))) (sym (length-get_clause _ false vs))
    ∙ ap (clause_holds σ) (take-reverse j c)
    ∙ any-reverse (holds σ) (drop j c)
    ∙ ap (clause_holds σ) (get_clause-drop j k false vs)
    ∙ get_clause-holds σ k (drop j vs) (NonZero-drop j vs nz) small
    ∙ in_block (2 ^ j) k high.0 (value σ (drop j vs)) (value σ vs) high.1 high.2
  where
    c : List ℤ
    c = get_clause (2 ^ j * k) false vs

    high : (r : ℕ) × (value σ vs ≡ r + 2 ^ j * value σ (drop j vs)) × (r < 2 ^ j)
    high = value-drop σ j vs h

    small : k < 2 ^ length (drop j vs)
    small =
        rw (length-drop j vs)
          (lt_of_mul_lt (2 ^ j) k (2 ^ (length vs - j)) (rw (pow-split j (length vs) h) at lt))

block_at-holds :
    (σ : Assignment) (j k f : ℕ) (vs : List ℤ)
    → NonZero vs
    → j ≤ length vs
    → f ≡ 2 ^ j * k
    → f < 2 ^ length vs
    → clause_holds σ (take (length vs - j) (reverse (get_clause f false vs)))
      ≡ not (leb f (value σ vs) && ltb (value σ vs) (f + 2 ^ j))
block_at-holds σ j k f vs nz h e lt = rw e (block-holds σ j k vs nz h (rw e at lt))

pub pow_pos : (j : ℕ) → 0 < 2 ^ j
pow_pos zero = omega arith
pow_pos (suc j) = rw (pow-suc 2 j) (omega (arith, pow_pos j))

below_half : (p q f : ℕ) → 0 < p → f ≡ p * 2 * q → p ≤ f → f - p ≡ p * (2 * q - 1)
below_half p zero f h e le = absurd (omega arith)
below_half p (suc q) f h e le = rw (odd q) (omega arith)
  where
    odd : (q : ℕ) → 2 * suc q - 1 ≡ 2 * q + 1
    odd q = omega arith

-- The blocks taken together exclude exactly the numbers from `n` up to the first forbidden one.
pub forbid_blocks-holds :
    (σ : Assignment) (vs : List ℤ) (n k q ff : ℕ)
    → NonZero vs
    → k ≤ suc (length vs)
    → ff ≡ 2 ^ k * q
    → n ≤ ff
    → ff < n + 2 ^ k
    → ff ≤ 2 ^ length vs
    → cnf_holds σ (forbid_blocks vs n k ff) ≡ not (leb n (value σ vs) && ltb (value σ vs) ff)
unfolding forbid_blocks
forbid_blocks-holds σ vs n zero q ff nz kl e lo hi top = ground arith
forbid_blocks-holds σ vs n (suc j) q ff nz kl e lo hi top =
    let p = 2 ^ j in
    let p_pos = pow_pos j in
    let e' : ff ≡ p * 2 * q = rw (pow-suc 2 j) at e in
    let hi' : ff < n + p * 2 = rw (pow-suc 2 j) at hi in
    elim (Bool-cases (ff - n == 0)) [
      | inl done ↦ rw done (ground arith)
      | inr more ↦ elim (Bool-cases (leb p (ff - n))) [
        | inl big ↦
            let next : ff - p ≡ p * (2 * q - 1) = below_half p q ff p_pos e' (ground arith) in
            rw (more, big)
              (ground (
                arith,
                block_at-holds σ j (2 * q - 1) (ff - p) vs nz (omega arith) next (ground arith),
                forbid_blocks-holds σ vs n j (2 * q - 1) (ff - p) nz (omega arith) next
                    (ground arith) (ground arith) (omega arith),
              ))
        | inr small ↦
            rw (more, small)
              (forbid_blocks-holds σ vs n j (2 * q) ff nz (omega arith) (omega arith) lo
                (ground arith) top)
      ]
    ]
