-- ===== src/Sat/BinaryAmo/Complete.antt =====
-- `BinaryAtMostOne::encode` forbids nothing but two states at once: an assignment under which at
-- most one state holds extends to the helper variables so that the clauses hold.
use native.Mathlib.Nat.{pow-suc}
use lilotane_smt_csp.Prelude.{
  ℕ, zero, suc, ◌+◌, ◌/◌, ◌%◌, ◌^◌, ◌≤◌, ◌<◌, ◌≡◌, refl, ap, ◌∙◌, ◌⊎◌, inl, true, List, [], ◌∷◌, ℤ,
  pos, negsuc, ◌==◌, if◌then◌else◌, length, arith,
}
use lilotane_smt_csp.Sat.Clauses.{Assignment, cnf_holds}
use lilotane_smt_csp.Sat.VariableDomain.{VariableDomain}
use lilotane_smt_csp.Sat.BinaryAmo.{binary_at_most_one, encode}
use lilotane_smt_csp.Sat.BinaryAmo.Digits.{value, NonZero}
use lilotane_smt_csp.Sat.BinaryAmo.Correct.{
  marks, vars_from, binary_at_most_one-IsBuilt, encode-holds,
}

-- `σ` with the number `v` written into the variables `k`, `k + 1`, ..., lowest digit first.
pub put_digits : Assignment → ℕ → ℕ → ℕ → Assignment
put_digits σ k zero v = σ
put_digits σ k (suc n) v = λ x. if x == k then v % 2 == 1 else put_digits σ (suc k) n (v / 2) x

-- Only the helper variables are written.
put_digits-outside :
    (σ : Assignment) (k n v x : ℕ) → (x < k) ⊎ (k + n ≤ x) → put_digits σ k n v x ≡ σ x
unfolding put_digits
put_digits-outside σ k zero v x h = refl
put_digits-outside σ k (suc n) v x h = ground (arith, put_digits-outside σ (suc k) n (v / 2) x)

value_congr :
    (σ τ : Assignment) (k n : ℕ)
    → ((x : ℕ) → k ≤ x → σ x ≡ τ x)
    → value σ (vars_from k n) ≡ value τ (vars_from k n)
unfolding value
value_congr σ τ k zero h = refl
value_congr σ τ k (suc n) h =
    ground (arith, h k (omega arith), value_congr σ τ (suc k) n (λ x g. h x (omega arith)))

value-put_digits :
    (σ : Assignment) (k n v : ℕ) → v < 2 ^ n → value (put_digits σ k n v) (vars_from k n) ≡ v
unfolding value put_digits
value-put_digits σ k zero v h = omega arith
value-put_digits σ k (suc n) v h = ground (
  arith,
  pow-suc 2 n,
  value_congr (put_digits σ k (suc n) v) (put_digits σ (suc k) n (v / 2)) (suc k) n
      (λ x g. ground arith),
  value-put_digits σ (suc k) n (v / 2),
)

-- The variable of every literal of the list is below `k`.
abbrev pub AllBelow : ℕ → List ℤ → Type 0
AllBelow k [] = Unit {0}
AllBelow k (pos n ∷ ls) = (n < k) × AllBelow k ls
AllBelow k (negsuc n ∷ ls) = (suc n < k) × AllBelow k ls

marks_congr :
    (σ τ : Assignment) (b v k : ℕ) (ls : List ℤ)
    → ((x : ℕ) → x < b → σ x ≡ τ x)
    → AllBelow b ls
    → marks σ v k ls ≡ marks τ v k ls
unfolding marks
marks_congr σ τ b v k [] h a = refl
marks_congr σ τ b v k (pos n ∷ ls) h a =
    ground (arith, h n a.0, marks_congr σ τ b v (suc k) ls h a.1)
marks_congr σ τ b v k (negsuc n ∷ ls) h a =
    ground (arith, h (suc n) a.0, marks_congr σ τ b v (suc k) ls h a.1)

-- Let the states' variables be older than the helper variables, and let exactly state `v` hold of
-- all states (none, if `v` names no state). Then some assignment that differs only in helper
-- variables satisfies the clauses.
pub encode_complete :
    (σ : Assignment) (states : List ℤ) (n v : ℕ) (d : VariableDomain)
    → 1 < n
    → length states ≤ n
    → NonZero states
    → 0 < d.running_var_id
    → AllBelow d.running_var_id states
    → v < n
    → marks σ v 0 states ≡ true
    → let (b, d') = binary_at_most_one states n d in
      (τ : Assignment) × ((x : ℕ) → (x < d.running_var_id) ⊎ (d'.running_var_id ≤ x) → τ x ≡ σ x)
      × (cnf_holds τ (encode b) ≡ true)
encode_complete σ states n v d h len nz vp below lt m =
    let from = d.running_var_id in
    let c = binary_at_most_one-IsBuilt states n d in
    let τ = put_digits σ from c.len v in
    let spelled : value τ (binary_at_most_one states n d).0.bin_num_vars ≡ v =
      ap (value τ) c.named ∙ value-put_digits σ from c.len v (omega (arith, c.numbers, c.roomy)) in
    (
      τ,
      λ x out. put_digits-outside σ from c.len v x (rw c.fresh at out),
      encode-holds τ states n d h len nz vp
          ∙ ground (
            arith,
            spelled,
            marks_congr τ σ from v 0 states (λ x g. put_digits-outside σ from c.len v x (inl g))
                below,
          ),
    )
