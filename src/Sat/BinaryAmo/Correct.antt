-- ===== src/Sat/BinaryAmo/Correct.antt =====
-- What `BinaryAtMostOne::encode` says, for the object that the constructor builds.
use native.Mathlib.Nat.{pow-suc}
use lilotane_smt_csp.Prelude.{
  ℕ, zero, suc, ◌+◌, ◌-◌, ◌*◌, ◌^◌, ◌≤◌, ◌<◌, ◌≡◌, refl, ◌∙◌, ap, sym, Bool, true, false, ◌&&◌, iff,
  List, [], ◌∷◌, ◌++◌, some, ℤ, pos, ltb, leb, ◌==◌, length, get_elem?, arith, Bool-cases, inl, inr,
  all-append,
}
use lilotane_smt_csp.Sat.Clauses.{Assignment, holds, clause_holds, cnf_holds}
use lilotane_smt_csp.Sat.VariableDomain.{VariableDomain, next_var}
use lilotane_smt_csp.Sat.BinaryAmo.{
  BinaryAtMostOne, add_digits, binary_at_most_one, state_clauses, all_state_clauses, forbid_blocks,
  encode,
}
use lilotane_smt_csp.Sat.BinaryAmo.Digits.{value, value-lt, NonZero, state_clauses-holds}
use lilotane_smt_csp.Sat.BinaryAmo.Blocks.{forbid_blocks-holds}

-- Of the states numbered from `k` on, exactly the one with the number `v` holds.
unfoldable pub marks : Assignment → ℕ → ℕ → List ℤ → Bool
marks σ v k [] = true
marks σ v k (l ∷ ls) = iff (holds σ l) (v == k) && marks σ v (suc k) ls

pub marks_at :
    (σ : Assignment) (v k : ℕ) (ls : List ℤ) (i : ℕ) {l : ℤ}
    → marks σ v k ls ≡ true
    → get_elem? ls i ≡ some l
    → holds σ l ≡ v == k + i
unfolding marks
marks_at σ v k [] i m h = ground arith
marks_at σ v k (x ∷ ls) zero m h = ground arith
marks_at σ v k (x ∷ ls) (suc i) {l = l} m h = ground (arith, marks_at σ v (suc k) ls i {l = l})

all_state_clauses-holds :
    (σ : Assignment) (vs : List ℤ) (k : ℕ) (ls : List ℤ)
    → NonZero vs
    → NonZero ls
    → k + length ls ≤ 2 ^ length vs
    → cnf_holds σ (all_state_clauses vs k ls) ≡ marks σ (value σ vs) k ls
unfolding all_state_clauses marks
all_state_clauses-holds σ vs k [] nz nl h = refl
all_state_clauses-holds σ vs k (l ∷ ls) nz nl h =
    all-append (clause_holds σ) (state_clauses vs k l) (all_state_clauses vs (suc k) ls)
    ∙ ground (
      arith,
      state_clauses-holds σ k l vs nz nl.0 (omega arith),
      all_state_clauses-holds σ vs (suc k) ls nz nl.1 (omega arith),
    )

-- The helper variables: `n` of them, numbered from `k` on.
abbrev pub vars_from : ℕ → ℕ → List ℤ
vars_from k zero = []
vars_from k (suc n) = pos k ∷ vars_from (suc k) n

vars_from_snoc : (k n m : ℕ) → m ≡ k + n → vars_from k n ++ pos m ∷ [] ≡ vars_from k (suc n)
vars_from_snoc k zero m e = let e' : m ≡ k = omega arith in rw e'
vars_from_snoc k (suc n) m e = rw (vars_from_snoc (suc k) n m (omega arith))

pub length-vars_from : (k n : ℕ) → length (vars_from k n) ≡ n
length-vars_from k zero = refl
length-vars_from k (suc n) = rw (length-vars_from (suc k) n)

pub vars_from-NonZero : (k n : ℕ) → 0 < k → NonZero (vars_from k n)
vars_from-NonZero k zero h = tt
vars_from-NonZero k (suc n) h = (λ e. ground arith, vars_from-NonZero (suc k) n (omega arith))

-- What the constructor's loop leaves: `len` helper variables, numbered from `from` on, that can
-- spell `repr` numbers, at least `n`.
pub record IsBuilt (n from repr : ℕ) (vars : List ℤ) (d : VariableDomain) : Type 0 where
  pub len : ℕ
  pub numbers : repr ≡ 2 ^ len
  pub roomy : n ≤ repr
  pub named : vars ≡ vars_from from len
  pub fresh : d.running_var_id ≡ from + len

add_digits-IsBuilt :
    (fuel n from len repr : ℕ) (d : VariableDomain)
    → n ≤ repr + fuel
    → 0 < repr
    → repr ≡ 2 ^ len
    → d.running_var_id ≡ from + len
    → let (r, vs, d') = add_digits fuel n repr (vars_from from len) d in IsBuilt n from r vs d'
unfolding add_digits
add_digits-IsBuilt zero n from len repr d h p e fr = record {
  len = len;
  numbers = e;
  roomy = omega arith;
  named = refl;
  fresh = fr;
}
add_digits-IsBuilt (suc fuel) n from len repr d h p e fr = elim (Bool-cases (ltb repr n)) [
  | inr done ↦
      rw done (record { len = len; numbers = e; roomy = ground arith; named = refl; fresh = fr })
  | inl more ↦
      rw (more, vars_from_snoc from len d.running_var_id fr)
        (add_digits-IsBuilt fuel n from (suc len) (repr * 2) (next_var d).1 (omega arith)
          (omega arith) (rw (pow-suc 2 len, e)) (omega arith))
]

abbrev pub Built : List ℤ → ℕ → VariableDomain → Type 0
Built states n d =
    let (b, d') = binary_at_most_one states n d in
    IsBuilt n d.running_var_id b.num_repr_states b.bin_num_vars d'

pub binary_at_most_one-IsBuilt : (states : List ℤ) (n : ℕ) (d : VariableDomain) → Built states n d
unfolding binary_at_most_one
binary_at_most_one-IsBuilt states n d =
    add_digits-IsBuilt n n d.running_var_id 0 1 d (omega arith) (omega arith) refl (omega arith)

forbidden_start :
    (vs : List ℤ) (n k ff : ℕ)
    → 0 < n
    → n ≤ ff
    → ff ≡ 2 ^ k
    → forbid_blocks vs n (suc k) ff ≡ forbid_blocks vs n k ff
unfolding forbid_blocks
forbidden_start vs n zero ff h le e = let all_used : ff - n ≡ 0 = omega arith in rw all_used
forbidden_start vs n (suc k) ff h le e = elim (Bool-cases (ff - n == 0)) [
  | inl done ↦ rw done
  | inr more ↦ let small : leb (2 ^ suc k) (ff - n) ≡ false = ground arith in rw (more, small)
]

-- Unused numbers of an object whose digits are `len` helper variables.
unused-holds :
    (σ : Assignment) (vs : List ℤ) (n repr : ℕ)
    → 0 < n
    → NonZero vs
    → repr ≡ 2 ^ length vs
    → n ≤ repr
    → cnf_holds σ (forbid_blocks vs n (suc (length vs)) repr) ≡ ltb (value σ vs) n
unused-holds σ vs n repr h nz e le = rw (forbidden_start vs n (length vs) repr h le e) (
    forbid_blocks-holds σ vs n (length vs) 1 repr nz (omega arith) (omega arith) le (omega arith)
      (omega arith)
    ∙ ground (arith, value-lt σ vs))

encode_parts :
    (σ : Assignment) (b : BinaryAtMostOne)
    → 1 < b.num_states
    → length b.states ≤ b.num_states
    → NonZero b.states
    → NonZero b.bin_num_vars
    → b.num_repr_states ≡ 2 ^ length b.bin_num_vars
    → b.num_states ≤ b.num_repr_states
    → let v = value σ b.bin_num_vars in
      cnf_holds σ (encode b) ≡ (ltb v b.num_states && marks σ v 0 b.states)
unfolding encode
encode_parts σ b h len nz nv e le =
    let many : leb b.num_states 1 ≡ false = ground arith in
    rw many (
      all-append (clause_holds σ) (all_state_clauses b.bin_num_vars 0 b.states)
        (forbid_blocks b.bin_num_vars b.num_states (suc (length b.bin_num_vars)) b.num_repr_states)
      ∙ ground (
        arith,
        all_state_clauses-holds σ b.bin_num_vars 0 b.states nv nz (omega arith),
        unused-holds σ b.bin_num_vars b.num_states b.num_repr_states (omega arith) nv e le,
      ))

-- For the object that the constructor builds, the clauses of `encode` hold exactly if the helper
-- variables spell a number below `n` and, of all states, just the one with that number holds.
pub encode-holds :
    (σ : Assignment) (states : List ℤ) (n : ℕ) (d : VariableDomain)
    → 1 < n
    → length states ≤ n
    → NonZero states
    → 0 < d.running_var_id
    → let b = (binary_at_most_one states n d).0 in
      let v = value σ b.bin_num_vars in cnf_holds σ (encode b) ≡ (ltb v n && marks σ v 0 states)
unfolding binary_at_most_one
encode-holds σ states n d h len nz vp =
    let c = binary_at_most_one-IsBuilt states n d in
    encode_parts σ (binary_at_most_one states n d).0 h len nz
      (rw c.named (vars_from-NonZero d.running_var_id c.len vp))
      (c.numbers
        ∙ ap (λ k. 2 ^ k) (sym (ap length c.named ∙ length-vars_from d.running_var_id c.len)))
      c.roomy

-- Under the clauses, no two states hold: the encoding is an at-most-one constraint.
pub encode-at_most_one :
    (σ : Assignment) (states : List ℤ) (n : ℕ) (d : VariableDomain)
    → 1 < n
    → length states ≤ n
    → NonZero states
    → 0 < d.running_var_id
    → cnf_holds σ (encode (binary_at_most_one states n d).0) ≡ true
    → (i j : ℕ) (a b : ℤ) → get_elem? states i ≡ some a
    → get_elem? states j ≡ some b
    → holds σ a ≡ true
    → holds σ b ≡ true
    → i ≡ j
encode-at_most_one σ states n d h len nz vp c i j a b ia jb ha hb =
    let v = value σ (binary_at_most_one states n d).0.bin_num_vars in
    let m : marks σ v 0 states ≡ true = ground (arith, encode-holds σ states n d h len nz vp) in
    ground (arith, marks_at σ v 0 states i {l = a} m, marks_at σ v 0 states j {l = b} m)

get_elem?-below : (xs : List ℤ) (i : ℕ) → i < length xs → (a : ℤ) × (get_elem? xs i ≡ some a)
get_elem?-below [] i h = absurd (omega arith)
get_elem?-below (x ∷ xs) zero h = (x, refl)
get_elem?-below (x ∷ xs) (suc i) h = get_elem?-below xs i (omega arith)

-- With as many states as numbers, the clauses also make one state hold.
pub encode-some_state :
    (σ : Assignment) (states : List ℤ) (n : ℕ) (d : VariableDomain)
    → 1 < n
    → length states ≡ n
    → NonZero states
    → 0 < d.running_var_id
    → cnf_holds σ (encode (binary_at_most_one states n d).0) ≡ true
    → (i : ℕ) × (a : ℤ) × (get_elem? states i ≡ some a) × (holds σ a ≡ true)
encode-some_state σ states n d h len nz vp c =
    let v = value σ (binary_at_most_one states n d).0.bin_num_vars in
    let k = encode-holds σ states n d h (omega arith) nz vp in
    let m : marks σ v 0 states ≡ true = ground (arith, k) in
    let (a, e) = get_elem?-below states v (ground (arith, k)) in
    (v, a, e, ground (arith, marks_at σ v 0 states v {l = a} m e))
