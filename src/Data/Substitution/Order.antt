-- ===== src/Data/Substitution/Order.antt =====
-- The order of the entries. `operator[]` keeps the entries behind the first one in ascending order
-- and all keys distinct, but never puts an entry before the first one: the list depends on the order
-- of the writes, and with it `operator==` and the hash.
use lilotane_smt_csp.Prelude.{
  ◌≡◌, refl, ◌≢◌, true, false, [], ◌∷◌, none, ℤ, ==ℤ_iff, ◌≟◌, int_eq, arith, Bool-cases, inl, inr,
}
use lilotane_smt_csp.Data.Substitution.{Entry, Substitution, lt_int, find, assign, assign_from}
use lilotane_smt_csp.Data.Substitution.Lookup.{
  AllAbove, IsAscending, lt_int_ne, lt_int_trans, lt_int_total, find-assign_from,
}

-- What `operator[]` keeps of a list of entries.
pub data IsKept : Substitution → Type 0 where
  empty : IsKept []
  entries : {e : Entry} {s : Substitution} → IsAscending s → find e.first s ≡ none → IsKept (e ∷ s)

AllAbove-trans : (k j : ℤ) (s : Substitution) → lt_int k j ≡ true → AllAbove j s → AllAbove k s
AllAbove-trans k j [] h a = tt
AllAbove-trans k j (e ∷ s) h a = (lt_int_trans k j e.first h a.0, AllAbove-trans k j s h a.1)

AllAbove-assign_from :
    (b k v : ℤ) (e : Entry) (s : Substitution)
    → AllAbove b (e ∷ s)
    → lt_int b k ≡ true
    → AllAbove b (assign_from k v e s)
unfolding assign_from
AllAbove-assign_from b k v e [] a h = elim (Bool-cases (e.first ≟ k)) [
  | inl hit ↦ rw hit (a.0, tt)
  | inr miss ↦ rw miss (a.0, (h, tt))
]
AllAbove-assign_from b k v e (next ∷ s) a h = elim (Bool-cases (e.first ≟ k)) [
  | inl hit ↦ rw hit a
  | inr miss ↦ elim (Bool-cases (lt_int k next.first)) [
    | inl before ↦ rw (miss, before) (a.0, (h, a.1))
    | inr after ↦ rw (miss, after) (a.0, AllAbove-assign_from b k v next s a.1 h)
  ]
]

-- Behind the first entry the scan never meets an entry above the key.
assign_from-IsAscending :
    (k v : ℤ) (e : Entry) (s : Substitution)
    → IsAscending (e ∷ s)
    → lt_int k e.first ≡ false
    → IsAscending (assign_from k v e s)
unfolding assign_from
assign_from-IsAscending k v e [] a h = elim (Bool-cases (e.first ≟ k)) [
  | inl hit ↦ rw hit a
  | inr miss ↦ rw miss ((lt_int_total e.first k miss h, tt), (tt, tt))
]
assign_from-IsAscending k v e (next ∷ s) a h = elim (Bool-cases (e.first ≟ k)) [
  | inl hit ↦ rw hit a
  | inr miss ↦
      let above = lt_int_total e.first k miss h in
      elim (Bool-cases (lt_int k next.first)) [
        | inl before ↦
            rw (miss, before)
              (
                (
                  above,
                  AllAbove-trans e.first k (next ∷ s) above
                      (before, AllAbove-trans k next.first s before a.1.0),
                ),
                ((before, AllAbove-trans k next.first s before a.1.0), a.1),
              )
        | inr after ↦
            rw (miss, after)
              (
                AllAbove-assign_from e.first k v next s a.0 above,
                assign_from-IsAscending k v next s a.1 after,
              )
      ]
]

-- `s[k] = v` keeps the keys distinct, and the entries behind the first one in ascending order.
pub assign-IsKept : (k v : ℤ) (s : Substitution) → IsKept s → IsKept (assign k v s)
unfolding assign assign_from find
assign-IsKept k v [] o = entries tt refl
assign-IsKept k v (e ∷ []) (entries a n) = elim (Bool-cases (e.first ≟ k)) [
  | inl hit ↦ rw hit (entries tt n)
  | inr miss ↦ rw miss (entries (tt, tt) (ground (arith, ==ℤ_iff e.first k, ==ℤ_iff k e.first)))
]
assign-IsKept k v (e ∷ next ∷ s) (entries a n) = elim (Bool-cases (e.first ≟ k)) [
  | inl hit ↦ rw hit (entries a n)
  | inr miss ↦ elim (Bool-cases (lt_int k next.first)) [
    | inl before ↦
        rw (miss, before)
          (entries ((before, AllAbove-trans k next.first s before a.0), a)
            (ground (arith, ==ℤ_iff e.first k, ==ℤ_iff k e.first, n)))
    | inr after ↦
        rw (miss, after)
          (entries (assign_from-IsAscending k v next s a after) (
            ground (
              arith,
              ==ℤ_iff e.first k,
              ==ℤ_iff k e.first,
              n,
              find-assign_from e.first k v next s,
            )))
  ]
]

-- Two substitutions made by the same two writes in the other order: they agree as maps, and are
-- different lists, so that `operator==` tells them apart.
pub assign-order_matters :
    (j k a b : ℤ)
    → lt_int j k ≡ true
    → ((q : ℤ) → find q (assign j a (assign k b [])) ≡ find q (assign k b (assign j a [])))
      × (assign j a (assign k b []) ≢ assign k b (assign j a []))
unfolding assign assign_from find
assign-order_matters j k a b h = (
  λ q. ground (arith, lt_int_ne j k h, ==ℤ_iff j k, ==ℤ_iff k j, ==ℤ_iff j q, ==ℤ_iff k q),
  λ e. ground (arith, lt_int_ne j k h, ==ℤ_iff j k, ==ℤ_iff k j),
)
