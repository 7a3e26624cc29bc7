-- ===== src/Sat/Encoding/AtMostOne.antt =====
-- At-most-one constraints (src/sat/encoding.cpp), in `encodeOperationConstraints` and
-- `encodeSubstitutionVars`: binary from a number of literals on that is the option `bamot`, naive
-- below it.
pub mod Exclusive
pub mod Naive
pub mod Ensured
use lilotane_smt_csp.Prelude.{ℕ, suc, Bool, List, [], ◌∷◌, ℤ, neg, length, leb, if◌then◌else◌, some}
use lilotane_smt_csp.Sat.BinaryAmo.{BinaryAtMostOne, binary_at_most_one, encode}
use lilotane_smt_csp.Sat.OrderedSets.{less}
use lilotane_smt_csp.Sat.Encoding.{Encoder, M, ◌>>=◌, ◌>>◌, return, for_each, add_clause}

-- `BinaryAtMostOne(vars, vars.size()+1)`
pub new_amo : List ℤ → M BinaryAtMostOne
new_amo ls s =
    let (b, d) = binary_at_most_one ls (suc (length ls)) s.vars.domain in
    some (b, record s { vars = record s.vars { domain = d } })

pub binary_amo : List ℤ → M (Unit {0})
unfolding new_amo
binary_amo ls = do b ← new_amo ls; for_each (encode b) add_clause

unfoldable pub forbid_both : ℤ → ℤ → M (Unit {0})
forbid_both l k = add_clause (neg l ∷ neg k ∷ [])

-- "Naive at-most-one" of `encodeOperationConstraints`: each element with those behind it.
unfoldable pub naive_amo : List ℤ → M (Unit {0})
unfolding forbid_both
naive_amo [] = return tt
naive_amo (l ∷ ls) = do for_each ls (forbid_both l); naive_amo ls

-- "Naive at-most-one" of `encodeSubstitutionVars`: each variable with the greater ones.
unfoldable pub naive_ordered : List ℤ → M (Unit {0})
unfolding forbid_both
naive_ordered ls =
    for_each ls (λ l. for_each ls (λ k. if less l k then forbid_both l k else return tt))

unfoldable pub element_amo : ℕ → List ℤ → M (Unit {0})
unfolding binary_amo naive_amo
element_amo bamot ls = if leb bamot (length ls) then binary_amo ls else naive_amo ls

unfoldable pub substitution_amo : ℕ → List ℤ → M (Unit {0})
unfolding binary_amo naive_ordered
substitution_amo bamot ls = if leb bamot (length ls) then binary_amo ls else naive_ordered ls
