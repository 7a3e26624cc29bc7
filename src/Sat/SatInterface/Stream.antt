-- ===== src/Sat/SatInterface/Stream.antt =====
-- The clauses that the solver reads from the numbers it is given (src/sat/sat_interface.h).
use lilotane_smt_csp.Prelude.{
  ◌≡◌, refl, ap, sym, ◌∙◌, true, not, List, [], ◌∷◌, ◌++◌, ℤ, pos, if◌then◌else◌, ◌≟◌, int_eq, all,
  arith, length-append,
}
use lilotane_smt_csp.Sat.SatInterface.{
  SatInterface, add_clause, append_clause, end_clause, count_lits, count_cls,
}

-- The reader: the clauses that are complete, and the literals of the one that is not.
unfoldable pub read_number : List (List ℤ) × List ℤ → ℤ → List (List ℤ) × List ℤ
read_number (cnf, open_lits) n =
    if n ≟ pos 0 then (cnf ++ (open_lits ∷ []), []) else (cnf, open_lits ++ (n ∷ []))

unfoldable pub read_numbers : List (List ℤ) × List ℤ → List ℤ → List (List ℤ) × List ℤ
unfolding read_number
read_numbers r [] = r
read_numbers r (n ∷ ns) = read_numbers (read_number r n) ns

unfoldable pub formula : SatInterface → List (List ℤ) × List ℤ
unfolding read_numbers
formula s = read_numbers ([], []) s.added

read_numbers-append :
    (r : List (List ℤ) × List ℤ) (ms ns : List ℤ)
    → read_numbers r (ms ++ ns) ≡ read_numbers (read_numbers r ms) ns
unfolding read_numbers
read_numbers-append r [] ns = refl
read_numbers-append r (m ∷ ms) ns = read_numbers-append (read_number r m) ms ns

append_assoc : {A : Type 0} (xs ys zs : List A) → (xs ++ ys) ++ zs ≡ xs ++ (ys ++ zs)
append_assoc [] ys zs = refl
append_assoc (x ∷ xs) ys zs = ap (λ t. x ∷ t) (append_assoc xs ys zs)

append_nil : {A : Type 0} (xs : List A) → xs ++ [] ≡ xs
append_nil [] = refl
append_nil (x ∷ xs) = ap (λ t. x ∷ t) (append_nil xs)

read_numbers-literals :
    (cnf : List (List ℤ)) (open_lits lits : List ℤ)
    → all (λ l. not (l ≟ pos 0)) lits ≡ true
    → read_numbers (cnf, open_lits) lits ≡ (cnf, open_lits ++ lits)
unfolding read_numbers read_number
read_numbers-literals cnf open_lits [] h = ap (λ t. (cnf, t)) (sym (append_nil open_lits))
read_numbers-literals cnf open_lits (l ∷ lits) h = ground (
  arith,
  read_numbers-literals cnf (open_lits ++ (l ∷ [])) lits,
  append_assoc open_lits (l ∷ []) lits,
)

-- `appendClause` of nonzero literals extends the clause that is open.
pub formula-append_clause :
    (lits : List ℤ) (s : SatInterface)
    → all (λ l. not (l ≟ pos 0)) lits ≡ true
    → formula (append_clause lits s) ≡ ((formula s).0, (formula s).1 ++ lits)
unfolding formula append_clause
formula-append_clause lits s h =
    read_numbers-append ([], []) s.added lits
    ∙ read_numbers-literals (formula s).0 (formula s).1 lits h

formula-end_clause :
    (s : SatInterface) → formula (end_clause s) ≡ ((formula s).0 ++ ((formula s).1 ∷ []), [])
unfolding formula end_clause
formula-end_clause s = read_numbers-append ([], []) s.added (pos 0 ∷ [])

-- Where no clause is open, `addClause` of nonzero literals adds one clause with exactly these literals
-- to the solver's formula, and leaves no clause open.
pub formula-add_clause :
    (lits : List ℤ) (s : SatInterface)
    → all (λ l. not (l ≟ pos 0)) lits ≡ true
    → (formula s).1 ≡ []
    → formula (add_clause lits s) ≡ ((formula s).0 ++ (lits ∷ []), [])
unfolding formula add_clause read_numbers read_number
formula-add_clause lits s h closed =
    read_numbers-append ([], []) s.added (lits ++ (pos 0 ∷ []))
    ∙ read_numbers-append (formula s) lits (pos 0 ∷ [])
    ∙ ap (λ r. read_numbers r (pos 0 ∷ []))
        (read_numbers-literals (formula s).0 (formula s).1 lits h)
    ∙ ap (λ o. ((formula s).0 ++ ((o ++ lits) ∷ []), [])) closed

-- `appendClause` twice and `endClause` give the solver the same numbers, and count the same clauses and
-- literals, as one `addClause` of all the literals.
append_clause-add_clause :
    (first second : List ℤ) (s : SatInterface)
    → let t = end_clause (append_clause second (append_clause first s)) in
      let u = add_clause (first ++ second) s in
      (t.added ≡ u.added)
      × (t.stats.num_cls ≡ u.stats.num_cls)
      × (t.stats.num_lits ≡ u.stats.num_lits)
unfolding append_clause end_clause add_clause count_lits count_cls
append_clause-add_clause first second s = (
  append_assoc (s.added ++ first) second (pos 0 ∷ [])
      ∙ append_assoc s.added first (second ++ (pos 0 ∷ []))
      ∙ ap (λ t. s.added ++ t) (sym (append_assoc first second (pos 0 ∷ []))),
  refl,
  omega (arith, length-append first second),
)
