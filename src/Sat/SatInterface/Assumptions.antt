-- ===== src/Sat/SatInterface/Assumptions.antt =====
-- The record of the last assumptions (src/sat/sat_interface.h), which the formula file gets.
use lilotane_smt_csp.Prelude.{
  ℕ, ◌≡◌, refl, ap, false, List, [], ◌∷◌, ◌++◌, ℤ, length, arith, length-append, ◌==◌,
  if◌then◌else◌,
}
use lilotane_smt_csp.Sat.EncodingStatistics.{EncodingStatistics}
use lilotane_smt_csp.Sat.SatInterface.{
  SatInterface, new_interface, add_clause, append_clause, end_clause, assume, solve, count_lits,
  count_cls,
}

-- The operations of the interface.
pub data Step (solver : List ℤ → List ℤ → ℤ) : SatInterface → SatInterface → Type 0 where
  adds : (lits : List ℤ) (s : SatInterface) → Step solver s (add_clause lits s)
  appends : (lits : List ℤ) (s : SatInterface) → Step solver s (append_clause lits s)
  ends : (s : SatInterface) → Step solver s (end_clause s)
  assumes : (lit : ℤ) (s : SatInterface) → Step solver s (assume lit s)
  solves : (s : SatInterface) → Step solver s (solve solver s).1

pub data Reached (solver : List ℤ → List ℤ → ℤ) : SatInterface → Type 0 where
  start : (stats : EncodingStatistics) → stats.num_asmpts ≡ 0 → Reached solver (new_interface stats)
  step : {s t : SatInterface} → Reached solver s → Step solver s t → Reached solver t

record IsRecorded (s : SatInterface) : Type 0 where
  counted : s.stats.num_asmpts ≡ length s.assumed
  same : (s.stats.num_asmpts == 0) ≡ false → s.last_assumptions ≡ s.assumed

remembered :
    (n : ℕ) (last assumed : List ℤ)
    → n ≡ length assumed
    → ((n == 0) ≡ false → last ≡ assumed)
    → (if n == 0 then [] else last) ≡ assumed
remembered n last [] h same = rw h refl
remembered n last (a ∷ assumed) h same = ground (arith, h, same)

Step-IsRecorded :
    {solver : List ℤ → List ℤ → ℤ} {s t : SatInterface}
    → Step solver s t
    → IsRecorded s
    → IsRecorded t
unfolding add_clause append_clause end_clause assume solve count_lits count_cls
Step-IsRecorded (adds lits s) r = record { counted = r.counted; same = r.same }
Step-IsRecorded (appends lits s) r = record { counted = r.counted; same = r.same }
Step-IsRecorded (ends s) r = record { counted = r.counted; same = r.same }
Step-IsRecorded (assumes lit s) r = record {
  counted = omega (arith, r.counted, length-append s.assumed (lit ∷ []));
  same = λ h.
      ap (λ l. l ++ (lit ∷ []))
        (remembered s.stats.num_asmpts s.last_assumptions s.assumed r.counted r.same);
}
Step-IsRecorded (solves s) r = record { counted = refl; same = λ h. cc }

Reached-IsRecorded :
    {solver : List ℤ → List ℤ → ℤ} {s : SatInterface} → Reached solver s → IsRecorded s
unfolding new_interface
Reached-IsRecorded (start stats h) = record { counted = h; same = λ k. ground (arith, h, k) }
Reached-IsRecorded (step r st) = Step-IsRecorded st (Reached-IsRecorded r)

-- After a call of `solve`, in whatever order clauses and assumptions were added before, the recorded
-- last assumptions are exactly those that the solver had in this call, in their order; none if there
-- was none.
pub last_assumptions-solve :
    {solver : List ℤ → List ℤ → ℤ} {s : SatInterface}
    → Reached solver s
    → (solve solver s).1.last_assumptions ≡ s.assumed
unfolding solve
last_assumptions-solve {s = s} r =
    remembered s.stats.num_asmpts s.last_assumptions s.assumed c.counted c.same
  where
    c : IsRecorded s
    c = Reached-IsRecorded r
