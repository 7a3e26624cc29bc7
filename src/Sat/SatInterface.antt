-- ===== src/Sat/SatInterface.antt =====
-- The interface of the SAT solver (src/sat/sat_interface.h). The solver sees the numbers of `ipasir_add`
-- in their order, 0 behind every clause, and the assumptions before a call of `solve`; what it answers
-- is a parameter. The formula file, which repeats the numbers, the times and the callbacks are left out.
pub mod Stream
pub mod Assumptions
mod Examples
use lilotane_smt_csp.Prelude.{
  ℕ, zero, suc, ◌+◌, Bool, true, false, List, [], ◌∷◌, ◌++◌, ℤ, pos, if◌then◌else◌, ◌==◌, length,
  Option, none, some,
}
use lilotane_smt_csp.Sat.EncodingStatistics.{EncodingStatistics}

-- `added` and `assumed` are the solver's: the numbers added so far, and the assumptions for the next
-- call of `solve`, both in their order.
pub record SatInterface : Type 0 where
  pub added : List ℤ
  pub assumed : List ℤ
  pub stats : EncodingStatistics
  pub began_line : Bool
  pub last_assumptions : List ℤ

unfoldable pub new_interface : EncodingStatistics → SatInterface
new_interface stats = record {
  added = [];
  assumed = [];
  stats = stats;
  began_line = false;
  last_assumptions = [];
}

unfoldable pub count_lits : ℕ → EncodingStatistics → EncodingStatistics
count_lits n s = record s { num_lits = s.num_lits + n }

unfoldable pub count_cls : EncodingStatistics → EncodingStatistics
count_cls s = record s { num_cls = s.num_cls + 1 }

-- `addClause`, of one literal, two, three or a list of them; that no literal is 0 is an assertion.
unfoldable pub add_clause : List ℤ → SatInterface → SatInterface
unfolding count_lits count_cls
add_clause lits s = record s {
  added = s.added ++ (lits ++ (pos 0 ∷ []));
  stats = count_lits (length lits) (count_cls s.stats);
}

-- `appendClause`, of one literal, two or a list.
pub append_clause : List ℤ → SatInterface → SatInterface
unfolding count_lits
append_clause lits s = record s {
  added = s.added ++ lits;
  stats = count_lits (length lits) s.stats;
  began_line = true;
}

-- `endClause`; that a line was begun is an assertion.
pub end_clause : SatInterface → SatInterface
unfolding count_cls
end_clause s = record s {
  added = s.added ++ (pos 0 ∷ []);
  stats = count_cls s.stats;
  began_line = false;
}

-- `assume`
unfoldable pub assume : ℤ → SatInterface → SatInterface
assume lit s =
    let last = (if s.stats.num_asmpts == 0 then [] else s.last_assumptions) in
    record s {
      assumed = s.assumed ++ (lit ∷ []);
      last_assumptions = last ++ (lit ∷ []);
      stats = record s.stats { num_asmpts = s.stats.num_asmpts + 1 };
    }

-- `solve`: the solver forgets its assumptions when it returns.
unfoldable pub solve : (List ℤ → List ℤ → ℤ) → SatInterface → ℤ × SatInterface
solve solver s = (
  solver s.added s.assumed,
  record s {
    assumed = [];
    last_assumptions = if s.stats.num_asmpts == 0 then [] else s.last_assumptions;
    stats = record s.stats { num_asmpts = 0 };
  },
)

pub has_last_assumptions : SatInterface → Bool
has_last_assumptions s = elim s.last_assumptions [ [] ↦ false | lit ∷ lits ↦ true ]
