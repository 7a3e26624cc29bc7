-- ===== src/Sat/EncodingStatistics/Examples.antt =====
-- A clause in a stage inside another one (src/sat/encoding_statistics.h).
use lilotane_smt_csp.Prelude.{◌≡◌, refl, [], ◌∷◌, some, arith}
use lilotane_smt_csp.Sat.EncodingStatistics.{
  EncodingStatistics, new_statistics, begin_stage, end_stage, add_at, count_clause, since_start,
}
use lilotane_smt_csp.Sat.EncodingStatistics.Stages.{
  sum, Reached, start, step, begins, ends, clause, Reached-sum,
}

counting : EncodingStatistics
counting = count_clause 3 (begin_stage 2 new_statistics)

opened : (begin_stage 2 new_statistics).current_stages ≡ 2 ∷ []
unfolding begin_stage new_statistics
opened = refl

counting-Reached : Reached counting
unfolding counting
counting-Reached =
    step (step start (begins 2 new_statistics (omega arith)))
      (clause 3 2 [] (begin_stage 2 new_statistics) opened)

-- The stage has ended.
counted : EncodingStatistics
unfolding counting
counted = record counting {
  num_cls_per_stage = add_at 2 (since_start counting) counting.num_cls_per_stage;
  num_cls_at_stage_start = counting.num_cls;
  current_stages = [];
}

stage_ends : end_stage 2 counting ≡ some counted
unfolding counted counting end_stage begin_stage new_statistics count_clause
stage_ends = refl

nothing_open : counted.current_stages ≡ []
unfolding counted
nothing_open = refl

Reached-sum_example : sum counted.num_cls_per_stage ≡ counted.num_cls
Reached-sum_example =
    Reached-sum (step counting-Reached (ends 2 counting counted stage_ends)) nothing_open
