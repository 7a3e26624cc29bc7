-- ===== src/Sat/EncodingStatistics.antt =====
-- The statistics of the encoding (src/sat/encoding_statistics.h): clauses and literals, and clauses per
-- stage. `int` does not overflow, and the times, the printing and the flag are left out.
pub mod Stages
mod Examples
use lilotane_smt_csp.Prelude.{
  ℕ, zero, suc, ◌+◌, ◌-◌, List, [], ◌∷◌, Option, none, some, if◌then◌else◌, ◌==◌,
}

-- `_current_stages` with its last element first.
pub record EncodingStatistics : Type 0 where
  pub num_cls : ℕ
  pub num_lits : ℕ
  pub num_asmpts : ℕ
  pub prev_num_cls : ℕ
  pub prev_num_lits : ℕ
  pub num_cls_per_stage : List ℕ
  pub current_stages : List ℕ
  pub num_cls_at_stage_start : ℕ

-- The constructor: 21 stages.
unfoldable pub new_statistics : EncodingStatistics
new_statistics = record {
  num_cls = 0;
  num_lits = 0;
  num_asmpts = 0;
  prev_num_cls = 0;
  prev_num_lits = 0;
  num_cls_per_stage =
      0 ∷ 0 ∷ 0 ∷ 0 ∷ 0 ∷ 0 ∷ 0 ∷ 0 ∷ 0 ∷ 0 ∷ 0 ∷ 0 ∷ 0 ∷ 0 ∷ 0 ∷ 0 ∷ 0 ∷ 0 ∷ 0 ∷ 0 ∷ 0 ∷ [];
  current_stages = [];
  num_cls_at_stage_start = 0;
}

pub begin_position : EncodingStatistics → EncodingStatistics
begin_position s = record s { prev_num_cls = s.num_cls; prev_num_lits = s.num_lits }

-- `_num_cls_per_stage[stage] += n`; a stage is one of the 21.
pub add_at : ℕ → ℕ → List ℕ → List ℕ
add_at stage n [] = []
add_at zero n (x ∷ xs) = (x + n) ∷ xs
add_at (suc stage) n (x ∷ xs) = x ∷ add_at stage n xs

pub since_start : EncodingStatistics → ℕ
since_start s = s.num_cls - s.num_cls_at_stage_start

-- The clauses since the start are those of the stage that was open, if there is one.
pub close_open : ℕ → List ℕ → List ℕ → List ℕ
unfolding add_at
close_open n [] counts = counts
close_open n (old_stage ∷ stages) counts = add_at old_stage n counts

unfoldable pub begin_stage : ℕ → EncodingStatistics → EncodingStatistics
unfolding close_open since_start
begin_stage stage s = record s {
  num_cls_per_stage = close_open (since_start s) s.current_stages s.num_cls_per_stage;
  num_cls_at_stage_start = s.num_cls;
  current_stages = stage ∷ s.current_stages;
}

-- `end`, which asserts that the stage is the last one that was begun.
pub end_stage : ℕ → EncodingStatistics → Option EncodingStatistics
unfolding add_at since_start
end_stage stage s = elim s.current_stages [
  | [] ↦ none
  | last ∷ stages ↦
      if last == stage
      then some (record s {
        num_cls_per_stage = add_at stage (since_start s) s.num_cls_per_stage;
        num_cls_at_stage_start = s.num_cls;
        current_stages = stages;
      })
      else none
]

-- What `addClause` of src/sat/sat_interface.h counts, for a clause of `lits` literals.
pub count_clause : ℕ → EncodingStatistics → EncodingStatistics
count_clause lits s = record s { num_cls = s.num_cls + 1; num_lits = s.num_lits + lits }
