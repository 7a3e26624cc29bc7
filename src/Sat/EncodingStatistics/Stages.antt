-- ===== src/Sat/EncodingStatistics/Stages.antt =====
-- The clauses per stage (src/sat/encoding_statistics.h) add up.
use lilotane_smt_csp.Prelude.{
  ℕ, zero, suc, ◌+◌, ◌≤◌, ◌<◌, ◌≡◌, refl, ap, subst, ◌∙◌, true, List, [], ◌∷◌, some, arith, length,
  ltb, all,
}
use lilotane_smt_csp.Sat.EncodingStatistics.{
  EncodingStatistics, new_statistics, add_at, since_start, close_open, begin_stage, end_stage,
  count_clause,
}

pub sum : List ℕ → ℕ
sum [] = 0
sum (x ∷ xs) = x + sum xs

-- A step of the encoding: a stage begins or ends, or a clause is added during a stage.
pub data Step : EncodingStatistics → EncodingStatistics → Type 0 where
  begins : (stage : ℕ) (s : EncodingStatistics) → stage < 21 → Step s (begin_stage stage s)
  ends : (stage : ℕ) (s t : EncodingStatistics) → end_stage stage s ≡ some t → Step s t
  clause :
      (lits stage : ℕ) (stages : List ℕ) (s : EncodingStatistics)
      → s.current_stages ≡ stage ∷ stages
      → Step s (count_clause lits s)

pub data Reached : EncodingStatistics → Type 0 where
  start : Reached new_statistics
  step : {s t : EncodingStatistics} → Reached s → Step s t → Reached t

record IsConsistent (s : EncodingStatistics) : Type 0 where
  stages : length s.num_cls_per_stage ≡ 21
  open_stages : all (λ stage. ltb stage 21) s.current_stages ≡ true
  past : s.num_cls_at_stage_start ≤ s.num_cls
  adds_up : sum s.num_cls_per_stage + since_start s ≡ s.num_cls
  closed : s.current_stages ≡ [] → since_start s ≡ 0

sum-add_at : (stage n : ℕ) (xs : List ℕ) → stage < length xs → sum (add_at stage n xs) ≡ sum xs + n
unfolding sum add_at
sum-add_at stage n [] h = absurd (omega arith)
sum-add_at zero n (x ∷ xs) h = omega arith
sum-add_at (suc stage) n (x ∷ xs) h = omega (arith, sum-add_at stage n xs (omega arith))

length-add_at : (stage n : ℕ) (xs : List ℕ) → length (add_at stage n xs) ≡ length xs
unfolding add_at
length-add_at stage n [] = refl
length-add_at zero n (x ∷ xs) = refl
length-add_at (suc stage) n (x ∷ xs) = ap (λ k. suc k) (length-add_at stage n xs)

sum-close_open :
    (n : ℕ) (stages counts : List ℕ)
    → all (λ stage. ltb stage 21) stages ≡ true
    → length counts ≡ 21
    → (stages ≡ [] → n ≡ 0)
    → (sum (close_open n stages counts) ≡ sum counts + n)
      × (length (close_open n stages counts) ≡ 21)
unfolding close_open
sum-close_open n [] counts h l e = (omega (arith, e refl), l)
sum-close_open n (stage ∷ stages) counts h l e =
    (sum-add_at stage n counts (ground arith), length-add_at stage n counts ∙ l)

begin_stage-IsConsistent :
    (stage : ℕ) (s : EncodingStatistics)
    → stage < 21
    → IsConsistent s
    → IsConsistent (begin_stage stage s)
unfolding begin_stage since_start
begin_stage-IsConsistent stage s h c = record {
  stages = closing.1;
  open_stages = ground (arith, c.open_stages);
  past = omega arith;
  adds_up = omega (arith, closing.0, c.adds_up);
  closed = λ e. omega arith;
}
  where
    closing :
        (sum (close_open (since_start s) s.current_stages s.num_cls_per_stage)
          ≡ sum s.num_cls_per_stage + since_start s)
        × (length (close_open (since_start s) s.current_stages s.num_cls_per_stage) ≡ 21)
    closing =
        sum-close_open (since_start s) s.current_stages s.num_cls_per_stage c.open_stages c.stages
          c.closed

ended :
    (stage : ℕ) (s : EncodingStatistics) (last : ℕ) (stages : List ℕ)
    → s.current_stages ≡ last ∷ stages
    → IsConsistent s
    → IsConsistent (record s {
      num_cls_per_stage = add_at last (since_start s) s.num_cls_per_stage;
      num_cls_at_stage_start = s.num_cls;
      current_stages = stages;
    })
unfolding since_start
ended stage s last stages e c = record {
  stages = length-add_at last (since_start s) s.num_cls_per_stage ∙ c.stages;
  open_stages = ground (arith, opened);
  past = omega arith;
  adds_up = omega (
    arith,
    c.adds_up,
    sum-add_at last (since_start s) s.num_cls_per_stage (ground (arith, opened, c.stages)),
  );
  closed = λ k. omega arith;
}
  where
    opened : all (λ k. ltb k 21) (last ∷ stages) ≡ true
    opened = subst (λ l. all (λ k. ltb k 21) l ≡ true) e c.open_stages

end_stage-IsConsistent :
    (stage : ℕ) (s t : EncodingStatistics)
    → end_stage stage s ≡ some t
    → IsConsistent s
    → IsConsistent t
unfolding end_stage
end_stage-IsConsistent stage s t h c = go s.current_stages refl
  where
    go : (l : List ℕ) → s.current_stages ≡ l → IsConsistent t
    go [] e = absurd (ground (arith, e, h))
    go (last ∷ stages) e = subst IsConsistent same (ended last s last stages e c)
      where
        same :
            record s {
              num_cls_per_stage = add_at last (since_start s) s.num_cls_per_stage;
              num_cls_at_stage_start = s.num_cls;
              current_stages = stages;
            }
            ≡ t
        same = ground (arith, e, h)

count_clause-IsConsistent :
    (lits stage : ℕ) (stages : List ℕ) (s : EncodingStatistics)
    → s.current_stages ≡ stage ∷ stages
    → IsConsistent s
    → IsConsistent (count_clause lits s)
unfolding count_clause since_start
count_clause-IsConsistent lits stage stages s e c = record {
  stages = c.stages;
  open_stages = c.open_stages;
  past = omega (arith, c.past);
  adds_up = omega (arith, c.past, c.adds_up);
  closed = λ k. ground (arith, e, k);
}

new_statistics-IsConsistent : IsConsistent new_statistics
unfolding new_statistics since_start sum
new_statistics-IsConsistent = record {
  stages = refl;
  open_stages = refl;
  past = omega arith;
  adds_up = refl;
  closed = λ e. refl;
}

Step-IsConsistent : {s t : EncodingStatistics} → Step s t → IsConsistent s → IsConsistent t
Step-IsConsistent (begins stage s h) c = begin_stage-IsConsistent stage s h c
Step-IsConsistent (ends stage s t h) c = end_stage-IsConsistent stage s t h c
Step-IsConsistent (clause lits stage stages s e) c =
    count_clause-IsConsistent lits stage stages s e c

Reached-IsConsistent : {s : EncodingStatistics} → Reached s → IsConsistent s
Reached-IsConsistent start = new_statistics-IsConsistent
Reached-IsConsistent (step r st) = Step-IsConsistent st (Reached-IsConsistent r)

-- Where clauses are only added while a stage is open, stages being nested in any way: whenever no stage
-- is open, the numbers of clauses of the stages add up to the number of all clauses that were added.
pub Reached-sum :
    {s : EncodingStatistics}
    → Reached s
    → s.current_stages ≡ []
    → sum s.num_cls_per_stage ≡ s.num_cls
Reached-sum {s = s} r e = omega (arith, c.adds_up, c.closed e)
  where
    c : IsConsistent s
    c = Reached-IsConsistent r
