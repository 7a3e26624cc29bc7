-- ===== src/Sat/Encoding/Effects/Trees.antt =====
-- The trees of the conjunctions that may undo an effect (src/sat/encoding.cpp).
use lilotane_smt_csp.Prelude.{
  ◌≡◌, refl, ap, Bool, true, false, not, ◌||◌, List, [], ◌∷◌, ℤ, pos, neg, ℕ, zero, suc, ◌<◌, All,
  ◌≟◌, ≟_sound, ≟_refl, Bool-cases, inl, inr, int_eq, list_eq, any, all, arith, mem, &&-eq-true,
  subst,
}
use lilotane_smt_csp.Sat.LiteralTree.{Node, new_node, insert, contains, find}
use lilotane_smt_csp.Sat.LiteralTree.Paths.{IsWf, insert-IsWf, HasLiterals, insert-HasLiterals}
use lilotane_smt_csp.Sat.LiteralTree.Contains.{contains-insert}
use lilotane_smt_csp.Sat.LiteralTree.Encode.{PathHolds}
use lilotane_smt_csp.Sat.Clauses.{Assignment, holds, holds-neg}
use lilotane_smt_csp.Sat.Encoding.Effects.{insert_sets}
use lilotane_smt_csp.Sat.Encoding.Unify.Meaning.{nonzero}

module _ (σ : Assignment) where
  abbrev pub IsLiteral : ℤ → Type 0
  IsLiteral l = nonzero l ≡ true

  pub IsLiteral-neg : (l : ℤ) → IsLiteral l → holds σ (neg l) ≡ not (holds σ l)
  unfolding nonzero
  IsLiteral-neg l h = holds-neg σ l (λ e. let no : IsLiteral (pos 0) = subst IsLiteral e h in cc no)

  pub positive-IsLiteral : (v : ℕ) → 0 < v → IsLiteral (pos v)
  unfolding nonzero
  positive-IsLiteral zero p = absurd (omega (arith, p))
  positive-IsLiteral (suc v) p = ground arith

  contains-insert_sets :
      (p : List ℤ) (sets : List (List ℤ)) (t : Node ℤ)
      → contains p (insert_sets sets t) ≡ (mem p sets || contains p t)
  unfolding insert_sets mem
  contains-insert_sets p [] t = refl
  contains-insert_sets p (s ∷ sets) t =
      ground (arith, contains-insert_sets p sets (insert s t), contains-insert p s t)

  pub insert_sets-IsWf : (sets : List (List ℤ)) (t : Node ℤ) → IsWf t → IsWf (insert_sets sets t)
  unfolding insert_sets
  insert_sets-IsWf [] t w = w
  insert_sets-IsWf (s ∷ sets) t w = insert_sets-IsWf sets (insert s t) (insert-IsWf s t w)

  any-mem :
      (f : List ℤ → Bool) (p : List ℤ) (sets : List (List ℤ))
      → mem p sets ≡ true
      → f p ≡ true
      → any f sets ≡ true
  unfolding mem
  any-mem f p [] m h = cc m
  any-mem f p (s ∷ sets) m h = ground (arith, any-mem f p sets, same)
    where
      same : p ≟ s ≡ true → f p ≡ f s
      same e = ap f (≟_sound p s e)

  pub some_set :
      (sets : List (List ℤ))
      → PathHolds (holds σ) (insert_sets sets new_node)
      → any (all (holds σ)) sets ≡ true
  unfolding contains find
  some_set sets p =
      any-mem (all (holds σ)) p.path sets
        (ground (arith, p.member, contains-insert_sets p.path sets new_node, nothing p.path))
        p.true_on
    where
      nothing : (q : List ℤ) → contains q new_node ≡ false
      nothing [] = refl
      nothing (x ∷ q) = refl

  mem-any :
      (f : List ℤ → Bool) (sets : List (List ℤ))
      → any f sets ≡ true
      → (p : List ℤ) × (mem p sets ≡ true) × (f p ≡ true)
  unfolding mem
  mem-any f [] h = cc h
  mem-any f (s ∷ sets) h = elim (Bool-cases (f s)) [
    | inl hit ↦ (s, ground (arith, ≟_refl s), hit)
    | inr miss ↦
        let (p, m, k) = mem-any f sets (ground (arith, h, miss)) in (p, ground (arith, m), k)
  ]

  -- Where all literals of one of the sets hold, some path of their tree is true.
  pub set-PathHolds :
      (sets : List (List ℤ))
      → any (all (holds σ)) sets ≡ true
      → PathHolds (holds σ) (insert_sets sets new_node)
  set-PathHolds sets h =
      let (p, m, k) = mem-any (all (holds σ)) sets h in
      record {
        path = p;
        member = ground (arith, m, contains-insert_sets p sets new_node);
        true_on = k;
      }

  All_literals : (s : List ℤ) → all nonzero s ≡ true → All IsLiteral s
  All_literals [] h = tt
  All_literals (l ∷ s) h =
      let both = (&&-eq-true (nonzero l) (all nonzero s)).0 h in (both.0, All_literals s both.1)

  pub insert_sets-HasLiterals :
      (sets : List (List ℤ)) (t : Node ℤ)
      → all (all nonzero) sets ≡ true
      → HasLiterals IsLiteral t
      → HasLiterals IsLiteral (insert_sets sets t)
  unfolding insert_sets
  insert_sets-HasLiterals [] t h w = w
  insert_sets-HasLiterals (s ∷ sets) t h w =
      let both = (&&-eq-true (all nonzero s) (all (all nonzero) sets)).0 h in
      insert_sets-HasLiterals sets (insert s t) both.1
        (insert-HasLiterals IsLiteral s t (All_literals s both.0) w)
