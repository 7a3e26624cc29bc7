-- ===== src/Data/Position/Supports.antt =====
-- The supports of a position's facts (src/data/position.h and .cpp), with the life of their tables on
-- the heap. Each table is made when it is first written; `clearAtPastPosition` deletes all four and
-- leaves the pointers as they are.
pub mod Life
use lilotane_smt_csp.Prelude.{
  ◌≡◌, refl, Bool, true, false, List, [], ◌∷◌, Option, none, some, if◌then◌else◌, insert_new,
  update, Eq, arith, ◌⊎◌, inl, inr, lookup, or_default, mem, ◌≢◌, ◌>>=◌,
}
use lilotane_smt_csp.Sat.LiteralTree.{new_node, insert}
use lilotane_smt_csp.Data.Signature.{USignature, Signature, usig_eq}
use lilotane_smt_csp.Data.SubstitutionConstraint.{IntPair}
use lilotane_smt_csp.Data.Position.{
  Position, Pointer, null, live, dangling, USigSetMap, IndirectFactSupportMap, new_position,
}
use lilotane_smt_csp.Prelude.{int_eq, pair_eq}

-- `if (supp == nullptr) supp = new ...; f(*supp)`
pub write {ℓ} : {A : Type ℓ} → A → (A → A) → Pointer A → Option (Pointer A)
write empty f null = some (live (f empty))
write empty f (live a) = some (live (f a))
write empty f dangling = none

-- `if (p == nullptr) return EMPTY; return *p;`
pub read {ℓ} : {A : Type ℓ} → A → Pointer A → Option A
read empty null = some empty
read empty (live a) = some a
read empty dangling = none

-- `if (p != nullptr) delete p;`
pub free {ℓ} : {A : Type ℓ} → Pointer A → Option (Pointer A)
free null = some null
free (live a) = some dangling
free dangling = none

pub fact_supports : Bool → Position → Pointer USigSetMap
fact_supports negated p = if negated then p.neg_fact_supports else p.pos_fact_supports

pub set_fact_supports : Bool → Position → Pointer USigSetMap → Position
set_fact_supports negated p t =
    if negated then record p { neg_fact_supports = t } else record p { pos_fact_supports = t }

pub indirect_fact_supports : Bool → Position → Pointer IndirectFactSupportMap
indirect_fact_supports negated p =
    if negated then p.neg_indir_fact_supports else p.pos_indir_fact_supports

pub set_indirect_fact_supports : Bool → Position → Pointer IndirectFactSupportMap → Position
set_indirect_fact_supports negated p t =
    if negated
    then record p { neg_indir_fact_supports = t }
    else record p { pos_indir_fact_supports = t }

pub add_fact_support : Signature → USignature → Position → Option Position
unfolding write fact_supports set_fact_supports
add_fact_support sig operation p = do
  supp ← write [] (update sig.usig [] (insert_new operation)) (fact_supports sig.negated p)
  some (set_fact_supports sig.negated p supp)

-- `touchFactSupport`, which makes an empty entry if there is none.
pub touch_fact_support : USignature → Bool → Position → Option Position
unfolding write fact_supports set_fact_supports
touch_fact_support usig negated p = do
  supp ← write [] (update usig [] (λ set. set)) (fact_supports negated p)
  some (set_fact_supports negated p supp)

pub add_indirect_fact_support :
    USignature → Bool → USignature → List IntPair → Position → Option Position
unfolding write indirect_fact_supports set_indirect_fact_supports
add_indirect_fact_support usig negated operation path p = do
  supp ←
      write [] (update usig [] (update operation new_node (insert path)))
        (indirect_fact_supports negated p)
  some (set_indirect_fact_supports negated p supp)

-- `getPosFactSupports` and `getNegFactSupports`.
pub get_fact_supports : Bool → Position → Option USigSetMap
unfolding read fact_supports
get_fact_supports negated p = read [] (fact_supports negated p)

pub get_indirect_fact_supports : Bool → Position → Option IndirectFactSupportMap
unfolding read indirect_fact_supports
get_indirect_fact_supports negated p = read [] (indirect_fact_supports negated p)

pub clear_at_past_position : Position → Option Position
unfolding free
clear_at_past_position p = do
  pos_supports ← free p.pos_fact_supports
  neg_supports ← free p.neg_fact_supports
  pos_indirect ← free p.pos_indir_fact_supports
  neg_indirect ← free p.neg_indir_fact_supports
  some (record p {
    qfacts = [];
    expansion_substitutions = [];
    axiomatic_ops = [];
    q_constants_type_constraints = [];
    substitution_constraints = [];
    pos_fact_supports = pos_supports;
    neg_fact_supports = neg_supports;
    pos_indir_fact_supports = pos_indirect;
    neg_indir_fact_supports = neg_indirect;
  })
