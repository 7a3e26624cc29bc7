-- ===== src/Data/Position/Supports/Life.antt =====
-- The life of the tables of supports (src/data/position.cpp): what the operations do before and after
-- `clearAtPastPosition`.
use lilotane_smt_csp.Prelude.{
  ◌≡◌, refl, ap, ◌∙◌, Bool, true, false, not, ◌&&◌, ◌||◌, [], Option, none, some, insert_new,
  update, ◌≟◌, arith, xor, ◌↔◌,
}
use lilotane_smt_csp.Data.Signature.{USignature, Signature, usig_eq}
use lilotane_smt_csp.Data.Position.{Position, Pointer, null, live, dangling, USigSetMap}
use lilotane_smt_csp.Data.Position.Expansions.{is_member, is_member-update}
use lilotane_smt_csp.Data.Position.Supports.{
  write, read, free, fact_supports, set_fact_supports, add_fact_support, get_fact_supports,
  clear_at_past_position,
}

abbrev pub is_live {ℓ} : {A : Type ℓ} → Pointer A → Bool
is_live null = false
is_live (live a) = true
is_live dangling = false

abbrev pub is_dangling {ℓ} : {A : Type ℓ} → Pointer A → Bool
is_dangling null = false
is_dangling (live a) = false
is_dangling dangling = true

-- The pointer after a deletion that returns.
abbrev freed {ℓ} : {A : Type ℓ} → Pointer A → Pointer A
freed null = null
freed (live a) = dangling
freed dangling = dangling

-- What a pointer that is not dangling stands for.
abbrev table : Pointer USigSetMap → USigSetMap
table null = []
table (live t) = t
table dangling = []

-- No table has been deleted yet.
unfoldable pub is_open : Position → Bool
is_open p = not (
    is_dangling p.pos_fact_supports
    || is_dangling p.neg_fact_supports
    || is_dangling p.pos_indir_fact_supports
    || is_dangling p.neg_indir_fact_supports)

-- Some table has been made.
pub has_table : Position → Bool
has_table p =
    is_live p.pos_fact_supports
    || is_live p.neg_fact_supports
    || is_live p.pos_indir_fact_supports
    || is_live p.neg_indir_fact_supports

-- `operation` is recorded as a support of the fact, of this sign.
pub in_table : USignature → USignature → Option USigSetMap → Bool
in_table operation usig none = false
in_table operation usig (some t) = is_member operation usig t

pub supports : USignature → USignature → Bool → Position → Bool
unfolding in_table get_fact_supports
supports operation usig negated p = in_table operation usig (get_fact_supports negated p)

in_table-read :
    (o usig : USignature) (t : Pointer USigSetMap)
    → is_dangling t ≡ false
    → is_member o usig (table t) ≡ in_table o usig (read [] t)
unfolding in_table read
in_table-read o usig null h = refl
in_table-read o usig (live t) h = refl
in_table-read o usig dangling h = cc

-- Before the tables are deleted, `addFactSupport` returns, no table is deleted, and afterwards exactly
-- the new operation supports the fact with its sign, next to what supported what before.
add_fact_support-supports :
    (sig : Signature) (operation : USignature) (p : Position)
    → is_open p ≡ true
    → (q : Position) × (add_fact_support sig operation p ≡ some q)
      × (is_open q ≡ true)
      × ((o usig : USignature) (negated : Bool)
          → supports o usig negated q ≡ (
              (not (xor negated sig.negated) && usig ≟ sig.usig && o ≟ operation)
              || supports o usig negated p))
unfolding is_open add_fact_support supports get_fact_supports write read fact_supports
    set_fact_supports in_table xor
add_fact_support-supports sig operation p h =
    (q, ground arith, ground arith, λ o usig negated. tables o usig negated sig.negated)
  where
    written : Pointer USigSetMap → Pointer USigSetMap
    written t = live (update sig.usig [] (insert_new operation) (table t))

    q : Position
    q = set_fact_supports sig.negated p (written (fact_supports sig.negated p))

    tables :
        (o usig : USignature) (negated sign : Bool)
        → supports o usig negated (set_fact_supports sign p (written (fact_supports sign p))) ≡ (
            (not (xor negated sign) && usig ≟ sig.usig && o ≟ operation)
            || supports o usig negated p)
    tables o usig true true =
        is_member-update o usig operation sig.usig (table p.neg_fact_supports)
        ∙ ap (λ b. (usig ≟ sig.usig && o ≟ operation) || b)
            (in_table-read o usig p.neg_fact_supports (ground arith))
    tables o usig false false =
        is_member-update o usig operation sig.usig (table p.pos_fact_supports)
        ∙ ap (λ b. (usig ≟ sig.usig && o ≟ operation) || b)
            (in_table-read o usig p.pos_fact_supports (ground arith))
    tables o usig true false = refl
    tables o usig false true = refl

-- Where no table of supports is deleted, `clearAtPastPosition` returns; afterwards some pointer dangles
-- exactly if some table had been made, and exactly then a second `clearAtPastPosition` has no result.
pub clear_at_past_position-twice :
    (p : Position)
    → is_open p ≡ true
    → (q : Position) × (clear_at_past_position p ≡ some q)
      × (is_open q ≡ not (has_table p))
      × ((clear_at_past_position q ≡ none) ↔ (has_table p ≡ true))
unfolding is_open has_table clear_at_past_position free
clear_at_past_position-twice p h = (q, ground arith, ground arith, ground arith)
  where
    q : Position
    q = record p {
      qfacts = [];
      expansion_substitutions = [];
      axiomatic_ops = [];
      q_constants_type_constraints = [];
      substitution_constraints = [];
      pos_fact_supports = freed p.pos_fact_supports;
      neg_fact_supports = freed p.neg_fact_supports;
      pos_indir_fact_supports = freed p.pos_indir_fact_supports;
      neg_indir_fact_supports = freed p.neg_indir_fact_supports;
    }
