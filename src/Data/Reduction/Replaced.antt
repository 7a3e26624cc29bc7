-- ===== src/Data/Reduction/Replaced.antt =====
-- What a substitution makes of every part of a reduction (src/data/reduction.cpp).
use lilotane_smt_csp.Prelude.{
  ◌≡◌, refl, ap, ap₂, ◌∙◌, Bool, List, [], ◌∷◌, map, ℤ, any, any-congr, arith,
}
use lilotane_smt_csp.Data.Substitution.{Substitution, image, concatenate}
use lilotane_smt_csp.Data.Substitution.Order.{IsKept}
use lilotane_smt_csp.Data.Substitution.Compose.{image-concatenate}
use lilotane_smt_csp.Data.Signature.{
  USignature, Signature, usig_substitute, sig_substitute, to_signature,
}
use lilotane_smt_csp.Data.HtnOp.{substitute, add_substituted}
use lilotane_smt_csp.Data.HtnOp.Laws.{any-add_substituted}
use lilotane_smt_csp.Data.Reduction.{Reduction, of_op, substitute_red}

-- A signature with every argument replaced.
abbrev pub replace_args : (ℤ → ℤ) → USignature → USignature
replace_args f sig = record { name_id = sig.name_id; args = map f sig.args }

abbrev pub replace_signed : (ℤ → ℤ) → Signature → Signature
replace_signed f sig = record { usig = replace_args f sig.usig; negated = sig.negated }

-- The set `set'` has exactly the signatures of `set` with every argument replaced: the same
-- properties occur among them.
pub IsImageSet : (ℤ → ℤ) → List Signature → List Signature → Type 0
IsImageSet f set set' = (p : Signature → Bool) → any p set' ≡ any (λ y. p (replace_signed f y)) set

-- `r'` is `r` with every argument `x` replaced by `f x`: in the operator, in its preconditions, extra
-- preconditions and effects, in the task and in the subtasks, whose order is kept.
pub record IsReplaced (f : ℤ → ℤ) (r r' : Reduction) : Type 0 where
  pub op_id : r'.op.id ≡ r.op.id
  pub op_args : r'.op.args ≡ map f r.op.args
  pub preconditions : IsImageSet f r.op.preconditions r'.op.preconditions
  pub extra : IsImageSet f r.op.extra_preconditions r'.op.extra_preconditions
  pub effects : IsImageSet f r.op.effects r'.op.effects
  pub task_name : r'.task_name_id ≡ r.task_name_id
  pub task_args : r'.task_args ≡ map f r.task_args
  pub subtasks : r'.subtasks ≡ map (replace_args f) r.subtasks

map-congr :
    {A B : Type 0} (f g : A → B) → ((x : A) → f x ≡ g x) → (xs : List A) → map f xs ≡ map g xs
map-congr f g h [] = refl
map-congr f g h (x ∷ xs) = ap₂ (λ y ys. y ∷ ys) (h x) (map-congr f g h xs)

map-map :
    {A B C : Type 0} (f : A → B) (g : B → C) (xs : List A)
    → map g (map f xs) ≡ map (λ x. g (f x)) xs
map-map f g [] = refl
map-map f g (x ∷ xs) = ap (λ ys. g (f x) ∷ ys) (map-map f g xs)

replace_args-replace_args :
    (f g : ℤ → ℤ) (sig : USignature)
    → replace_args g (replace_args f sig) ≡ replace_args (λ x. g (f x)) sig
replace_args-replace_args f g sig =
    ap (λ xs. record { name_id = sig.name_id; args = xs }) (map-map f g sig.args)

-- One pass.
module _ (s : Substitution) (f : ℤ → ℤ) (values : (x : ℤ) → image s x ≡ f x) where
  usig_substitute-replaces : (sig : USignature) → usig_substitute s sig ≡ replace_args f sig
  unfolding usig_substitute
  usig_substitute-replaces sig =
      ap (λ xs. record { name_id = sig.name_id; args = xs }) (map-congr (image s) f values sig.args)

  sig_substitute-replaces : (sig : Signature) → sig_substitute s sig ≡ replace_signed f sig
  unfolding sig_substitute to_signature
  sig_substitute-replaces sig =
      ap (λ u. record { usig = u; negated = sig.negated }) (usig_substitute-replaces sig.usig)

  add_substituted-IsImageSet : (set : List Signature) → IsImageSet f set (add_substituted s set [])
  unfolding IsImageSet
  add_substituted-IsImageSet set p = ground (
    arith,
    any-add_substituted p s set [],
    any-congr (λ y. p (sig_substitute s y)) (λ y. p (replace_signed f y)) set
        (λ y. ap p (sig_substitute-replaces y)),
  )

  substitute_red-IsReplaced : (r : Reduction) → IsReplaced f r (substitute_red s r)
  unfolding substitute_red substitute of_op
  substitute_red-IsReplaced r = record {
    op_id = refl;
    op_args = map-congr (image s) f values r.op.args;
    preconditions = add_substituted-IsImageSet r.op.preconditions;
    extra = add_substituted-IsImageSet r.op.extra_preconditions;
    effects = add_substituted-IsImageSet r.op.effects;
    task_name = refl;
    task_args = map-congr (image s) f values r.task_args;
    subtasks = map-congr (usig_substitute s) (replace_args f) usig_substitute-replaces r.subtasks;
  }

-- Two passes.
module _ (f g : ℤ → ℤ) where
  IsImageSet-compose :
      (a b c : List Signature) → IsImageSet f a b → IsImageSet g b c → IsImageSet (λ x. g (f x)) a c
  unfolding IsImageSet
  IsImageSet-compose a b c h k p =
      k p
      ∙ h (λ y. p (replace_signed g y))
      ∙ any-congr (λ y. p (replace_signed g (replace_signed f y)))
          (λ y. p (replace_signed (λ x. g (f x)) y)) a
          (λ y.
            ap (λ u. p (record { usig = u; negated = y.negated }))
              (replace_args-replace_args f g y.usig))

  IsReplaced-compose :
      (a b c : Reduction) → IsReplaced f a b → IsReplaced g b c → IsReplaced (λ x. g (f x)) a c
  IsReplaced-compose a b c h k = record {
    op_id = k.op_id ∙ h.op_id;
    op_args = k.op_args ∙ ap (map g) h.op_args ∙ map-map f g a.op.args;
    preconditions = IsImageSet-compose _ _ _ h.preconditions k.preconditions;
    extra = IsImageSet-compose _ _ _ h.extra k.extra;
    effects = IsImageSet-compose _ _ _ h.effects k.effects;
    task_name = k.task_name ∙ h.task_name;
    task_args = k.task_args ∙ ap (map g) h.task_args ∙ map-map f g a.task_args;
    subtasks =
        k.subtasks
        ∙ ap (map (replace_args g)) h.subtasks
        ∙ map-map (replace_args f) (replace_args g) a.subtasks
        ∙ map-congr (λ sig. replace_args g (replace_args f sig)) (replace_args (λ x. g (f x)))
            (replace_args-replace_args f g) a.subtasks;
  }

-- Where the first substitution is a list that `operator[]` can build, both ways to substitute twice,
-- by `concatenate` and one after the other, give the reduction with every argument replaced by its
-- image under the first and then the second: in the operator, in each of its sets, in the task and in
-- the subtasks in their order, with all names and signs kept and nothing left out or added.
pub substitute_red-twice :
    (first second : Substitution) (r : Reduction)
    → IsKept first
    → IsReplaced (λ x. image second (image first x)) r (substitute_red (concatenate first second) r)
      × IsReplaced
          (λ x. image second (image first x))
          r
          (substitute_red second (substitute_red first r))
substitute_red-twice first second r k = (
  substitute_red-IsReplaced (concatenate first second) (λ x. image second (image first x))
      (λ x. image-concatenate first second x k) r,
  IsReplaced-compose (image first) (image second) r (substitute_red first r)
      (substitute_red second (substitute_red first r))
      (substitute_red-IsReplaced first (image first) (λ x. refl) r)
      (substitute_red-IsReplaced second (image second) (λ x. refl) (substitute_red first r)),
)
