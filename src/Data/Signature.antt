-- ===== src/Data/Signature.antt =====
-- Signatures (src/data/signature.h and .cpp): a name with arguments, and a sign for facts. A
-- signature is a value; copies and moves are its constructors.
use lilotane_smt_csp.Prelude.{
  ℕ, ◌≡◌, refl, ap, ap₂, ◌↔◌, Bool, true, false, not, List, [], ◌∷◌, map, ℤ, negsuc, Eq, ◌≟◌,
  int_eq, list_eq, list_beq, list_beq_iff, ==ℤ_iff, if◌then◌else◌, arith,
}
use lilotane_smt_csp.Data.Substitution.{Substitution, image, concatenate}
use lilotane_smt_csp.Data.Substitution.Order.{IsKept}
use lilotane_smt_csp.Data.Substitution.Compose.{image-concatenate}

pub record TypeConstraint : Type 0 where
  pub qconstant : ℤ
  pub sign : Bool
  pub constants : List ℤ

pub record USignature : Type 0 where
  pub name_id : ℤ
  pub args : List ℤ

pub record Signature : Type 0 where
  pub usig : USignature
  pub negated : Bool

pub record PositionedUSig : Type 0 where
  pub layer : ℕ
  pub pos : ℕ
  pub usig : USignature

-- `Sig::NONE_SIG`.
abbrev pub none_sig : USignature
none_sig = record { name_id = negsuc 0; args = [] }

-- `USignature::operator==`.
abbrev pub usig_beq : USignature → USignature → Bool
usig_beq a b =
    if not (a.name_id ≟ b.name_id)
    then false
    else if not (list_beq a.args b.args)
    then false
    else true

pub usig_beq_iff : (a b : USignature) → (usig_beq a b ≡ true) ↔ (a ≡ b)
usig_beq_iff a b = ground (arith, ==ℤ_iff a.name_id b.name_id, list_beq_iff a.args b.args)

instance abbrev pub usig_eq : Eq USignature
usig_eq = record { beq = usig_beq; beq_iff = usig_beq_iff }

abbrev same_sign : Bool → Bool → Bool
same_sign true b = b
same_sign false b = not b

-- `Signature::operator==`.
abbrev pub sig_beq : Signature → Signature → Bool
sig_beq a b =
    if not (same_sign a.negated b.negated)
    then false
    else if not (a.usig ≟ b.usig)
    then false
    else true

pub sig_beq_iff : (a b : Signature) → (sig_beq a b ≡ true) ↔ (a ≡ b)
sig_beq_iff a b = ground (arith, usig_beq_iff a.usig b.usig)

instance abbrev pub sig_eq : Eq Signature
sig_eq = record { beq = sig_beq; beq_iff = sig_beq_iff }

-- `apply` and `substitute`. That no argument becomes 0 is an assertion.
unfoldable pub usig_substitute : Substitution → USignature → USignature
usig_substitute s sig = record sig { args = map (image s) sig.args }

pub renamed : ℤ → USignature → USignature
renamed name sig = record sig { name_id = name }

unfoldable pub to_signature : USignature → Bool → Signature
to_signature sig negated = record { usig = sig; negated = negated }

pub negate : Signature → Signature
negate sig = record sig { negated = not sig.negated }

-- `opposite` as it is written: only a negated signature is negated.
pub opposite : Signature → Signature
unfolding negate
opposite sig = if sig.negated then negate sig else sig

unfoldable pub sig_substitute : Substitution → Signature → Signature
unfolding usig_substitute to_signature
sig_substitute s sig = to_signature (usig_substitute s sig.usig) sig.negated

pub map-image-concatenate :
    (first second : Substitution) (xs : List ℤ)
    → IsKept first
    → map (image (concatenate first second)) xs ≡ map (image second) (map (image first) xs)
map-image-concatenate first second [] k = refl
map-image-concatenate first second (x ∷ xs) k =
    ap₂ (λ y ys. y ∷ ys) (image-concatenate first second x k)
      (map-image-concatenate first second xs k)

pub usig_substitute-concatenate :
    (first second : Substitution) (sig : USignature)
    → IsKept first
    → usig_substitute (concatenate first second) sig
      ≡ usig_substitute second (usig_substitute first sig)
unfolding usig_substitute
usig_substitute-concatenate first second sig k =
    ap (λ xs. record sig { args = xs }) (map-image-concatenate first second sig.args k)

-- To substitute in a signature by `concatenate` is to substitute twice.
pub sig_substitute-concatenate :
    (first second : Substitution) (sig : Signature)
    → IsKept first
    → sig_substitute (concatenate first second) sig
      ≡ sig_substitute second (sig_substitute first sig)
unfolding sig_substitute
sig_substitute-concatenate first second sig k =
    ap (λ xs. record sig { usig = record sig.usig { args = xs } })
      (map-image-concatenate first second sig.usig.args k)

-- The result of `opposite` is never negated: the opposite of a positive signature is itself.
pub opposite_positive : (sig : Signature) → opposite sig ≡ record sig { negated = false }
unfolding opposite
opposite_positive sig = ground arith
