-- ===== src/Data/Layer.antt =====
-- Layers of positions (src/data/layer.h and .cpp). Of a position the layer reads only
-- `getMaxExpansionSize`, so that the content stands here as the list of these sizes. `int` does not
-- overflow here: the sum of the sizes is the size of the next layer, which is held in memory.
mod Examples
use lilotane_smt_csp.Prelude.{
  ℕ, zero, suc, ◌+◌, ◌-◌, ◌≤◌, ◌<◌, ◌≡◌, refl, ap, ap₂, Bool, true, false, ◌&&◌, List, [], ◌∷◌,
  ◌++◌, length, ltb, leb, if◌then◌else◌, arith, get_or, length-append,
}

pub record Layer : Type 0 where
  pub index : ℕ
  pub content : List ℕ
  pub successor_positions : List ℕ

-- The loop of `consolidate`, and the offsets that it pushes.
pub offsets : ℕ → List ℕ → List ℕ
offsets succ [] = []
offsets succ (size ∷ sizes) = succ ∷ offsets (succ + size) sizes

pub consolidate : Layer → Layer
unfolding offsets
consolidate l = record l { successor_positions = l.successor_positions ++ offsets 0 l.content }

pub last_of : ℕ → List ℕ → ℕ
last_of d [] = d
last_of d (x ∷ xs) = last_of x xs

-- `getNextLayerSize`: the last offset and one.
pub get_next_layer_size : Layer → ℕ
unfolding last_of
get_next_layer_size l = last_of 0 l.successor_positions + 1

-- `getSuccessorPos`; the index is within the list by its assertion.
pub get_successor_pos : Layer → ℕ → ℕ
get_successor_pos l old_pos = get_or l.successor_positions old_pos 0

-- The loop of `getPredecessorPosAndOffset`, on the rounds that may be left.
pub scan : Layer → ℕ → ℕ → ℕ → ℕ
unfolding get_successor_pos
scan l new_pos zero old_pos = old_pos
scan l new_pos (suc fuel) old_pos =
    let further = scan l new_pos fuel (old_pos + 1) in
    if ltb (old_pos + 1) (length l.content) && leb (get_successor_pos l (old_pos + 1)) new_pos
    then further
    else old_pos

pub get_predecessor_pos_and_offset : Layer → ℕ → ℕ × ℕ
unfolding scan
get_predecessor_pos_and_offset l new_pos =
    let old_pos = scan l new_pos (length l.content) 0 in
    (old_pos, new_pos - get_successor_pos l old_pos)

prefix_sum : List ℕ → ℕ → ℕ
prefix_sum sizes zero = 0
prefix_sum [] (suc i) = 0
prefix_sum (size ∷ sizes) (suc i) = size + prefix_sum sizes i

get_or-offsets :
    (succ : ℕ) (sizes : List ℕ) (i : ℕ)
    → i < length sizes
    → get_or (offsets succ sizes) i 0 ≡ succ + prefix_sum sizes i
unfolding offsets prefix_sum
get_or-offsets succ [] i h = omega arith
get_or-offsets succ (size ∷ sizes) zero h = omega arith
get_or-offsets succ (size ∷ sizes) (suc i) h =
    omega (arith, get_or-offsets (succ + size) sizes i (omega arith))

prefix_sum_mono :
    (sizes : List ℕ) (i j : ℕ) → i ≤ j → j ≤ length sizes → prefix_sum sizes i ≤ prefix_sum sizes j
unfolding prefix_sum
prefix_sum_mono sizes zero j h b = omega arith
prefix_sum_mono sizes (suc i) zero h b = omega arith
prefix_sum_mono [] (suc i) (suc j) h b = omega arith
prefix_sum_mono (size ∷ sizes) (suc i) (suc j) h b =
    omega (arith, prefix_sum_mono sizes i j (omega arith) (omega arith))

prefix_sum_suc :
    (sizes : List ℕ) (i : ℕ)
    → i < length sizes
    → prefix_sum sizes (i + 1) ≡ prefix_sum sizes i + get_or sizes i 0
unfolding prefix_sum
prefix_sum_suc [] i h = omega arith
prefix_sum_suc (size ∷ sizes) zero h = ground arith
prefix_sum_suc (size ∷ sizes) (suc i) h = ground (arith, prefix_sum_suc sizes i)

scan_finds :
    (l : Layer) (new_pos p fuel old_pos : ℕ)
    → ((i : ℕ) → i ≤ p → get_successor_pos l i ≤ new_pos)
    → (p + 1 < length l.content → new_pos < get_successor_pos l (p + 1))
    → p < length l.content
    → old_pos ≤ p
    → p ≤ old_pos + fuel
    → scan l new_pos fuel old_pos ≡ p
unfolding scan
scan_finds l new_pos p zero old_pos below above bound lo hi = omega arith
scan_finds l new_pos p (suc fuel) old_pos below above bound lo hi =
    ground (
      arith,
      scan_finds l new_pos p fuel (old_pos + 1) below above bound,
      below (old_pos + 1),
      above,
    )

-- The layer before `consolidate`.
pub new_layer : ℕ → List ℕ → Layer
new_layer index sizes = record { index = index; content = sizes; successor_positions = [] }

successor_of :
    (index : ℕ) (sizes : List ℕ) (i : ℕ)
    → i < length sizes
    → get_successor_pos (consolidate (new_layer index sizes)) i ≡ prefix_sum sizes i
unfolding get_successor_pos consolidate new_layer
successor_of index sizes i h = omega (arith, get_or-offsets 0 sizes i h)

-- In a consolidated layer every pair of a position and an offset below its expansion size is what
-- `getPredecessorPosAndOffset` finds for the position `getSuccessorPos + offset` of the next layer;
-- the sizes may be any, and the offset of the last position too.
pub get_predecessor_pos_and_offset-consolidate :
    (index : ℕ) (sizes : List ℕ) (p offset : ℕ)
    → p < length sizes
    → (p + 1 < length sizes → offset < get_or sizes p 0)
    → let l = consolidate (new_layer index sizes) in
      get_predecessor_pos_and_offset l (get_successor_pos l p + offset) ≡ (p, offset)
unfolding get_predecessor_pos_and_offset consolidate new_layer
get_predecessor_pos_and_offset-consolidate index sizes p offset h ho =
    ap₂ (λ a b. (a, b)) found (rw (ap (get_successor_pos l) found) (omega arith))
  where
    l : Layer
    l = consolidate (new_layer index sizes)

    at_p : get_successor_pos l p ≡ prefix_sum sizes p
    at_p = successor_of index sizes p h

    below : (i : ℕ) → i ≤ p → get_successor_pos l i ≤ get_successor_pos l p + offset
    below i hi = omega (
      arith,
      at_p,
      successor_of index sizes i (omega arith),
      prefix_sum_mono sizes i p hi (omega arith),
    )

    above : p + 1 < length sizes → get_successor_pos l p + offset < get_successor_pos l (p + 1)
    above hp =
        omega (arith, at_p, successor_of index sizes (p + 1) hp, prefix_sum_suc sizes p h, ho hp)

    found : scan l (get_successor_pos l p + offset) (length sizes) 0 ≡ p
    found =
        scan_finds l (get_successor_pos l p + offset) p (length sizes) 0 below above h (omega arith)
          (omega arith)
