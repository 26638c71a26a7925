-- ===== src/Vcc/Order.antt =====
-- src/vcc.ts: the order of strings by code points and the sorted sets of identities
-- (`compareCodePoints`, `uniqueSorted`).
pub mod Laws
pub mod Sets
pub mod Distinct
use Prim.Native.Nat.{Ordering, compare}
use opencode_better_compact.Base.{
  ℕ, ◌+◌, ◌-◌, ◌*◌, Bool, true, false, ◌&&◌, List, [], ◌∷◌, Text, member, is_empty, if◌then◌else◌,
}
use opencode_better_compact.Base.Sort.{sort}
use opencode_better_compact.Utf8.{is_high, is_low}

-- `codePointAt(0)` of a surrogate pair
abbrev pub combine : ℕ → ℕ → ℕ
combine high low = 0x10000 + (high - 0xd800) * 0x400 + (low - 0xdc00)

-- The code points of `Array.from(value)`; a lone surrogate stands for itself.
unfoldable pub code_points : Text → List ℕ
code_points [] = []
code_points (c ∷ []) = c ∷ []
code_points (c ∷ d ∷ rest) =
    let pair = combine c d ∷ code_points rest in
    let single = c ∷ code_points (d ∷ rest) in if is_high c && is_low d then pair else single

-- The first difference decides, and then the length.
unfoldable pub compare_points : List ℕ → List ℕ → Ordering
compare_points [] [] = Ordering.eq
compare_points [] (b ∷ right) = Ordering.lt
compare_points (a ∷ left) [] = Ordering.gt
compare_points (a ∷ left) (b ∷ right) = elim (compare a b) [
  | Ordering.lt ↦ Ordering.lt
  | Ordering.gt ↦ Ordering.gt
  | Ordering.eq ↦ compare_points left right
]

unfoldable pub compare_code_points : Text → Text → Ordering
unfolding code_points compare_points
compare_code_points left right = compare_points (code_points left) (code_points right)

-- `[...new Set(values)]`: the first occurrences.
unfoldable pub unique_from : List Text → List Text → List Text
unique_from seen [] = []
unique_from seen (x ∷ xs) = elim (member x seen) [
  | true ↦ unique_from seen xs
  | false ↦ x ∷ unique_from (x ∷ seen) xs
]

unfoldable pub unique : List Text → List Text
unfolding unique_from
unique values = unique_from [] values

unfoldable pub unique_sorted : List Text → List Text
unfolding unique compare_code_points
unique_sorted values = sort compare_code_points (unique values)
