-- ===== src/Utf8/Tests.antt =====
-- Sizes and cuts of concrete strings (src/ledger.ts).
use opencode_better_compact.Base.{◌≡◌, ◌≤◌, ℕ, refl, [], ◌∷◌, Text, codes, length, take}
use opencode_better_compact.Utf8.{
  has_surrogate_pair, utf8_bytes, utf8_prefix_end, truncate_utf8, bounded_source, code_point_count,
  code_point_prefix_end,
}
use opencode_better_compact.Utf8.Prefix.{SplitsPair, utf8_prefix_end-best}
use opencode_better_compact.Utf8.Truncate.{
  Truncation, IsWellFormed, well_formed_from, truncate_utf8-Truncation, truncate_utf8-IsWellFormed,
  bounded_source-prefix,
}

-- "aé", a face beyond the basic plane, and a lone high surrogate.
abbrev mixed : Text
mixed = 97 ∷ 233 ∷ 55357 ∷ 56832 ∷ 55357 ∷ []

mixed_sizes :
    (utf8_bytes mixed ≡ 10) × (code_point_count mixed ≡ 4) × (code_point_prefix_end mixed 3 ≡ 4)
unfolding utf8_bytes code_point_count code_point_prefix_end
mixed_sizes = (refl, refl, refl)

prefix_stops_before_pair : (utf8_prefix_end mixed 6 ≡ 2) × (utf8_prefix_end mixed 7 ≡ 4)
unfolding utf8_prefix_end
prefix_stops_before_pair = (refl, refl)

truncated : truncate_utf8 (codes "a text longer than that") 18 ≡ codes "a te…[truncated]"
unfolding truncate_utf8 utf8_bytes utf8_prefix_end codes
truncated = refl

marker_cut : truncate_utf8 (codes "a text longer than that") 2 ≡ []
unfolding truncate_utf8 utf8_bytes utf8_prefix_end codes
marker_cut = refl

utf8_prefix_end-best_example :
    (utf8_bytes (take (utf8_prefix_end mixed 6) mixed) ≤ 6)
    × (¬ SplitsPair mixed (utf8_prefix_end mixed 6))
    × ((n : ℕ)
        → n ≤ length mixed
        → ¬ SplitsPair mixed n
        → utf8_bytes (take n mixed) ≤ 6
        → n ≤ utf8_prefix_end mixed 6)
utf8_prefix_end-best_example = utf8_prefix_end-best mixed 6

truncate_utf8-Truncation_example : Truncation mixed 8 (truncate_utf8 mixed 8)
truncate_utf8-Truncation_example = truncate_utf8-Truncation mixed 8

abbrev face : Text
face = 97 ∷ 233 ∷ 55357 ∷ 56832 ∷ []

truncate_utf8-IsWellFormed_example : IsWellFormed (truncate_utf8 face 5)
unfolding well_formed_from has_surrogate_pair
truncate_utf8-IsWellFormed_example = truncate_utf8-IsWellFormed face 5 refl

face_is_cut :
    (utf8_bytes (bounded_source face 4) ≤ 4)
    × ((n : ℕ) × (bounded_source face 4 ≡ take n face))
    × (utf8_bytes face ≤ 4 → bounded_source face 4 ≡ face)
face_is_cut = bounded_source-prefix face 4
