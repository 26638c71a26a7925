-- ===== src/Base/Texts.antt =====
-- A JavaScript string is the list of its UTF-16 code units.
use Prim.Native.Nat.{ℕ}
use Prim.Native.Char.{code}
use Prim.Native.String.{String}
use mathlib.Core.Path.{◌≡◌, refl}
use mathlib.Core.Logic.{◌↔◌}
use mathlib.Core.Bool.{Bool, true, false, ◌&&◌}
use mathlib.Core.List.{List, [], ◌∷◌}
use native.Mathlib.Omega.{arith}
use opencode_better_compact.Base.Bools.{◌==◌}

abbrev pub Text : Type 0
Text = List ℕ

-- A literal whose characters all lie in the basic plane: one code unit each.
unfoldable pub codes : String → Text
codes String.[] = []
codes (String.◌∷◌ c s) = code c ∷ codes s

-- `left === right`
unfoldable pub eq_text : Text → Text → Bool
eq_text [] [] = true
eq_text [] (b ∷ t) = false
eq_text (a ∷ s) [] = false
eq_text (a ∷ s) (b ∷ t) = a == b && eq_text s t

pub eq_text_refl : (s : Text) → eq_text s s ≡ true
unfolding eq_text
eq_text_refl [] = refl
eq_text_refl (a ∷ s) = ground (arith, eq_text_refl s)

pub eq_text-eq : (s t : Text) → eq_text s t ≡ true → s ≡ t
unfolding eq_text
eq_text-eq [] [] h = refl
eq_text-eq [] (b ∷ t) h = cc
eq_text-eq (a ∷ s) [] h = cc
eq_text-eq (a ∷ s) (b ∷ t) h = ground (arith, eq_text-eq s t)

pub eq_text_iff : (s t : Text) → (eq_text s t ≡ true) ↔ (s ≡ t)
eq_text_iff s t = (eq_text-eq s t, λ e. subst_eq e)
  where
    subst_eq : s ≡ t → eq_text s t ≡ true
    subst_eq e = rw e (eq_text_refl t)

abbrev pub is_empty {ℓ} : {A : Type ℓ} → List A → Bool
is_empty [] = true
is_empty (x ∷ xs) = false

-- `value.startsWith(prefix)`
unfoldable pub starts_with : Text → Text → Bool
starts_with s [] = true
starts_with [] (p ∷ ps) = false
starts_with (c ∷ s) (p ∷ ps) = c == p && starts_with s ps

-- `value.includes(part)`
unfoldable pub includes : Text → Text → Bool
unfolding starts_with
includes [] part = is_empty part
includes (c ∷ s) part = elim (starts_with (c ∷ s) part) [ true ↦ true | false ↦ includes s part ]

-- `values.includes(value)`, and membership of a `Set`.
unfoldable pub member : Text → List Text → Bool
member x [] = false
member x (y ∷ ys) = elim (eq_text x y) [ true ↦ true | false ↦ member x ys ]

-- `[...new Set(values)].length === values.length` is this test.
unfoldable pub distinct : List Text → Bool
unfolding member
distinct [] = true
distinct (x ∷ xs) = elim (member x xs) [ true ↦ false | false ↦ distinct xs ]

pub member_later :
    (x y : Text) (seen : List Text) → member x seen ≡ true → member x (y ∷ seen) ≡ true
unfolding member
member_later x y seen m = ground arith

pub member_here : (x : Text) (seen : List Text) → member x (x ∷ seen) ≡ true
unfolding member
member_here x seen = rw (eq_text_refl x, member)
