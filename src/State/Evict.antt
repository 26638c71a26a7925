-- ===== src/State/Evict.antt =====
-- src/state.ts: the loop that ends `set` in both stores.
use opencode_better_compact.Base.JsMap.{get, NodupKeys}
use opencode_better_compact.Base.{
  none, some, eq_text_iff, ◌++◌, ◌≤◌, zero, ℕ, suc, ◌-◌, ◌≡◌, refl, ◌≢◌, List, [], ◌∷◌, arith,
  length, drop, All, ltb, ltb→lt, ltb→le, Text, is_empty, false, if◌then◌else◌, Bool-cases, inl,
  inr,
}

is_empty-false : (k : Text) → k ≢ [] → is_empty k ≡ false
is_empty-false [] h = absurd (h refl)
is_empty-false (c ∷ k) h = refl

module _ {ℓ} {V : Type ℓ} where
  -- The loop deletes the first key until the size is within the limit; an empty key ends it. The
  -- first key's entry is the head.
  unfoldable pub evict : ℕ → List (Text × V) → List (Text × V)
  evict limit [] = []
  evict limit ((oldest, v) ∷ rest) =
      let shorter = evict limit rest in
      if ltb limit (length ((oldest, v) ∷ rest))
      then (if is_empty oldest then (oldest, v) ∷ rest else shorter)
      else (oldest, v) ∷ rest

  abbrev pub HasName : Text × V → Type 0
  HasName (k, v) = k ≢ []

  -- With no empty key the loop leaves the newest entries, up to the limit.
  pub evict-eq-drop :
      (limit : ℕ) (m : List (Text × V)) → All HasName m → evict limit m ≡ drop (length m - limit) m
  unfolding evict
  evict-eq-drop limit [] h = rw (z limit)
    where
      z : (n : ℕ) → 0 - n ≡ 0
      z n = omega arith
  evict-eq-drop limit ((k, v) ∷ m) (q, h) = elim (Bool-cases (ltb limit (suc (length m)))) [
    | inl over ↦
        let lt = ltb→lt limit (suc (length m)) over in
        let e : suc (length m) - limit ≡ suc (length m - limit) = omega arith in
        rw (over, is_empty-false k q, e) (evict-eq-drop limit m h)
    | inr fits ↦
        let le = ltb→le limit (suc (length m)) fits in
        let e : suc (length m) - limit ≡ 0 = omega arith in rw (fits, e)
  ]

  pub drop-concat :
      (n : ℕ) (m : List (Text × V)) (e : Text × V)
      → n ≤ length m
      → drop n (m ++ e ∷ []) ≡ drop n m ++ e ∷ []
  drop-concat zero m e h = refl
  drop-concat (suc n) [] e h = absurd (omega arith)
  drop-concat (suc n) (x ∷ m) e h = drop-concat n m e (omega arith)

  pub get-drop-none :
      (n : ℕ) (k : Text) (m : List (Text × V)) → get k m ≡ none → get k (drop n m) ≡ none
  unfolding get
  get-drop-none zero k m h = h
  get-drop-none (suc n) k [] h = refl
  get-drop-none (suc n) k ((j, v) ∷ m) h = ground (arith, get-drop-none n k m)

  -- What is found behind dropped entries was found before.
  pub get-drop :
      (n : ℕ) (k : Text) (v : V) (m : List (Text × V))
      → NodupKeys m
      → get k (drop n m) ≡ some v
      → get k m ≡ some v
  unfolding get
  get-drop zero k v m h e = e
  get-drop (suc n) k v [] h e = e
  get-drop (suc n) k v ((j, w) ∷ m) (fresh, h) e =
      ground (arith, get-drop n k v m h, get-drop-none n k m, eq_text_iff j k)

  pub drop-NodupKeys : (n : ℕ) (m : List (Text × V)) → NodupKeys m → NodupKeys (drop n m)
  drop-NodupKeys zero m h = h
  drop-NodupKeys (suc n) [] h = tt
  drop-NodupKeys (suc n) (e ∷ m) h = drop-NodupKeys n m h.1

  pub drop-All {κ} :
      (Q : Text × V → Type κ) (n : ℕ) (m : List (Text × V)) → All Q m → All Q (drop n m)
  drop-All Q zero m h = h
  drop-All Q (suc n) [] h = tt
  drop-All Q (suc n) (e ∷ m) h = drop-All Q n m h.1
