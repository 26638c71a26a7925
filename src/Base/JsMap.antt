-- ===== src/Base/JsMap.antt =====
-- A JavaScript `Map` with string keys: its entries in insertion order.
use opencode_better_compact.Base.{
  ◌≤◌, ◌≡◌, refl, ◌≢◌, Bool, Option, none, some, List, [], ◌∷◌, ◌++◌, arith, length, keep, All,
  Text, eq_text, eq_text_iff, if◌then◌else◌,
}

module _ {ℓ} {V : Type ℓ} where
  unfoldable pub get : Text → List (Text × V) → Option V
  get k [] = none
  get k ((j, v) ∷ m) = if eq_text j k then some v else get k m

  -- `map.set(k, v)`: a key that is there keeps its place.
  unfoldable pub set : Text → V → List (Text × V) → List (Text × V)
  set k v [] = (k, v) ∷ []
  set k v ((j, w) ∷ m) = if eq_text j k then (j, v) ∷ m else (j, w) ∷ set k v m

  -- `map.delete(k)`
  unfoldable pub delete : Text → List (Text × V) → List (Text × V)
  delete k [] = []
  delete k ((j, w) ∷ m) = if eq_text j k then m else (j, w) ∷ delete k m

  abbrev pub values : List (Text × V) → List V
  values [] = []
  values ((k, v) ∷ m) = v ∷ values m

  abbrev pub NodupKeys : List (Text × V) → Type ℓ
  NodupKeys [] = Unit
  NodupKeys ((k, v) ∷ m) = (get k m ≡ none) × NodupKeys m

  pub get-set :
      (j k : Text) (v : V) (m : List (Text × V))
      → get j (set k v m) ≡ (if eq_text k j then some v else get j m)
  unfolding get set
  get-set j k v [] = refl
  get-set j k v ((i, w) ∷ m) =
      ground (arith, eq_text_iff i k, eq_text_iff i j, eq_text_iff k j, get-set j k v m)

  pub set_of_absent :
      (k : Text) (v : V) (m : List (Text × V)) → get k m ≡ none → set k v m ≡ m ++ (k, v) ∷ []
  unfolding get set
  set_of_absent k v [] h = refl
  set_of_absent k v ((i, w) ∷ m) h = ground (arith, set_of_absent k v m)

  pub get-delete_self : (k : Text) (m : List (Text × V)) → NodupKeys m → get k (delete k m) ≡ none
  unfolding get delete
  get-delete_self k [] h = refl
  get-delete_self k ((i, w) ∷ m) (fresh, h) = ground (arith, eq_text_iff i k, get-delete_self k m h)

  pub get-delete_ne : (j k : Text) (m : List (Text × V)) → j ≢ k → get j (delete k m) ≡ get j m
  unfolding get delete
  get-delete_ne j k [] h = refl
  get-delete_ne j k ((i, w) ∷ m) h =
      ground (arith, eq_text_iff i k, eq_text_iff i j, get-delete_ne j k m h)

  pub get-delete-none :
      (j k : Text) (m : List (Text × V)) → get j m ≡ none → get j (delete k m) ≡ none
  unfolding get delete
  get-delete-none j k [] h = refl
  get-delete-none j k ((i, w) ∷ m) h = ground (arith, get-delete-none j k m)

  pub delete-NodupKeys : (k : Text) (m : List (Text × V)) → NodupKeys m → NodupKeys (delete k m)
  unfolding delete
  delete-NodupKeys k [] h = tt
  delete-NodupKeys k ((i, w) ∷ m) (fresh, h) =
      ground (arith, delete-NodupKeys k m h, get-delete-none i k m fresh)

  pub get-append : (j : Text) (m n : List (Text × V)) → get j m ≡ none → get j (m ++ n) ≡ get j n
  unfolding get
  get-append j [] n h = refl
  get-append j ((i, w) ∷ m) n h = ground (arith, get-append j m n)

  pub get-append_some :
      (j : Text) (v : V) (m n : List (Text × V)) → get j m ≡ some v → get j (m ++ n) ≡ some v
  unfolding get
  get-append_some j v [] n h = cc
  get-append_some j v ((i, w) ∷ m) n h = ground (arith, get-append_some j v m n)

  pub append-NodupKeys :
      (k : Text) (v : V) (m : List (Text × V))
      → NodupKeys m
      → get k m ≡ none
      → NodupKeys (m ++ (k, v) ∷ [])
  unfolding get
  append-NodupKeys k v [] h e = (refl, tt)
  append-NodupKeys k v ((i, w) ∷ m) (fresh, h) e = ground (
    arith,
    append-NodupKeys k v m h,
    get-append i m ((k, v) ∷ []) fresh,
    eq_text_iff k i,
    eq_text_iff i k,
  )

  pub get-keep-none :
      (p : Text × V → Bool) (k : Text) (m : List (Text × V))
      → get k m ≡ none
      → get k (keep p m) ≡ none
  unfolding get
  get-keep-none p k [] h = refl
  get-keep-none p k ((i, w) ∷ m) h = ground (arith, get-keep-none p k m)

  pub keep-NodupKeys :
      (p : Text × V → Bool) (m : List (Text × V)) → NodupKeys m → NodupKeys (keep p m)
  keep-NodupKeys p [] h = tt
  keep-NodupKeys p ((i, w) ∷ m) (fresh, h) =
      ground (arith, keep-NodupKeys p m h, get-keep-none p i m fresh)

  pub get-keep :
      (p : Text × V → Bool) (k : Text) (v : V) (m : List (Text × V))
      → NodupKeys m
      → get k (keep p m) ≡ some v
      → get k m ≡ some v
  unfolding get
  get-keep p k v [] h e = e
  get-keep p k v ((i, w) ∷ m) (fresh, h) e =
      ground (arith, get-keep p k v m h, get-keep-none p k m, eq_text_iff i k)

  pub delete-All {κ} :
      (P : Text × V → Type κ) (k : Text) (m : List (Text × V)) → All P m → All P (delete k m)
  unfolding delete
  delete-All P k [] h = tt
  delete-All P k ((i, w) ∷ m) (p, h) = ground (arith, delete-All P k m h)

  pub length-delete-le : (k : Text) (m : List (Text × V)) → length (delete k m) ≤ length m
  unfolding delete
  length-delete-le k [] = omega arith
  length-delete-le k ((i, w) ∷ m) = ground (arith, length-delete-le k m)
