-- ===== src/State/VccAttempts/Stored.antt =====
-- src/state.ts: what `VccAttemptStore.set` leaves in the store.
use opencode_better_compact.Base.{
  ℕ, ◌+◌, ◌-◌, ◌≤◌, ◌<◌, ◌≡◌, sym, ap, subst, ◌≢◌, ◌∙◌, Bool, true, not, ◌&&◌, none, some, inl, inr,
  Option-cases, [], ◌∷◌, ◌++◌, arith, length, drop, keep, All, Text, eq_text, eq_text_iff,
  eq_text_refl, length-append, length-keep-le, ok, ok_inj,
}
use opencode_better_compact.Base.JsMap
use opencode_better_compact.Base.Value.{Value}
use opencode_better_compact.State.Evict.{get-drop-none, get-drop}
use opencode_better_compact.State.VccAttempt.{VccAttempt, validate_vcc_attempt}
use opencode_better_compact.State.VccAttempt.Laws.{HasBounds, Coheres, validate_vcc_attempt_sound}
use opencode_better_compact.State.VccAttempts.{
  Store, vcc_attempt_ttl_ms, max_vcc_attempts, is_expired, cleanup_expired, drop_others, store, set,
}
use opencode_better_compact.State.VccAttempts.Laws.{
  IsValid, Differs, others, refreshed, absent-others, others-differ, others-IsValid,
  store-eq-newest,
}
use opencode_better_compact.State.VccAttempts.Lookup.{store-split}

-- The attempt is not yet expired.
abbrev pub IsFresh : ℕ → VccAttempt → Type 0
IsFresh now b = now < b.created_at + vcc_attempt_ttl_ms

get-All :
    (P : Text × VccAttempt → Type 0) (j : Text) (b : VccAttempt) (m : Store)
    → All P m
    → JsMap.get j m ≡ some b
    → P (j, b)
unfolding JsMap.get
get-All P j b [] h e = cc
get-All P j b ((k, c) ∷ m) (p, h) e = ground (arith, get-All P j b m h, eq_text_iff k j)

get-keep_holds :
    (p : Text × VccAttempt → Bool) (j : Text) (b : VccAttempt) (m : Store)
    → JsMap.NodupKeys m
    → JsMap.get j (keep p m) ≡ some b
    → p (j, b) ≡ true
unfolding JsMap.get
get-keep_holds p j b [] h e = cc
get-keep_holds p j b ((k, c) ∷ m) (fresh, h) e =
    ground (arith, get-keep_holds p j b m h, JsMap.get-keep-none p j m, eq_text_iff k j)

get-keep-some :
    (p : Text × VccAttempt → Bool) (j : Text) (b : VccAttempt) (m : Store)
    → JsMap.get j m ≡ some b
    → p (j, b) ≡ true
    → JsMap.get j (keep p m) ≡ some b
unfolding JsMap.get
get-keep-some p j b [] e h = cc
get-keep-some p j b ((k, c) ∷ m) e h = ground (arith, get-keep-some p j b m, eq_text_iff k j)

is_expired-IsFresh :
    (now : ℕ) (j : Text) (b : VccAttempt) → not (is_expired now (j, b)) ≡ true → IsFresh now b
unfolding is_expired
is_expired-IsFresh now j b h = ground arith

IsFresh-is_expired :
    (now : ℕ) (j : Text) (b : VccAttempt) → IsFresh now b → not (is_expired now (j, b)) ≡ true
unfolding is_expired
IsFresh-is_expired now j b h = ground arith

module _ (redact : Text → Text) where
  others-old :
      (a : VccAttempt) (m : Store) (j : Text) (b : VccAttempt)
      → IsValid redact m
      → j ≢ a.attempt_id
      → JsMap.get j (others a m) ≡ some b
      → (JsMap.get j m ≡ some b) × IsFresh a.created_at b
  unfolding drop_others cleanup_expired
  others-old a m j b v ne e =
      let fresh = λ (x : Text × VccAttempt). not (is_expired a.created_at x) in
      let kept = JsMap.keep-NodupKeys fresh m v.distinct in
      let e1 = sym (JsMap.get-delete_ne j a.attempt_id _ ne) ∙ e in
      let e2 = JsMap.get-keep _ j b (keep fresh m) kept e1 in
      (
        JsMap.get-keep fresh j b m v.distinct e2,
        is_expired-IsFresh a.created_at j b (get-keep_holds fresh j b m v.distinct e2),
      )

  others-new :
      (a : VccAttempt) (m : Store) (j : Text) (b : VccAttempt)
      → j ≢ a.attempt_id
      → JsMap.get j m ≡ some b
      → b.session_id ≢ a.session_id
      → IsFresh a.created_at b
      → JsMap.get j (others a m) ≡ some b
  unfolding drop_others cleanup_expired
  others-new a m j b ne e apart fresh =
      JsMap.get-delete_ne j a.attempt_id _ ne
      ∙ get-keep-some _ j b _ (get-keep-some _ j b m e (IsFresh-is_expired a.created_at j b fresh))
          (ground (arith, eq_text_iff b.session_id a.session_id))

  length-others-le : (a : VccAttempt) (m : Store) → length (others a m) ≤ length m
  unfolding drop_others cleanup_expired
  length-others-le a m = omega (
    arith,
    JsMap.length-delete-le a.attempt_id (drop_others a (cleanup_expired a.created_at m)),
    length-keep-le
        (λ x. not (eq_text x.1.session_id a.session_id && not (eq_text x.0 a.attempt_id)))
        (cleanup_expired a.created_at m),
    length-keep-le (λ x. not (is_expired a.created_at x)) m,
  )

  -- What a store holds after an attempt was set: the attempt, of the others none that was not there, is
  -- expired or has its session, and all of these where there is room.
  pub record IsStored (a : VccAttempt) (m n : Store) : Type 0 where
    pub found : JsMap.get a.attempt_id n ≡ some a
    pub others_old :
        (j : Text) (b : VccAttempt)
        → j ≢ a.attempt_id
        → JsMap.get j n ≡ some b
        → (JsMap.get j m ≡ some b) × IsFresh a.created_at b × (b.session_id ≢ a.session_id)
    pub others_kept :
        (j : Text) (b : VccAttempt)
        → length m < max_vcc_attempts
        → j ≢ a.attempt_id
        → JsMap.get j m ≡ some b
        → IsFresh a.created_at b
        → b.session_id ≢ a.session_id
        → JsMap.get j n ≡ some b

  get_last :
      (a : VccAttempt) (m : Store)
      → JsMap.get a.attempt_id m ≡ none
      → JsMap.get a.attempt_id (m ++ (a.attempt_id, a) ∷ []) ≡ some a
  unfolding JsMap.get
  get_last a m absent = JsMap.get-append a.attempt_id m _ absent ∙ rw (eq_text_refl a.attempt_id)

  get_before :
      (a : VccAttempt) (m : Store) (j : Text) (b : VccAttempt)
      → j ≢ a.attempt_id
      → JsMap.get j (m ++ (a.attempt_id, a) ∷ []) ≡ some b
      → JsMap.get j m ≡ some b
  unfolding JsMap.get
  get_before a [] j b ne e = ground (arith, eq_text_iff a.attempt_id j)
  get_before a ((k, c) ∷ m) j b ne e = ground (arith, get_before a m j b ne)

  store-IsStored :
      (a : VccAttempt) (m : Store)
      → IsValid redact m
      → HasBounds redact a
      → Coheres a
      → IsStored a m (store a m)
  store-IsStored a m v b c =
      let (k, split) = store-split redact a m v b c in
      let rest = others a m in
      let absent = get-drop-none k a.attempt_id rest (absent-others redact a m v) in
      let valid = others-IsValid redact a m v in
      record {
        found = ap (JsMap.get a.attempt_id) split ∙ get_last a (drop k rest) absent;
        others_old = λ j d ne e.
            let e1 = get_before a (drop k rest) j d ne (sym (ap (JsMap.get j) split) ∙ e) in
            let e2 = get-drop k j d rest valid.distinct e1 in
            let (old, fresh) = others-old a m j d v ne e2 in
            (old, fresh, get-All (Differs a) j d rest (others-differ redact a m v) e2);
        others_kept = λ j d room ne e fresh apart.
            let none_dropped : length (refreshed a m) - max_vcc_attempts ≡ 0 =
              omega (arith, length-append rest ((a.attempt_id, a) ∷ []), length-others-le a m) in
            let whole : store a m ≡ refreshed a m =
              store-eq-newest redact a m v b c ∙ ap (λ i. drop i (refreshed a m)) none_dropped in
            ap (JsMap.get j) whole
            ∙ JsMap.get-append_some j d rest _ (others-new a m j d ne e apart fresh);
      }

  set_admitted :
      (value : Value) (b : VccAttempt) (m : Store)
      → validate_vcc_attempt redact value ≡ some b
      → set redact value m ≡ ok (store b m, b)
  unfolding set
  set_admitted value b m admitted = rw (set, admitted)

  -- A value is admitted as the attempt that it holds, and that attempt is stored: it is found under its
  -- identity; each other attempt that is found was there, has not expired by the time that the new one
  -- was created, and is of another session; and in a store of fewer than 1024 all of these are kept.
  pub set_vcc-IsStored :
      (value : Value) (a : VccAttempt) (m n : Store)
      → IsValid redact m
      → set redact value m ≡ ok (n, a)
      → (validate_vcc_attempt redact value ≡ some a) × IsStored a m n
  unfolding set
  set_vcc-IsStored value a m n v e = elim (Option-cases (validate_vcc_attempt redact value)) [
    | inl refused ↦ absurd (ground arith)
    | inr (b, admitted) ↦
        let (bounds, coheres) = validate_vcc_attempt_sound redact value b admitted in
        let same = ok_inj (sym (set_admitted value b m admitted) ∙ e) in
        subst (λ x. (validate_vcc_attempt redact value ≡ some x.1) × IsStored x.1 m x.0) same
          (admitted, store-IsStored b m v bounds coheres)
  ]
