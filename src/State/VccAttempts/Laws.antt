-- ===== src/State/VccAttempts/Laws.antt =====
-- src/state.ts: what `VccAttemptStore` keeps.
use opencode_better_compact.Base.{
  ℕ, zero, suc, sym, Option-cases, ◌-◌, ◌≤◌, ◌≡◌, refl, ◌≢◌, Bool, true, none, some, [], ◌∷◌, ◌++◌,
  arith, length, keep, drop, All, All-keep, All-append, All-drop, Text, eq_text_iff, length-keep-le,
  length-drop, inl, inr, ok,
}
use opencode_better_compact.Base.JsMap
use opencode_better_compact.Base.Value.{Value}
use opencode_better_compact.State.Evict.{evict-eq-drop, HasName, drop-NodupKeys}
use opencode_better_compact.State.VccAttempt.{VccAttempt, is_bounded_id, validate_vcc_attempt}
use opencode_better_compact.State.VccAttempt.Laws.{HasBounds, Coheres, validate_vcc_attempt_sound}
use opencode_better_compact.State.VccAttempts.{
  Store, max_vcc_attempts, cleanup_expired, drop_others, store, set,
}

-- No two attempts have one session.
abbrev pub SessionsApart : Store → Type 0
SessionsApart [] = Unit
SessionsApart ((k, a) ∷ m) = All (λ e. e.1.session_id ≢ a.session_id) m × SessionsApart m

keep-SessionsApart :
    (p : Text × VccAttempt → Bool) (m : Store) → SessionsApart m → SessionsApart (keep p m)
keep-SessionsApart p [] h = tt
keep-SessionsApart p ((k, a) ∷ m) (q, h) =
    ground (arith, keep-SessionsApart p m h, All-keep (λ e. e.1.session_id ≢ a.session_id) p m q)

delete-SessionsApart : (k : Text) (m : Store) → SessionsApart m → SessionsApart (JsMap.delete k m)
unfolding JsMap.delete
delete-SessionsApart k [] h = tt
delete-SessionsApart k ((j, a) ∷ m) (q, h) =
    ground (
      arith,
      delete-SessionsApart k m h,
      JsMap.delete-All (λ e. e.1.session_id ≢ a.session_id) k m q,
    )

drop-SessionsApart : (n : ℕ) (m : Store) → SessionsApart m → SessionsApart (drop n m)
drop-SessionsApart zero m h = h
drop-SessionsApart (suc n) [] h = tt
drop-SessionsApart (suc n) (e ∷ m) h = drop-SessionsApart n m h.1

concat-SessionsApart :
    (m : Store) (k : Text) (a : VccAttempt)
    → SessionsApart m
    → All (λ e. e.1.session_id ≢ a.session_id) m
    → SessionsApart (m ++ (k, a) ∷ [])
concat-SessionsApart [] k a h q = (tt, tt)
concat-SessionsApart ((j, b) ∷ m) k a (r, h) (p, q) = (
  All-append (λ e. e.1.session_id ≢ b.session_id) m ((k, a) ∷ []) r ((λ e. p (sym e)), tt),
  concat-SessionsApart m k a h q,
)

abbrev pub Differs : VccAttempt → Text × VccAttempt → Type 0
Differs a e = e.1.session_id ≢ a.session_id

-- The unexpired attempts of other sessions.
abbrev pub others : VccAttempt → Store → Store
others a m = JsMap.delete a.attempt_id (drop_others a (cleanup_expired a.created_at m))

abbrev pub refreshed : VccAttempt → Store → Store
refreshed a m = others a m ++ (a.attempt_id, a) ∷ []

module _ (redact : Text → Text) where
  abbrev pub IsFiled : Text × VccAttempt → Type 0
  IsFiled (k, a) = (k ≡ a.attempt_id) × HasBounds redact a × Coheres a

  pub record IsValid (m : Store) : Type 0 where
    pub distinct : JsMap.NodupKeys m
    pub filed : All IsFiled m
    pub apart : SessionsApart m
    pub bounded : length m ≤ max_vcc_attempts

  pub keep-IsValid : (p : Text × VccAttempt → Bool) (m : Store) → IsValid m → IsValid (keep p m)
  keep-IsValid p m v = record {
    distinct = JsMap.keep-NodupKeys p m v.distinct;
    filed = All-keep IsFiled p m v.filed;
    apart = keep-SessionsApart p m v.apart;
    bounded = omega (arith, length-keep-le p m, v.bounded);
  }

  pub delete-IsValid : (k : Text) (m : Store) → IsValid m → IsValid (JsMap.delete k m)
  delete-IsValid k m v = record {
    distinct = JsMap.delete-NodupKeys k m v.distinct;
    filed = JsMap.delete-All IsFiled k m v.filed;
    apart = delete-SessionsApart k m v.apart;
    bounded = omega (arith, JsMap.length-delete-le k m, v.bounded);
  }

  bounded_id-named : (t : Text) → is_bounded_id redact t ≡ true → t ≢ []
  unfolding is_bounded_id
  bounded_id-named [] h = cc
  bounded_id-named (c ∷ t) h = λ e. cc

  filed-HasName : (m : Store) → All IsFiled m → All HasName m
  filed-HasName [] h = tt
  filed-HasName ((k, a) ∷ m) ((p, q, r), h) =
      (rw p (bounded_id-named a.attempt_id q.attempt), filed-HasName m h)

  pub others-IsValid : (a : VccAttempt) (m : Store) → IsValid m → IsValid (others a m)
  unfolding drop_others cleanup_expired
  others-IsValid a m v = delete-IsValid a.attempt_id _ (keep-IsValid _ _ (keep-IsValid _ m v))

  pub absent-others :
      (a : VccAttempt) (m : Store) → IsValid m → JsMap.get a.attempt_id (others a m) ≡ none
  unfolding drop_others cleanup_expired
  absent-others a m v =
      JsMap.get-delete_self a.attempt_id _ (keep-IsValid _ _ (keep-IsValid _ m v)).distinct

  Differs-of_absent :
      (a : VccAttempt) (m : Store)
      → JsMap.get a.attempt_id m ≡ none
      → All (Differs a) (drop_others a m)
  unfolding drop_others JsMap.get
  Differs-of_absent a [] h = tt
  Differs-of_absent a ((k, e) ∷ m) h = ground (
    arith,
    Differs-of_absent a m,
    eq_text_iff k a.attempt_id,
    eq_text_iff e.session_id a.session_id,
  )

  delete-drop_others-Differs :
      (a : VccAttempt) (m : Store)
      → JsMap.NodupKeys m
      → All (Differs a) (JsMap.delete a.attempt_id (drop_others a m))
  unfolding drop_others JsMap.delete
  delete-drop_others-Differs a [] h = tt
  delete-drop_others-Differs a ((k, e) ∷ m) (fresh, h) = ground (
    arith,
    delete-drop_others-Differs a m h,
    Differs-of_absent a m,
    eq_text_iff k a.attempt_id,
    eq_text_iff e.session_id a.session_id,
  )

  pub others-differ : (a : VccAttempt) (m : Store) → IsValid m → All (Differs a) (others a m)
  unfolding cleanup_expired
  others-differ a m v = delete-drop_others-Differs a _ (keep-IsValid _ m v).distinct

  refreshed-IsFiled :
      (a : VccAttempt) (m : Store)
      → IsValid m
      → HasBounds redact a
      → Coheres a
      → All IsFiled (refreshed a m)
  refreshed-IsFiled a m v b c =
      All-append IsFiled (others a m) _ (others-IsValid a m v).filed ((refl, b, c), tt)

  -- Storing keeps the newest 1024 of the unexpired attempts of other sessions, and the new one last.
  pub store-eq-newest :
      (a : VccAttempt) (m : Store)
      → IsValid m
      → HasBounds redact a
      → Coheres a
      → store a m ≡ drop (length (refreshed a m) - max_vcc_attempts) (refreshed a m)
  unfolding store
  store-eq-newest a m v b c = rw (JsMap.set_of_absent a.attempt_id a _ (absent-others a m v)) (
      evict-eq-drop max_vcc_attempts (refreshed a m)
        (filed-HasName (refreshed a m) (refreshed-IsFiled a m v b c)))

  pub store-IsValid :
      (a : VccAttempt) (m : Store)
      → IsValid m
      → HasBounds redact a
      → Coheres a
      → IsValid (store a m)
  store-IsValid a m v b c =
      let o = others-IsValid a m v in
      let n = length (refreshed a m) - max_vcc_attempts in
      rw (store-eq-newest a m v b c) (record {
        distinct =
            drop-NodupKeys n (refreshed a m)
              (JsMap.append-NodupKeys a.attempt_id a (others a m) o.distinct (absent-others a m v));
        filed = All-drop IsFiled n (refreshed a m) (refreshed-IsFiled a m v b c);
        apart =
            drop-SessionsApart n (refreshed a m)
              (concat-SessionsApart (others a m) a.attempt_id a o.apart (others-differ a m v));
        bounded = omega (arith, length-drop n (refreshed a m));
      })

  -- An admitted value is stored as the attempt that it holds, and a valid store stays valid: no attempt
  -- identity twice, one attempt for a session, each of them admissible, and at most 1024.
  pub set_vcc-IsValid :
      (value : Value) (a : VccAttempt) (m n : Store)
      → IsValid m
      → set redact value m ≡ ok (n, a)
      → IsValid n × (validate_vcc_attempt redact value ≡ some a)
  unfolding set
  set_vcc-IsValid value a m n v e = elim (Option-cases (validate_vcc_attempt redact value)) [
    | inl refused ↦ absurd (ground arith)
    | inr (b, admitted) ↦
        let (bounds, coheres) = validate_vcc_attempt_sound redact value b admitted in
        let valid = store-IsValid b m v bounds coheres in ground arith
  ]
