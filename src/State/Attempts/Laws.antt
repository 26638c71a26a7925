-- ===== src/State/Attempts/Laws.antt =====
-- src/state.ts: what `AttemptStore` keeps, and for how long.
use opencode_better_compact.Base.{
  ℕ, ◌+◌, ◌-◌, ◌≤◌, ◌<◌, ◌≡◌, refl, ◌≢◌, ◌∙◌, Bool, not, none, some, [], ◌∷◌, ◌++◌, arith, length,
  keep, drop, All, Text, eq_text_iff, eq_text_refl, length-append, length-drop, All-append,
  keep-append, lt→leb, Option-cases, length-keep-le, inl, inr,
}
use opencode_better_compact.Base.JsMap
use opencode_better_compact.State.Evict.{
  evict-eq-drop, HasName, drop-NodupKeys, drop-All, drop-concat, get-drop, get-drop-none,
}
use opencode_better_compact.State.Attempts.{
  Attempt, Store, attempt_ttl_ms, max_attempts, is_expired, cleanup_expired, set, get,
}

module _ {P : Type 0} where
  -- Every entry stands under its own session, and no session is the empty string.
  abbrev pub IsFiled : Text × Attempt P → Type 0
  IsFiled (session_id, attempt) = (session_id ≡ attempt.session_id) × (session_id ≢ [])

  pub record IsValid (attempts : Store P) : Type 0 where
    pub distinct : JsMap.NodupKeys attempts
    pub filed : All IsFiled attempts
    pub bounded : length attempts ≤ max_attempts

  keep-All : (p : Text × Attempt P → Bool) (m : Store P) → All IsFiled m → All IsFiled (keep p m)
  keep-All p [] h = tt
  keep-All p (e ∷ m) (q, h) = ground (arith, keep-All p m h)

  pub cleanup_expired-IsValid :
      (now : ℕ) (m : Store P) → IsValid m → IsValid (cleanup_expired now m)
  unfolding cleanup_expired
  cleanup_expired-IsValid now m v = record {
    distinct = JsMap.keep-NodupKeys _ m v.distinct;
    filed = keep-All _ m v.filed;
    bounded = omega (arith, length-keep-le (λ e. not (is_expired now e)) m, v.bounded);
  }

  pub delete-IsValid : (k : Text) (m : Store P) → IsValid m → IsValid (JsMap.delete k m)
  delete-IsValid k m v = record {
    distinct = JsMap.delete-NodupKeys k m v.distinct;
    filed = JsMap.delete-All IsFiled k m v.filed;
    bounded = omega (arith, JsMap.length-delete-le k m, v.bounded);
  }

  filed-HasName : (m : Store P) → All IsFiled m → All HasName m
  filed-HasName [] h = tt
  filed-HasName (e ∷ m) ((p, q), h) = (q, filed-HasName m h)

  -- The unexpired attempts of other sessions, and the new one behind them.
  abbrev pub refreshed : Attempt P → Store P → Store P
  refreshed a m =
      JsMap.delete a.session_id (cleanup_expired a.created_at m) ++ (a.session_id, a) ∷ []

  refreshed-valid :
      (a : Attempt P) (m : Store P)
      → IsValid m
      → a.session_id ≢ []
      → JsMap.NodupKeys (refreshed a m) × All IsFiled (refreshed a m)
  refreshed-valid a m v named =
      let live = cleanup_expired-IsValid a.created_at m v in
      let rest = delete-IsValid a.session_id _ live in
      (
        JsMap.append-NodupKeys a.session_id a _ rest.distinct
            (JsMap.get-delete_self a.session_id _ live.distinct),
        All-append IsFiled _ _ rest.filed ((refl, named), tt),
      )

  -- On a valid store and for a session that has a name, `set` keeps the newest 128 of the unexpired
  -- attempts, the new one last; it replaces an older attempt of the same session.
  pub set-eq-newest :
      (a : Attempt P) (m : Store P)
      → IsValid m
      → a.session_id ≢ []
      → set a m ≡ drop (length (refreshed a m) - max_attempts) (refreshed a m)
  unfolding set
  set-eq-newest a m v named =
      let live = cleanup_expired-IsValid a.created_at m v in
      let absent = JsMap.get-delete_self a.session_id _ live.distinct in
      rw (JsMap.set_of_absent a.session_id a _ absent) (
        evict-eq-drop max_attempts (refreshed a m)
          (filed-HasName (refreshed a m) (refreshed-valid a m v named).1))

  pub set-IsValid :
      (a : Attempt P) (m : Store P) → IsValid m → a.session_id ≢ [] → IsValid (set a m)
  set-IsValid a m v named =
      let r = refreshed-valid a m v named in
      rw (set-eq-newest a m v named) (record {
        distinct = drop-NodupKeys (length (refreshed a m) - max_attempts) (refreshed a m) r.0;
        filed = drop-All IsFiled (length (refreshed a m) - max_attempts) (refreshed a m) r.1;
        bounded =
            omega (arith, length-drop (length (refreshed a m) - max_attempts) (refreshed a m));
      })

  get-survivor :
      (a : Attempt P) (now : ℕ) (m : Store P)
      → now < a.created_at + attempt_ttl_ms
      → JsMap.get a.session_id m ≡ none
      → JsMap.get a.session_id (cleanup_expired now (m ++ (a.session_id, a) ∷ [])) ≡ some a
  unfolding cleanup_expired is_expired JsMap.get
  get-survivor a now m fresh absent =
      let unexpired = lt→leb attempt_ttl_ms (now - a.created_at) (omega arith) in
      rw (keep-append, unexpired)
        (JsMap.get-append a.session_id _ _ (JsMap.get-keep-none _ a.session_id m absent)
          ∙ rw (eq_text_refl a.session_id))

  get-cleanup_expired :
      (j : Text) (now : ℕ) (b : Attempt P) (m : Store P)
      → JsMap.NodupKeys m
      → JsMap.get j (cleanup_expired now m) ≡ some b
      → JsMap.get j m ≡ some b
  unfolding cleanup_expired
  get-cleanup_expired j now b m d e = JsMap.get-keep _ j b m d e

  get-refreshed :
      (a b : Attempt P) (j : Text) (m : Store P)
      → j ≢ a.session_id
      → JsMap.get j (refreshed a m) ≡ some b
      → JsMap.get j (cleanup_expired a.created_at m) ≡ some b
  unfolding JsMap.get
  get-refreshed a b j m other e =
      let live = cleanup_expired a.created_at m in
      elim (Option-cases (JsMap.get j live)) [
        | inl missing ↦ absurd (
            ground (
              arith,
              eq_text_iff a.session_id j,
              JsMap.get-delete_ne j a.session_id live other,
              JsMap.get-append j (JsMap.delete a.session_id live) ((a.session_id, a) ∷ []),
            ))
        | inr (c, found) ↦ ground (
          arith,
          JsMap.get-delete_ne j a.session_id live other,
          JsMap.get-append_some j c (JsMap.delete a.session_id live) ((a.session_id, a) ∷ []),
        )
      ]

  -- What `get` returns after `set` on a valid store, for a session that has a name: the new attempt
  -- under its session until it expires.
  pub get_attempt-set :
      (a : Attempt P) (now : ℕ) (m : Store P)
      → IsValid m
      → a.session_id ≢ []
      → now < a.created_at + attempt_ttl_ms
      → (get a.session_id now (set a m)).1 ≡ some a
  unfolding get
  get_attempt-set a now m v named fresh =
      let live = cleanup_expired-IsValid a.created_at m v in
      let base = JsMap.delete a.session_id (cleanup_expired a.created_at m) in
      let absent : JsMap.get a.session_id base ≡ none =
        JsMap.get-delete_self a.session_id _ live.distinct in
      let n = length (refreshed a m) - max_attempts in
      let short : n ≤ length base = omega (arith, length-append base ((a.session_id, a) ∷ [])) in
      rw (set-eq-newest a m v named, drop-concat n base (a.session_id, a) short)
        (get-survivor a now (drop n base) fresh (get-drop-none n a.session_id base absent))

  -- What `get` returns after `set` on a valid store under another session than the one that was set,
  -- which has a name, was there, unexpired, when it was set.
  pub get_attempt-set_ne :
      (a b : Attempt P) (session_id : Text) (now : ℕ) (m : Store P)
      → IsValid m
      → a.session_id ≢ []
      → session_id ≢ a.session_id
      → (get session_id now (set a m)).1 ≡ some b
      → (get session_id a.created_at m).1 ≡ some b
  unfolding get
  get_attempt-set_ne a b j now m v named other found =
      let r = refreshed-valid a m v named in
      let n = length (refreshed a m) - max_attempts in
      let stored : JsMap.get j (drop n (refreshed a m)) ≡ some b =
        rw (set-eq-newest a m v named) at
          (get-cleanup_expired j now b (set a m) (set-IsValid a m v named).distinct found) in
      get-refreshed a b j m other (get-drop n j b (refreshed a m) r.0 stored)
