-- ===== src/State/VccAttempts/Lookup.antt =====
-- src/state.ts: what `VccAttemptStore` returns for the attempt that was stored last.
use opencode_better_compact.Base.{
  ℕ, ◌+◌, ◌-◌, ◌≤◌, ◌<◌, ◌≡◌, ap, false, ◌∙◌, Option, none, some, [], ◌∷◌, ◌++◌, arith, length,
  drop, keep-append, All, All-drop, All-keep, find, Text, eq_text, eq_text_iff, eq_text_refl,
  length-append,
}
use opencode_better_compact.Base.JsMap
use opencode_better_compact.State.Evict.{drop-concat, get-drop-none}
use opencode_better_compact.State.VccAttempt.{VccAttempt}
use opencode_better_compact.State.VccAttempt.Laws.{HasBounds, Coheres}
use opencode_better_compact.State.VccAttempts.{
  Store, Binding, vcc_attempt_ttl_ms, max_vcc_attempts, is_expired, cleanup_expired, store, bound,
  get, get_session,
}
use opencode_better_compact.State.VccAttempts.Laws.{
  IsValid, Differs, others, refreshed, absent-others, others-differ, store-eq-newest,
}

is_expired-false :
    (k : Text) (a : VccAttempt) (now : ℕ)
    → now < a.created_at + vcc_attempt_ttl_ms
    → is_expired now (k, a) ≡ false
unfolding is_expired
is_expired-false k a now fresh = ground arith

-- The last entry outlives the cleaning.
cleanup_expired-concat :
    (m : Store) (a : VccAttempt) (now : ℕ)
    → now < a.created_at + vcc_attempt_ttl_ms
    → cleanup_expired now (m ++ (a.attempt_id, a) ∷ [])
      ≡ cleanup_expired now m ++ (a.attempt_id, a) ∷ []
unfolding cleanup_expired
cleanup_expired-concat m a now fresh = rw (keep-append, is_expired-false a.attempt_id a now fresh)

find-values-concat :
    (m : Store) (k : Text) (a : VccAttempt)
    → All (Differs a) m
    → find (λ b. eq_text b.session_id a.session_id) (JsMap.values (m ++ (k, a) ∷ [])) ≡ some a
find-values-concat [] k a h = rw (eq_text_refl a.session_id)
find-values-concat ((j, b) ∷ m) k a (p, h) =
    ground (arith, find-values-concat m k a h, eq_text_iff b.session_id a.session_id)

get-last :
    (a : VccAttempt) (now : ℕ) (m : Store)
    → JsMap.get a.attempt_id m ≡ none
    → JsMap.get a.attempt_id (cleanup_expired now m ++ (a.attempt_id, a) ∷ []) ≡ some a
unfolding cleanup_expired JsMap.get
get-last a now m absent =
    JsMap.get-append a.attempt_id _ _ (JsMap.get-keep-none _ a.attempt_id m absent)
    ∙ rw (eq_text_refl a.attempt_id)

cleanup_expired-differ :
    (a : VccAttempt) (now : ℕ) (m : Store)
    → All (Differs a) m
    → All (Differs a) (cleanup_expired now m)
unfolding cleanup_expired
cleanup_expired-differ a now m h = All-keep (Differs a) _ m h

module _ (redact : Text → Text) where
  pub store-split :
      (a : VccAttempt) (m : Store)
      → IsValid redact m
      → HasBounds redact a
      → Coheres a
      → (n : ℕ) × (store a m ≡ drop n (others a m) ++ (a.attempt_id, a) ∷ [])
  store-split a m v b c =
      let n = length (refreshed a m) - max_vcc_attempts in
      let short : n ≤ length (others a m) =
        omega (arith, length-append (others a m) ((a.attempt_id, a) ∷ [])) in
      (n, store-eq-newest redact a m v b c ∙ drop-concat n (others a m) (a.attempt_id, a) short)

  -- Let an attempt within its bounds, whose fields fit together, be stored in a valid store. Until it
  -- expires it is found under its identity, unless the caller asks for another binding, and under its
  -- session.
  pub get-store :
      (a : VccAttempt) (binding : Option Binding) (now : ℕ) (m : Store)
      → IsValid redact m
      → HasBounds redact a
      → Coheres a
      → now < a.created_at + vcc_attempt_ttl_ms
      → ((get a.attempt_id binding now (store a m)).1 ≡ bound binding (some a))
        × ((get_session a.session_id now (store a m)).1 ≡ some a)
  unfolding get get_session
  get-store a binding now m v b c fresh =
      let (n, split) = store-split a m v b c in
      let kept = drop n (others a m) in
      let absent = get-drop-none n a.attempt_id (others a m) (absent-others redact a m v) in
      let differ = All-drop (Differs a) n (others a m) (others-differ redact a m v) in
      rw (split, cleanup_expired-concat kept a now fresh)
        (
          ap (bound binding) (get-last a now kept absent),
          find-values-concat (cleanup_expired now kept) a.attempt_id a
              (cleanup_expired-differ a now kept differ),
        )
