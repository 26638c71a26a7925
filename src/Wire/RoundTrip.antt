-- ===== src/Wire/RoundTrip.antt =====
-- src/vcc-wire.ts: a block that is rendered is read back (`renderVccSourceStatus`,
-- `parseVccSourceStatus`, `renderVccProjection`, `parseVccProjection`).
use opencode_better_compact.Base.{
  ◌≡◌, refl, ap, sym, ◌∙◌, subst, ℕ, ◌==◌, Bool, true, false, ◌&&◌, &&-eq-true, ◌⊎◌, inl, inr, List,
  [], ◌∷◌, ◌++◌, append-nil, all, leb, Text, codes, arith, All, take, drop, Option, some, none,
  if◌then◌else◌, Bool-cases, Option-cases, eq_text, eq_text_iff, member,
}
use opencode_better_compact.Base.Value.{>>=-eq-some}
use opencode_better_compact.Utf8.{utf8_bytes}
use opencode_better_compact.State.VccAttempt.{is_digest}
use opencode_better_compact.Vcc.Reason.{source_incomplete_reasons, reason_text}
use opencode_better_compact.Vcc.Serialize.{quote}
use opencode_better_compact.Wire.{
  SourceStatus, reasons, source_status_max_bytes, status_head, status_manifest, status_attempt,
  status_tail, status_block, bounded, render_vcc_source_status,
}
use opencode_better_compact.Wire.Pattern.{
  literal, digest_part, quoted_digest, first_of, match_reason, parse_vcc_source_status,
}
use opencode_better_compact.Wire.Plain.{
  is_word, quote-word, is_digest-word, is_digest-length, take_append, drop_append,
}

pub literal-append : (p s : Text) → literal p (p ++ s) ≡ some s
unfolding literal
literal-append [] s = refl
literal-append (c ∷ p) s = ground (arith, literal-append p s)

pub literal_self : (p : Text) → literal p p ≡ some []
literal_self p = ap (literal p) (sym (append-nil p)) ∙ literal-append p []

digest_part-append : (d s : Text) → is_digest d ≡ true → digest_part (d ++ s) ≡ some (d, s)
unfolding digest_part
digest_part-append d s h =
    let first : take 64 (d ++ s) ≡ d =
      ap (λ n. take n (d ++ s)) (sym (is_digest-length d h)) ∙ take_append d s in
    let rest : drop 64 (d ++ s) ≡ s =
      ap (λ n. drop n (d ++ s)) (sym (is_digest-length d h)) ∙ drop_append d s in
    rw (first, h, rest)

pub quoted_digest-quote :
    (d s : Text) → is_digest d ≡ true → quoted_digest (quote d ++ s) ≡ some (d, s)
unfolding quoted_digest
quoted_digest-quote d s h =
    ap quoted_digest (quote-word d s (is_digest-word d h)) ∙ rw (digest_part-append d (b'"' ∷ s) h)

-- A reason that stands before a quote is no other.
literal-eq :
    (r r' s : Text) (y z : Text)
    → all is_word r ≡ true
    → all is_word r' ≡ true
    → literal r' (r ++ (b'"' ∷ s)) ≡ some y
    → literal (b'"' ∷ []) y ≡ some z
    → r' ≡ r
unfolding literal
literal-eq [] [] s y z h h' e e' = refl
literal-eq (c ∷ r) [] s y z h h' e e' = absurd (ground (arith, h, e, e'))
literal-eq [] (p ∷ r') s y z h h' e e' = absurd (ground (arith, h', e))
literal-eq (c ∷ r) (p ∷ r') s y z h h' e e' =
    let (_, hr) = &&-eq-true (is_word c) (all is_word r) h in
    let (_, hr') = &&-eq-true (is_word p) (all is_word r') h' in
    elim (Bool-cases (c == p)) [
      | inl same ↦
          let rest : literal r' (r ++ (b'"' ∷ s)) ≡ some y = ground (arith, same, e) in
          let tail = literal-eq r r' s y z hr hr' rest e' in
          let head : p ≡ c = ground (arith, same) in cc
      | inr other ↦ absurd (ground (arith, other, e))
    ]

module _ (s : SourceStatus) where
  -- What follows the reason in the block of a status.
  abbrev after_reason : Text
  after_reason =
      status_manifest
      ++ (quote s.manifest_digest ++ (status_attempt ++ (quote s.attempt_digest ++ status_tail)))

  match_reason-here :
      all is_word s.reason ≡ true
      → is_digest s.manifest_digest ≡ true
      → is_digest s.attempt_digest ≡ true
      → match_reason (quote s.reason ++ after_reason) s.reason ≡ some s
  unfolding match_reason
  match_reason-here r m a =
      ap (λ t. match_reason t s.reason) (quote-word s.reason after_reason r)
      ∙ rw (
        literal-append s.reason (b'"' ∷ after_reason),
        match_reason,
        literal-append status_manifest (
            quote s.manifest_digest ++ (status_attempt ++ (quote s.attempt_digest ++ status_tail))),
        quoted_digest-quote s.manifest_digest
            (status_attempt ++ (quote s.attempt_digest ++ status_tail)) m,
        literal-append status_attempt (quote s.attempt_digest ++ status_tail),
        quoted_digest-quote s.attempt_digest status_tail a,
        literal_self status_tail,
      )

  -- A reason that matches there is the reason that stands there.
  match_reason-eq :
      (other : Text) (found : SourceStatus)
      → all is_word s.reason ≡ true
      → all is_word other ≡ true
      → match_reason (quote s.reason ++ after_reason) other ≡ some found
      → other ≡ s.reason
  unfolding match_reason
  match_reason-eq other found r o h =
      let quoted = b'"' ∷ (s.reason ++ (b'"' ∷ after_reason)) in
      let h0 : match_reason quoted other ≡ some found =
        ap (λ t. match_reason t other) (sym (quote-word s.reason after_reason r)) ∙ h in
      let (s2, e2, h2) = >>=-eq-some (literal other (s.reason ++ (b'"' ∷ after_reason))) h0 in
      let (s3, e3, _) = >>=-eq-some (literal (b'"' ∷ []) s2) h2 in
      literal-eq s.reason other after_reason s2 s3 r o e2 e3

status_block-head :
    (s : SourceStatus)
    → literal status_head (status_block s) ≡ some (quote s.reason ++ after_reason s)
unfolding status_block
status_block-head s = literal-append status_head (quote s.reason ++ after_reason s)

first_of-some {ℓ} :
    {A : Type ℓ} (match : Text → Option A) (v : A) (r : Text) (rs : List Text)
    → match r ≡ some v
    → All (λ r'. (match r' ≡ none) ⊎ (r' ≡ r)) rs
    → member r rs ≡ true
    → first_of match rs ≡ some v
unfolding first_of member
first_of-some match v r [] e h m = cc
first_of-some match v r (r' ∷ rs) e (inl missed, h) m = elim (Bool-cases (eq_text r r')) [
  | inl same ↦ absurd (contradiction (sym missed ∙ ap match (sym ((eq_text_iff r r').0 same)) ∙ e))
  | inr apart ↦ rw (missed, first_of) (first_of-some match v r rs e h (ground (arith, apart, m)))
]
  where
    contradiction : none ≡ some v → ⊥
    contradiction c = cc
first_of-some match v r (r' ∷ rs) e (inr same, h) m = rw (ap match same ∙ e, first_of)

all-words :
    (rs : List Text) → all (λ r. all is_word r) rs ≡ true → All (λ r. all is_word r ≡ true) rs
all-words [] h = tt
all-words (r ∷ rs) h =
    let (here, later) = &&-eq-true (all is_word r) (all (λ q. all is_word q) rs) h in
    (here, all-words rs later)

reasons-words : all (λ r. all is_word r) reasons ≡ true
unfolding reason_text source_incomplete_reasons codes
reasons-words = refl

member-word :
    (r : Text) (rs : List Text)
    → All (λ q. all is_word q ≡ true) rs
    → member r rs ≡ true
    → all is_word r ≡ true
unfolding member
member-word r [] h m = cc
member-word r (q ∷ rs) (here, later) m = elim (Bool-cases (eq_text r q)) [
  | inl same ↦ subst (λ t. all is_word t ≡ true) (sym ((eq_text_iff r q).0 same)) here
  | inr apart ↦ member-word r rs later (ground (arith, apart, m))
]

module _ (s : SourceStatus) (r : all is_word s.reason ≡ true) where
  others_miss :
      (rs : List Text)
      → All (λ q. all is_word q ≡ true) rs
      → All (λ q. (match_reason (quote s.reason ++ after_reason s) q ≡ none) ⊎ (q ≡ s.reason)) rs
  others_miss [] h = tt
  others_miss (q ∷ rs) (here, later) = (
    elim (Option-cases (match_reason (quote s.reason ++ after_reason s) q)) [
      | inl missed ↦ inl missed
      | inr (found, e) ↦ inr (match_reason-eq s q found r here e)
    ],
    others_miss rs later,
  )

-- What a block rendered within a bound satisfies.
pub bounded-eq :
    (max_bytes : ℕ) (t block : Text)
    → bounded max_bytes t ≡ some block
    → (leb (utf8_bytes block) max_bytes ≡ true) × (t ≡ block)
bounded-eq max_bytes t block h = elim (Bool-cases (leb (utf8_bytes t) max_bytes)) [
  | inl e ↦
      let same : t ≡ block = ground (arith, e, h) in
      (subst (λ b. leb (utf8_bytes b) max_bytes ≡ true) same e, same)
  | inr e ↦ absurd (ground (arith, e, h))
]

pub if-some {ℓ} :
    {A : Type ℓ} (b : Bool) (o : Option A) (a : A)
    → (if b then o else none) ≡ some a
    → (b ≡ true) × (o ≡ some a)
if-some true o a h = (refl, h)
if-some false o a h = cc

-- A status that is rendered is read back from its block.
pub parse-render_vcc_source_status :
    (s : SourceStatus) (block : Text)
    → render_vcc_source_status s ≡ some block
    → parse_vcc_source_status block ≡ some s
unfolding render_vcc_source_status parse_vcc_source_status
parse-render_vcc_source_status s block h =
    let (valid, h1) =
      if-some (member s.reason reasons && is_digest s.manifest_digest && is_digest s.attempt_digest)
        (bounded source_status_max_bytes (status_block s)) block h in
    let (h2, attempt) =
      &&-eq-true (member s.reason reasons && is_digest s.manifest_digest)
        (is_digest s.attempt_digest) valid in
    let (known, manifest) = &&-eq-true (member s.reason reasons) (is_digest s.manifest_digest) h2 in
    let (fits, same) = bounded-eq source_status_max_bytes (status_block s) block h1 in
    let words = all-words reasons reasons-words in
    let word = member-word s.reason reasons words known in
    let opened : literal status_head block ≡ some (quote s.reason ++ after_reason s) =
      ap (literal status_head) (sym same) ∙ status_block-head s in
    rw (fits, opened)
      (first_of-some (match_reason (quote s.reason ++ after_reason s)) s s.reason reasons
        (match_reason-here s word manifest attempt) (others_miss s word reasons words) known)
