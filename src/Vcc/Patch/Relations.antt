-- ===== src/Vcc/Patch/Relations.antt =====
-- src/vcc.ts: what the relations of a patch that pass their test refer to (`validateRelation`).
use opencode_better_compact.Base.{
  ◌≡◌, subst, ap, Bool, true, false, not, ◌&&◌, ◌||◌, Option, some, List, [], ◌∷◌, arith, all, any,
  some_inj, &&-eq-true, Bool-cases, ◌⊎◌, inl, inr, All, Text, codes, eq_text, eq_text_iff, member,
  is_empty, Result, ok, throw,
}
use opencode_better_compact.Base.Value.{Value, Number, items, get_field, >>=-eq-some, >>-eq-some}
use opencode_better_compact.Vcc.Serialize.{canonical_serialize}
use opencode_better_compact.Vcc.Event.{texts}
use opencode_better_compact.Vcc.Json.{is_record}
use opencode_better_compact.Vcc.Patch.{Relation, CorrectionGate, patch_relation_kinds}
use opencode_better_compact.Vcc.Patch.Checks.{
  PatchSourceSets, every_one, every_item, as_items, bounded_string, enum_value, exact_keys,
  non_empty_source_ids, opens, same_result, validate_relation,
}
use opencode_better_compact.Vcc.Patch.Sourced.{
  AreSourceIds, non_empty_source_ids_sound, enum_value_sound,
}

-- The predicate holds of an element.
abbrev pub Some {ℓ} : {A : Type ℓ} → (A → Type 0) → List A → Type 0
Some P [] = ⊥
Some P (x ∷ xs) = P x ⊎ Some P xs

any-Some {ℓ} :
    {A : Type ℓ} (P : A → Type 0) (p : A → Bool)
    → ((a : A) → p a ≡ true → P a)
    → (xs : List A) → any p xs ≡ true
    → Some P xs
any-Some P p holds [] h = absurd (ground arith)
any-Some P p holds (x ∷ xs) h = elim (Bool-cases (p x)) [
  | inl e ↦ inl (holds x e)
  | inr e ↦ inr (any-Some P p holds xs (ground arith))
]

pub all-All {ℓ} :
    {A : Type ℓ} (p : A → Bool) (xs : List A) → all p xs ≡ true → All (λ x. p x ≡ true) xs
all-All p [] h = tt
all-All p (x ∷ xs) h =
    let (here, later) = &&-eq-true (p x) (all p xs) h in (here, all-All p xs later)

every_one-All {ℓ κ} :
    {A : Type ℓ} (P : A → Type κ) (check : Value → Option A)
    → ((v : Value) (a : A) → check v ≡ some a → P a)
    → (vs : List Value) (found : List A) → every_one check vs ≡ some found
    → All P found
unfolding every_one
every_one-All P check sound [] found h = subst (All P) (some_inj h) tt
every_one-All P check sound (v ∷ vs) found h =
    let (a, e, h1) = >>=-eq-some (check v) h in
    let (rest, e', h2) = >>=-eq-some (every_one check vs) h1 in
    subst (All P) (some_inj h2) (sound v a e, every_one-All P check sound vs rest e')

pub every_item-All {ℓ κ} :
    {A : Type ℓ} (P : A → Type κ) (check : Value → Option A)
    → ((v : Value) (a : A) → check v ≡ some a → P a)
    → (value : Option Value) (found : List A) → every_item check value ≡ some found
    → All P found
unfolding every_item
every_item-All P check sound value found h =
    let (vs, _, h1) = >>=-eq-some (as_items value) h in
    every_one-All P check sound (items vs) found h1

module _ (print_double : Number → Text) (sets : PatchSourceSets) (gates : List CorrectionGate) where
  -- A gate of the index is about the relation's ends, by events of the same canonical text, all of
  -- them protected.
  pub record IsCorrection (r : Relation) (gate : CorrectionGate) : Type 0 where
    pub same_source : gate.source_id ≡ r.source_id
    pub same_target : gate.target_id ≡ r.target_id
    pub same_evidence :
        canonical_serialize print_double (texts gate.evidence_event_ids)
        ≡ canonical_serialize print_double (texts r.evidence_event_ids)
    pub by_protected : All (λ id. member id sets.protected_events ≡ true) gate.evidence_event_ids

  pub record RelationIsSourced (r : Relation) : Type 0 where
    pub source_known : member r.source_id sets.every ≡ true
    pub target_known : member r.target_id sets.every ≡ true
    pub kind : member r.kind patch_relation_kinds ≡ true
    pub evidence : AreSourceIds sets.events (codes "ev:") r.evidence_event_ids
    pub supported : is_empty r.evidence_event_ids ≡ false
    pub corrected : r.kind ≡ codes "explicitly_superseded_by" → Some (IsCorrection r) gates

  same_result-eq : (a b : Result Text) → same_result a b ≡ true → a ≡ b
  same_result-eq (ok s) (ok t) h = ap ok ((eq_text_iff s t).0 h)
  same_result-eq (ok s) (throw e) h = cc
  same_result-eq (throw e) b h = cc

  opens-IsCorrection :
      (r : Relation) (gate : CorrectionGate)
      → opens print_double sets r.source_id r.target_id r.evidence_event_ids gate ≡ true
      → IsCorrection r gate
  opens-IsCorrection r gate h =
      let (h1, protected) =
        &&-eq-true
          (eq_text gate.source_id r.source_id
            && eq_text gate.target_id r.target_id
            && same_result (canonical_serialize print_double (texts gate.evidence_event_ids))
                (canonical_serialize print_double (texts r.evidence_event_ids)))
          (all (λ id. member id sets.protected_events) gate.evidence_event_ids) h in
      let (h2, evidence) =
        &&-eq-true (eq_text gate.source_id r.source_id && eq_text gate.target_id r.target_id)
          (same_result (canonical_serialize print_double (texts gate.evidence_event_ids))
            (canonical_serialize print_double (texts r.evidence_event_ids)))
          h1 in
      let (source, target) =
        &&-eq-true (eq_text gate.source_id r.source_id) (eq_text gate.target_id r.target_id) h2 in
      record {
        same_source = (eq_text_iff gate.source_id r.source_id).0 source;
        same_target = (eq_text_iff gate.target_id r.target_id).0 target;
        same_evidence = same_result-eq _ _ evidence;
        by_protected = all-All (λ id. member id sets.protected_events) _ protected;
      }

  gate_of_superseded :
      (r : Relation)
      → (not (eq_text r.kind (codes "explicitly_superseded_by"))
          || any (opens print_double sets r.source_id r.target_id r.evidence_event_ids) gates)
        ≡ true
      → r.kind ≡ codes "explicitly_superseded_by"
      → Some (IsCorrection r) gates
  gate_of_superseded r h kind =
      let superseded : eq_text r.kind (codes "explicitly_superseded_by") ≡ true =
        (eq_text_iff r.kind (codes "explicitly_superseded_by")).1 kind in
      any-Some (IsCorrection r)
        (opens print_double sets r.source_id r.target_id r.evidence_event_ids)
        (opens-IsCorrection r) gates (ground (arith, superseded, h))

  pub validate_relation_sound :
      (value : Value) (r : Relation)
      → validate_relation print_double sets gates value ≡ some r
      → RelationIsSourced r
  unfolding validate_relation
  validate_relation_sound value r e =
      let (fs, _, e1) = >>=-eq-some (is_record value) e in
      let (_, e2) = >>-eq-some (exact_keys fs _) e1 in
      let (source, _, e3) = >>=-eq-some (bounded_string (get_field (codes "from") fs) 512) e2 in
      let (target, _, e4) = >>=-eq-some (bounded_string (get_field (codes "to") fs) 512) e3 in
      let (kind, k, e5) =
        >>=-eq-some (enum_value patch_relation_kinds (get_field (codes "kind") fs)) e4 in
      let (ids, i, e6) =
        >>=-eq-some
          (non_empty_source_ids (get_field (codes "evidence_event_ids") fs) sets.events
            (codes "ev:"))
          e5 in
      let (known, e7) = >>-eq-some (member source sets.every && member target sets.every) e6 in
      let (gated, e8) =
        >>-eq-some
          (not (eq_text kind (codes "explicitly_superseded_by"))
            || any (opens print_double sets source target ids) gates)
          e7 in
      let (sourced, filled) = non_empty_source_ids_sound _ sets.events (codes "ev:") ids i in
      let (from, into) = &&-eq-true (member source sets.every) (member target sets.every) known in
      subst RelationIsSourced (some_inj e8) (record {
        source_known = from;
        target_known = into;
        kind = enum_value_sound patch_relation_kinds _ kind k;
        evidence = sourced;
        supported = filled;
        corrected =
            gate_of_superseded
              (record {
                source_id = source;
                kind = kind;
                target_id = target;
                evidence_event_ids = ids;
              })
              gated;
      })
