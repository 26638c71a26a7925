-- ===== src/Vcc/Patch/Authorized.antt =====
-- src/vcc.ts: what an accepted patch may say (`validateVccPatch`).
use opencode_better_compact.Base.{
  ◌≡◌, refl, subst, sym, ◌∙◌, ap, ◌≤◌, true, some, List, [], all, leb, leb→le, some_inj, All, Text,
  codes, eq_text, eq_text_iff, member, ok, throw,
}
use opencode_better_compact.Base.Value.{Fields, Number, get_field, obj, >>=-eq-some, >>-eq-some}
use opencode_better_compact.Utf8.{utf8_bytes}
use opencode_better_compact.State.VccAttempt.{is_digest}
use opencode_better_compact.Vcc.Serialize.{canonical_serialize}
use opencode_better_compact.Vcc.Event.{Primitives}
use opencode_better_compact.Vcc.Json.{parse_vcc_patch, patch_max_bytes}
use opencode_better_compact.Vcc.Patch.{VccPatch, VccPatchContext, accepted, vcc_patch_base_digest}
use opencode_better_compact.Vcc.Patch.Checks.{
  PatchSourceSets, every_item, is_one, read_base_digest, read_goals, patch_source_sets,
  bounded_string, exact_keys, source_ids, validate_relation, validate_episode_hint,
  validate_loop_hint, validate_artifact_hint, validate_drift,
}
use opencode_better_compact.Vcc.Patch.Sourced.{AreSourceIds, source_ids_sound}
use opencode_better_compact.Vcc.Patch.Hints.{
  EpisodeHintIsSourced, LoopHintIsSourced, ArtifactHintIsSourced, DriftIsSourced,
  validate_episode_hint_sound, validate_loop_hint_sound, validate_artifact_hint_sound,
  validate_drift_sound,
}
use opencode_better_compact.Vcc.Patch.Validate.{
  patch_keys, check_patch, accept_patch, examine, conclude, validate_vcc_patch,
}
use opencode_better_compact.Base.Verdict.{
  Verdict, because, passed, need, test, >>=-eq-passed, need-passed, test-passed, passed_inj,
}
use opencode_better_compact.Vcc.Patch.Relations.{
  all-All, every_item-All, RelationIsSourced, validate_relation_sound,
}

module _ (primitives : Primitives) (context : VccPatchContext) where
  abbrev pub sets_of : PatchSourceSets
  sets_of = patch_source_sets context.source_index

  abbrev pub expected_base : Text
  expected_base = vcc_patch_base_digest primitives context.candidate.bytes context.docket_bytes

  -- All that a patch refers to stands in the index, of the right kind and with its evidence; what it
  -- calls active is protected, and it is about this candidate and docket.
  pub record IsAuthorized (patch : VccPatch) : Type 0 where
    pub base : patch.base_digest ≡ expected_base
    pub active : AreSourceIds sets_of.goals (codes "goal:") patch.active_goal_ids
    pub active_protected :
        All (λ id. member id sets_of.protected_goals ≡ true) patch.active_goal_ids
    pub missing : AreSourceIds sets_of.every [] patch.missing_from_projection_ids
    pub relations :
        All
          (RelationIsSourced primitives.print_double sets_of context.source_index.correction_gate)
          patch.relations
    pub episodes : All (EpisodeHintIsSourced sets_of) patch.episode_hints
    pub loops : All (LoopHintIsSourced sets_of) patch.open_loop_hints
    pub artifacts : All (ArtifactHintIsSourced sets_of) patch.artifact_hints
    pub drift : DriftIsSourced sets_of patch.drift

  accept_patch-eq :
      (fs : Fields) (found patch : VccPatch) (digest base : Text)
      → accept_patch primitives context fs found ≡ ok (accepted patch digest base)
      → (found ≡ patch) × (found.base_digest ≡ base)
  unfolding accept_patch
  accept_patch-eq fs found patch digest base h =
      elim (canonical_serialize primitives.print_double (obj fs))
          as (λ r.
            elim r [
              | throw e ↦ throw e
              | ok text ↦ ok (accepted found (primitives.sha256 text) found.base_digest)
            ]
              ≡ ok (accepted patch digest base)
            → (found ≡ patch) × (found.base_digest ≡ base)) [
              | throw e ↦ λ e. cc
              | ok text ↦ λ e. (cc, cc)
            ]
        h

  read_base_digest-eq :
      (expected : Text) (fs : Fields) (base : Text)
      → read_base_digest expected fs ≡ some base
      → base ≡ expected
  unfolding read_base_digest
  read_base_digest-eq expected fs base h =
      let (_, h1) = >>-eq-some (is_one (get_field (codes "version") fs)) h in
      let (found, _, h2) =
        >>=-eq-some (bounded_string (get_field (codes "base_digest") fs) 64) h1 in
      let (_, h3) = >>-eq-some (is_digest found) h2 in
      let (same, h4) = >>-eq-some (eq_text found expected) h3 in
      sym (some_inj h4) ∙ (eq_text_iff found expected).0 same

  read_goals_sound :
      (fs : Fields) (goals missing : List Text)
      → read_goals sets_of fs ≡ some (goals, missing)
      → AreSourceIds sets_of.goals (codes "goal:") goals
        × All (λ id. member id sets_of.protected_goals ≡ true) goals
        × AreSourceIds sets_of.every [] missing
  unfolding read_goals
  read_goals_sound fs goals missing h =
      let (found, f, h1) =
        >>=-eq-some
          (source_ids (get_field (codes "active_goal_ids") fs) sets_of.goals (codes "goal:")) h in
      let (protected, h2) = >>-eq-some (all (λ id. member id sets_of.protected_goals) found) h1 in
      let (others, o, h3) =
        >>=-eq-some
          (source_ids (get_field (codes "missing_from_projection_ids") fs) sets_of.every []) h2 in
      subst
        (λ p.
          AreSourceIds sets_of.goals (codes "goal:") p.0
          × All (λ id. member id sets_of.protected_goals ≡ true) p.0
          × AreSourceIds sets_of.every [] p.1)
        (some_inj h3)
        (
          source_ids_sound _ sets_of.goals (codes "goal:") found f,
          all-All (λ id. member id sets_of.protected_goals) found protected,
          source_ids_sound _ sets_of.every [] others o,
        )

  check_patch-IsAuthorized :
      (fs : Fields) (patch : VccPatch)
      → check_patch primitives context fs ≡ passed patch
      → IsAuthorized patch
  unfolding check_patch
  check_patch-IsAuthorized fs patch h =
      let (_, _, h0) =
        >>=-eq-passed (test (exact_keys fs patch_keys) (codes "patch keys are not exact")) h in
      let (base, b, h1) = >>=-eq-passed (need (read_base_digest expected_base fs) _) h0 in
      let ((goals, missing), g, h2) = >>=-eq-passed (need (read_goals sets_of fs) _) h1 in
      let (relations, r, h3) =
        >>=-eq-passed
          (need
            (every_item
              (validate_relation primitives.print_double sets_of
                context.source_index.correction_gate)
              (get_field (codes "relations") fs))
            _)
          h2 in
      let (episodes, e, h4) =
        >>=-eq-passed
          (need (every_item (validate_episode_hint sets_of) (get_field (codes "episode_hints") fs))
            _)
          h3 in
      let (loops, l, h5) =
        >>=-eq-passed
          (need (every_item (validate_loop_hint sets_of) (get_field (codes "open_loop_hints") fs))
            _)
          h4 in
      let (artifacts, a, h6) =
        >>=-eq-passed
          (need
            (every_item (validate_artifact_hint sets_of) (get_field (codes "artifact_hints") fs)) _)
          h5 in
      let (drift, d, h7) =
        >>=-eq-passed (need (validate_drift sets_of (get_field (codes "drift") fs)) _) h6 in
      let (active, protected, others) =
        read_goals_sound fs goals missing (need-passed _ _ (goals, missing) g) in
      subst IsAuthorized (passed_inj h7) (record {
        base = read_base_digest-eq expected_base fs base (need-passed _ _ base b);
        active = active;
        active_protected = protected;
        missing = others;
        relations =
            every_item-All _ _
              (validate_relation_sound primitives.print_double sets_of
                context.source_index.correction_gate)
              _ relations (need-passed _ _ relations r);
        episodes =
            every_item-All _ _ (validate_episode_hint_sound sets_of) _ episodes
              (need-passed _ _ episodes e);
        loops =
            every_item-All _ _ (validate_loop_hint_sound sets_of) _ loops (need-passed _ _ loops l);
        artifacts =
            every_item-All _ _ (validate_artifact_hint_sound sets_of) _ artifacts
              (need-passed _ _ artifacts a);
        drift = validate_drift_sound sets_of _ drift (need-passed _ _ drift d);
      })

  examine-IsAuthorized :
      (read_double : Text → Number) (text : Text) (fs : Fields) (patch : VccPatch)
      → examine primitives read_double text context ≡ passed (fs, patch)
      → IsAuthorized patch
        × (primitives.sha256 context.candidate.bytes ≡ context.candidate.digest)
        × (utf8_bytes text ≤ 32768)
  unfolding examine
  examine-IsAuthorized read_double text fs patch h =
      let (_, fits, h1) =
        >>=-eq-passed
          (test (leb (utf8_bytes text) patch_max_bytes) (codes "patch exceeds byte bound")) h in
      let (_, same, h2) =
        >>=-eq-passed
          (test (eq_text (primitives.sha256 context.candidate.bytes) context.candidate.digest)
            (codes "candidate digest mismatch"))
          h1 in
      let (object, _, h3) = >>=-eq-passed (need (parse_vcc_patch read_double text) _) h2 in
      let (found, checked, h4) = >>=-eq-passed (check_patch primitives context object) h3 in
      (
        subst IsAuthorized (ap (λ p. p.1) (passed_inj h4))
            (check_patch-IsAuthorized object found checked),
        (eq_text_iff _ context.candidate.digest).0 (test-passed _ _ same),
        leb→le (utf8_bytes text) patch_max_bytes (test-passed _ _ fits),
      )

  -- A patch is accepted only for a candidate whose digest is right and in a text within the bound, and
  -- it is authorized: all that it refers to stands in the source index.
  pub validate_vcc_patch-IsAuthorized :
      (read_double : Text → Number) (text digest base : Text) (patch : VccPatch)
      → validate_vcc_patch primitives read_double text context ≡ ok (accepted patch digest base)
      → IsAuthorized patch
        × (base ≡ expected_base)
        × (primitives.sha256 context.candidate.bytes ≡ context.candidate.digest)
        × (utf8_bytes text ≤ 32768)
  unfolding validate_vcc_patch
  validate_vcc_patch-IsAuthorized read_double text digest base patch h =
      go (examine primitives read_double text context) refl h
    where
      go :
          (verdict : Verdict (Fields × VccPatch))
          → examine primitives read_double text context ≡ verdict
          → conclude primitives context verdict ≡ ok (accepted patch digest base)
          → IsAuthorized patch
            × (base ≡ expected_base)
            × (primitives.sha256 context.candidate.bytes ≡ context.candidate.digest)
            × (utf8_bytes text ≤ 32768)
      go (because why) e h = cc
      go (passed (fs, found)) e h =
          let (authorized, same, fits) = examine-IsAuthorized read_double text fs found e in
          let (patch_eq, base_eq) = accept_patch-eq fs found patch digest base h in
          (subst IsAuthorized patch_eq authorized, sym base_eq ∙ authorized.base, same, fits)
