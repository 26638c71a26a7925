-- ===== src/Vcc/Patch/Validate.antt =====
-- src/vcc.ts: whether a text is a patch of a candidate (`validateVccPatch`).
use opencode_better_compact.Base.{List, [], ◌∷◌, leb, Text, codes, eq_text, Result, ok, throw}
use opencode_better_compact.Base.Value.{obj, Fields, Number, get_field}
use opencode_better_compact.Base.Verdict.{Verdict, because, passed, need, test, ◌>>=◌}
use opencode_better_compact.Utf8.{utf8_bytes}
use opencode_better_compact.Vcc.Serialize.{canonical_serialize}
use opencode_better_compact.Vcc.Event.{Primitives}
use opencode_better_compact.Vcc.Json.{parse_vcc_patch, patch_max_bytes}
use opencode_better_compact.Vcc.Patch.{
  VccPatch, VccPatchContext, VccPatchValidation, accepted, refused, vcc_patch_base_digest,
}
use opencode_better_compact.Vcc.Patch.Checks.{
  every_item, read_base_digest, read_goals, patch_source_sets, exact_keys, validate_relation,
  validate_episode_hint, validate_loop_hint, validate_artifact_hint, validate_drift,
}

abbrev pub patch_keys : List Text
patch_keys =
    codes "version"
    ∷ codes "base_digest"
    ∷ codes "active_goal_ids"
    ∷ codes "relations"
    ∷ codes "episode_hints"
    ∷ codes "open_loop_hints"
    ∷ codes "artifact_hints"
    ∷ codes "drift"
    ∷ codes "missing_from_projection_ids"
    ∷ []

module _ (primitives : Primitives) where
  -- The tests of the parsed object, in the code's order.
  unfoldable pub check_patch : VccPatchContext → Fields → Verdict VccPatch
  unfolding codes vcc_patch_base_digest read_base_digest read_goals every_item
  check_patch context fs = do
    let sets = patch_source_sets context.source_index
    let expected = vcc_patch_base_digest primitives context.candidate.bytes context.docket_bytes
    let gates = context.source_index.correction_gate
    _ ← test (exact_keys fs patch_keys) (codes "patch keys are not exact")
    base ← need (read_base_digest expected fs) (codes "patch version or base digest mismatch")
    (goals, missing) ←
        need (read_goals sets fs) (codes "unknown, unauthorized, or duplicate patch IDs")
    relations ←
        need
          (every_item (validate_relation primitives.print_double sets gates)
            (get_field (codes "relations") fs))
          (codes "invalid relation or evidence")
    episodes ←
        need (every_item (validate_episode_hint sets) (get_field (codes "episode_hints") fs))
          (codes "invalid episode hint")
    loops ←
        need (every_item (validate_loop_hint sets) (get_field (codes "open_loop_hints") fs))
          (codes "invalid open-loop hint")
    artifacts ←
        need (every_item (validate_artifact_hint sets) (get_field (codes "artifact_hints") fs))
          (codes "invalid artifact hint")
    drift ← need (validate_drift sets (get_field (codes "drift") fs)) (codes "invalid drift")
    passed (record {
      base_digest = base;
      active_goal_ids = goals;
      relations = relations;
      episode_hints = episodes;
      open_loop_hints = loops;
      artifact_hints = artifacts;
      drift = drift;
      missing_from_projection_ids = missing;
    })

  abbrev pub refuse_patch : VccPatchContext → Text → VccPatchValidation
  refuse_patch context why =
      refused why context.candidate.bytes (primitives.sha256 context.candidate.bytes)

  -- The validation of a patch whose tests are done; its digest is of its canonical text.
  unfoldable pub accept_patch : VccPatchContext → Fields → VccPatch → Result VccPatchValidation
  accept_patch context fs patch = elim (canonical_serialize primitives.print_double (obj fs)) [
    | throw e ↦ throw e
    | ok text ↦ ok (accepted patch (primitives.sha256 text) patch.base_digest)
  ]

  abbrev pub conclude : VccPatchContext → Verdict (Fields × VccPatch) → Result VccPatchValidation
  conclude context (because why) = ok (refuse_patch context why)
  conclude context (passed (fs, patch)) = accept_patch context fs patch

  module _ (read_double : Text → Number) where
    -- The tests in the code's order, with the parsed object.
    unfoldable pub examine : Text → VccPatchContext → Verdict (Fields × VccPatch)
    unfolding codes check_patch
    examine text context = do
      _ ← test (leb (utf8_bytes text) patch_max_bytes) (codes "patch exceeds byte bound")
      _ ←
          test (eq_text (primitives.sha256 context.candidate.bytes) context.candidate.digest)
            (codes "candidate digest mismatch")
      fs ←
          need (parse_vcc_patch read_double text)
            (codes "invalid JSON, duplicate key, or trailing prose")
      patch ← check_patch context fs
      passed (fs, patch)

    unfoldable pub validate_vcc_patch : Text → VccPatchContext → Result VccPatchValidation
    unfolding examine accept_patch
    validate_vcc_patch text context = conclude context (examine text context)
