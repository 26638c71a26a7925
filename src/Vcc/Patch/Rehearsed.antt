-- ===== src/Vcc/Patch/Rehearsed.antt =====
-- src/vcc.ts: a text tried as a patch (`rehearseVccPatch`): the candidate as it was, or patched.
use opencode_better_compact.Base.{
  ◌≡◌, refl, sym, ◌∙◌, ap, Option, none, some, List, ◌⊎◌, inl, inr, Text, ok, throw, ok_inj,
  >>=-eq-ok, true,
}
use opencode_better_compact.Base.Value.{Value, Fields, Number, obj}
use opencode_better_compact.Vcc.Serialize.{canonical_serialize}
use opencode_better_compact.Vcc.Event.{Primitives}
use opencode_better_compact.Vcc.Patch.{
  VccPatch, VccPatchContext, VccPatchValidation, accepted, refused, VccPatchApplication,
}
use opencode_better_compact.Vcc.Patch.Validate.{examine, conclude, accept_patch, validate_vcc_patch}
use opencode_better_compact.Base.Verdict.{Verdict, because, passed}
use opencode_better_compact.Vcc.Patch.Authorized.{IsAuthorized, validate_vcc_patch-IsAuthorized}
use opencode_better_compact.Vcc.Patch.Apply.{
  unpatched, patch_candidate, parsed_candidate, apply_vcc_patch, rehearse_vcc_patch,
}
use opencode_better_compact.Vcc.Patch.Applied.{IsPatched, patch_candidate-IsPatched}

module _ (primitives : Primitives) (read_double : Text → Number) (context : VccPatchContext) where
  -- The candidate as the caller has it, with the digest of its text.
  abbrev pub fallback : VccPatchApplication
  fallback =
      unpatched primitives context context.candidate.bytes
        (primitives.sha256 context.candidate.bytes)

  -- What a text does as a patch: an authorized patch of the candidate's object.
  pub record IsRehearsal (application : VccPatchApplication) : Type 0 where
    pub patch : VccPatch
    pub digest : Text
    pub authorized : IsAuthorized primitives context patch
    pub parsed : Fields
    pub episodes : List Value
    pub read : parsed_candidate read_double context.candidate.bytes ≡ some (parsed, episodes)
    pub patched : IsPatched primitives patch parsed episodes application
    pub is_accepted : application.is_accepted ≡ true
    pub digest_kept : application.patch_digest ≡ some digest

  abbrev pub Outcome : VccPatchApplication → Type 0
  Outcome application = (application ≡ fallback) ⊎ IsRehearsal application

  apply_vcc_patch_sound :
      (patch : VccPatch) (digest : Text) (application : VccPatchApplication)
      → IsAuthorized primitives context patch
      → apply_vcc_patch primitives read_double context patch digest ≡ ok application
      → Outcome application
  unfolding apply_vcc_patch
  apply_vcc_patch_sound patch digest application authorized h =
      go (parsed_candidate read_double context.candidate.bytes) refl h
    where
      go :
          (candidate : Option (Fields × List Value))
          → parsed_candidate read_double context.candidate.bytes ≡ candidate
          → elim candidate [
            | none ↦ ok fallback
            | some (fs, episodes) ↦ patch_candidate primitives patch digest fs episodes
          ]
            ≡ ok application
          → Outcome application
      go none e h' = inl (sym (ok_inj h'))
      go (some (fs, episodes)) e h' =
          let (patched, is_accepted, digest_kept) =
            patch_candidate-IsPatched primitives patch digest fs episodes application h' in
          inr (record {
            patch = patch;
            digest = digest;
            authorized = authorized;
            parsed = fs;
            episodes = episodes;
            read = e;
            patched = patched;
            is_accepted = is_accepted;
            digest_kept = digest_kept;
          })

  -- A refused patch comes with the candidate's text and the digest of that text.
  validate_vcc_patch-refused :
      (text why bytes digest : Text)
      → validate_vcc_patch primitives read_double text context ≡ ok (refused why bytes digest)
      → (bytes ≡ context.candidate.bytes) × (digest ≡ primitives.sha256 context.candidate.bytes)
  unfolding validate_vcc_patch accept_patch
  validate_vcc_patch-refused text why bytes digest h =
      go (examine primitives read_double text context) h
    where
      go :
          (verdict : Verdict (Fields × VccPatch))
          → conclude primitives context verdict ≡ ok (refused why bytes digest)
          → (bytes ≡ context.candidate.bytes) × (digest ≡ primitives.sha256 context.candidate.bytes)
      go (because other) e = (cc, cc)
      go (passed (fs, patch)) e =
          elim (canonical_serialize primitives.print_double (obj fs))
              as (λ r.
                elim r [
                  | throw e ↦ throw e
                  | ok written ↦ ok (accepted patch (primitives.sha256 written) patch.base_digest)
                ]
                  ≡ ok (refused why bytes digest)
                → (bytes ≡ context.candidate.bytes)
                  × (digest ≡ primitives.sha256 context.candidate.bytes)) [
                    | throw e ↦ λ e'. cc
                    | ok written ↦ λ e'. cc
                  ]
            e

  pub rehearse_vcc_patch-Outcome :
      (text : Text) (application : VccPatchApplication)
      → rehearse_vcc_patch primitives read_double context text ≡ ok application
      → Outcome application
  unfolding rehearse_vcc_patch
  rehearse_vcc_patch-Outcome text application h =
      let (validation, e, h') =
        >>=-eq-ok (validate_vcc_patch primitives read_double text context) h in
      go validation e h'
    where
      go :
          (validation : VccPatchValidation)
          → validate_vcc_patch primitives read_double text context ≡ ok validation
          → elim validation [
            | refused why bytes digest ↦ ok (unpatched primitives context bytes digest)
            | accepted patch digest base ↦
                apply_vcc_patch primitives read_double context patch digest
          ]
            ≡ ok application
          → Outcome application
      go (refused why bytes digest) e h' =
          let (same, digested) = validate_vcc_patch-refused text why bytes digest e in
          inl (
            sym (ok_inj h')
            ∙ ap (λ b. unpatched primitives context b digest) same
            ∙ ap (λ d. unpatched primitives context context.candidate.bytes d) digested)
      go (accepted patch digest base) e h' =
          let (authorized, _, _, _) =
            validate_vcc_patch-IsAuthorized primitives context read_double text digest base patch
              e in
          apply_vcc_patch_sound patch digest application authorized h'
