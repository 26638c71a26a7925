-- ===== src/Vcc/Patch/Warned.antt =====
-- src/vcc.ts: the warnings of a patch (`applyVccPatch`).
use opencode_better_compact.Base.{
  ◌≡◌, refl, ◌∙◌, Bool, true, false, not, ◌&&◌, ◌||◌, List, [], ◌∷◌, ◌++◌, map, any, arith, Text,
  codes, eq_text, member, if◌then◌else◌,
}
use opencode_better_compact.Vcc.Order.Distinct.{
  Lists, unique_sorted-Lists, member-append, member-map,
}
use opencode_better_compact.Vcc.Patch.{VccPatch}
use opencode_better_compact.Vcc.Patch.Apply.{
  colon, relation_warning, loop_warning, artifact_warning, patch_warnings,
}

-- What a patch warns of: its relations, its hints on loops and artifacts, a drift and what the
-- projection lacks.
abbrev pub warns_of : VccPatch → Text → Bool
warns_of patch x =
    any
      (λ r.
        eq_text x
          (codes "relation" ++ (b':' ∷ (r.source_id ++ (b':' ∷ (r.kind ++ (b':' ∷ r.target_id)))))))
      patch.relations
    || (any (λ h. eq_text x (codes "loop" ++ (b':' ∷ (h.object_id ++ (b':' ∷ h.state)))))
          patch.open_loop_hints
        || (any
              (λ h.
                eq_text x (codes "artifact" ++ (b':' ∷ (h.artifact_id ++ (b':' ∷ h.disposition)))))
              patch.artifact_hints
            || (not (eq_text patch.drift.state (codes "on_track"))
                  && eq_text x (codes "drift" ++ (b':' ∷ patch.drift.state))
                || any (λ id. eq_text x (codes "missing_from_projection" ++ (b':' ∷ id)))
                    patch.missing_from_projection_ids)))

drift_member :
    (x t : Text) (on_track : Bool)
    → member x (if on_track then [] else t ∷ []) ≡ (not on_track && eq_text x t)
unfolding member
drift_member x t true = refl
drift_member x t false = ground arith

member_five :
    (x : Text) (us bs cs ds es : List Text)
    → member x (us ++ (bs ++ (cs ++ (ds ++ es))))
      ≡ (member x us || (member x bs || (member x cs || (member x ds || member x es))))
member_five x us bs cs ds es = rw (
  member-append x us (bs ++ (cs ++ (ds ++ es))),
  member-append x bs (cs ++ (ds ++ es)),
  member-append x cs (ds ++ es),
  member-append x ds es,
)

or_five :
    {a a' b b' c c' d d' e e' : Bool}
    → a ≡ a'
    → b ≡ b'
    → c ≡ c'
    → d ≡ d'
    → e ≡ e'
    → (a || (b || (c || (d || e)))) ≡ (a' || (b' || (c' || (d' || e'))))
or_five p q r s t = λ i. p i || (q i || (r i || (s i || t i)))

-- The warnings are exactly these, in order of code points and each of them once.
pub patch_warnings-Lists : (patch : VccPatch) → Lists (patch_warnings patch) (warns_of patch)
unfolding patch_warnings
patch_warnings-Lists patch =
    let on_track = eq_text patch.drift.state (codes "on_track") in
    let drift : List Text = if on_track then [] else colon (codes "drift") patch.drift.state ∷ [] in
    let missing =
      map (λ id. colon (codes "missing_from_projection") id) patch.missing_from_projection_ids in
    let listed = unique_sorted-Lists (
      map relation_warning patch.relations
      ++ (map loop_warning patch.open_loop_hints
          ++ (map artifact_warning patch.artifact_hints ++ (drift ++ missing)))) in
    record {
      sorted = listed.sorted;
      once = listed.once;
      exact = λ x.
          listed.exact x
          ∙ member_five x (map relation_warning patch.relations)
              (map loop_warning patch.open_loop_hints) (map artifact_warning patch.artifact_hints)
              drift missing
          ∙ or_five (member-map x relation_warning patch.relations)
              (member-map x loop_warning patch.open_loop_hints)
              (member-map x artifact_warning patch.artifact_hints)
              (drift_member x (colon (codes "drift") patch.drift.state) on_track)
              (member-map x (λ id. colon (codes "missing_from_projection") id)
                patch.missing_from_projection_ids);
    }
