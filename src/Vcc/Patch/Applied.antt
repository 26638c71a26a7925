-- ===== src/Vcc/Patch/Applied.antt =====
-- src/vcc.ts: what a patch changes of a candidate (`applyVccPatch`, `rehearseVccPatch`).
use opencode_better_compact.Base.{
  all, ap, member_later, member_here, ◌≡◌, refl, subst, ◌∙◌, ℕ, Bool, true, false, not, ◌&&◌, some,
  List, [], ◌∷◌, ◌++◌, arith, length, ◌==◌, keep, ok_inj, Bool-cases, Option-cases, inl, inr, Text,
  codes, eq_text, eq_text_iff, eq_text_refl, member, ok, >>=-eq-ok, if◌then◌else◌,
}
use opencode_better_compact.Base.Sort.{
  IsPreorder, or_then-IsPreorder, Perm, Sorted, sort, sort-Perm,
}
use opencode_better_compact.Base.Sort.Laws.{sort-Sorted}
use opencode_better_compact.Base.Value.{
  Value, Fields, end, field, Items, items, arr, obj, get_field,
}
use opencode_better_compact.Vcc.Order.Laws.{compare_code_points-IsPreorder}
use opencode_better_compact.Vcc.Serialize.{canonical_serialize}
use opencode_better_compact.Vcc.Event.{Primitives, texts}
use opencode_better_compact.Vcc.Episode.{flat_map}
use opencode_better_compact.Vcc.Candidate.Render.{items_of}
use opencode_better_compact.Vcc.Patch.{VccPatch, VccPatchApplication}
use opencode_better_compact.Vcc.Patch.Checks.{as_items, strings_of}
use opencode_better_compact.Vcc.Order.Distinct.{Lists, member-append}
use opencode_better_compact.Vcc.Patch.Warned.{warns_of, patch_warnings-Lists}
use opencode_better_compact.Vcc.Patch.Apply.{
  hint_ranks, priority_of, episode_id_of, episode_ids_of, compare_patched, patch_warnings,
  set_field, prefer_goals, patch_goals, patched_body, patch_candidate,
}

compare_patched-IsPreorder : (ranks : List (Text × ℕ)) → IsPreorder Value (compare_patched ranks)
unfolding compare_patched
compare_patched-IsPreorder ranks =
    or_then-IsPreorder compare_code_points-IsPreorder (λ v. priority_of ranks (episode_id_of v))
      episode_id_of

get_field-set_field :
    (k j : Text) (v : Value) (fs : Fields)
    → get_field k (set_field j v fs) ≡ (if eq_text j k then some v else get_field k fs)
unfolding get_field set_field
get_field-set_field k j v end = refl
get_field-set_field k j v (field i w fs) =
    ground (arith, eq_text_iff i j, eq_text_iff i k, eq_text_iff j k, get_field-set_field k j v fs)

get_field-set_field_ne :
    (k j : Text) (v : Value) (fs : Fields)
    → eq_text j k ≡ false
    → get_field k (set_field j v fs) ≡ get_field k fs
get_field-set_field_ne k j v fs h = ground (arith, get_field-set_field k j v fs)

member-keep :
    (p : Text → Bool) (x : Text) (xs : List Text) → member x (keep p xs) ≡ (member x xs && p x)
unfolding member
member-keep p x [] = refl
member-keep p x (y ∷ ys) = ground (arith, member-keep p x ys, eq_text_iff x y)

all_weaken :
    (x : Text) (xs ys : List Text)
    → all (λ id. member id ys) xs ≡ true
    → all (λ id. member id (x ∷ ys)) xs ≡ true
all_weaken x [] ys h = refl
all_weaken x (y ∷ xs) ys h = ground (arith, all_weaken x xs ys, member_later y x ys)

all-member : (xs : List Text) → all (λ id. member id xs) xs ≡ true
all-member [] = refl
all-member (x ∷ xs) = ground (arith, member_here x xs, all_weaken x xs xs (all-member xs))

keep_unwanted :
    (wanted existing xs : List Text)
    → all (λ id. member id existing) xs ≡ true
    → keep (λ id. not (member id (keep (λ id'. member id' existing) wanted))) xs
      ≡ keep (λ id. not (member id wanted)) xs
keep_unwanted wanted existing [] h = refl
keep_unwanted wanted existing (x ∷ xs) h =
    ground
      (arith, keep_unwanted wanted existing xs, member-keep (λ id. member id existing) x wanted)

-- The goals that the patch wants and the candidate has come first, and then the others.
prefer_goals-eq :
    (wanted existing : List Text)
    → prefer_goals wanted existing
      ≡ keep (λ id. member id existing) wanted ++ keep (λ id. not (member id wanted)) existing
unfolding prefer_goals
prefer_goals-eq wanted existing =
    ap (λ rest. keep (λ id. member id existing) wanted ++ rest)
      (keep_unwanted wanted existing existing (all-member existing))

-- The goals of the patched candidate are those of the candidate.
pub prefer_goals-member :
    (wanted existing : List Text) (x : Text)
    → member x (prefer_goals wanted existing) ≡ member x existing
unfolding prefer_goals
prefer_goals-member wanted existing x = ground (
  arith,
  member-append x (keep (λ id. member id existing) wanted)
      (keep (λ id. not (member id (keep (λ id'. member id' existing) wanted))) existing),
  member-keep (λ id. member id existing) x wanted,
  member-keep (λ id. not (member id (keep (λ id'. member id' existing) wanted))) x existing,
)

patch_goals_ne :
    (patch : VccPatch) (parsed body : Fields) (k : Text)
    → eq_text (codes "active_goal_ids") k ≡ false
    → get_field k (patch_goals patch parsed body) ≡ get_field k body
unfolding patch_goals
patch_goals_ne patch parsed body k h =
    elim (Option-cases (as_items (get_field (codes "active_goal_ids") parsed))) [
      | inl e ↦ rw (e, patch_goals)
      | inr (vs, e) ↦ elim (Bool-cases (length (strings_of vs) == length (items vs))) [
        | inl t ↦
            rw (e, patch_goals, t)
              (get_field-set_field_ne k (codes "active_goal_ids")
                (texts (prefer_goals patch.active_goal_ids (strings_of vs))) body h)
        | inr t ↦ rw (e, patch_goals, t)
      ]
    ]

patch_goals_here :
    (patch : VccPatch) (parsed body : Fields) (vs : Items)
    → as_items (get_field (codes "active_goal_ids") parsed) ≡ some vs
    → (length (strings_of vs) == length (items vs)) ≡ true
    → get_field (codes "active_goal_ids") (patch_goals patch parsed body)
      ≡ some (texts (prefer_goals patch.active_goal_ids (strings_of vs)))
unfolding patch_goals
patch_goals_here patch parsed body vs e t =
    rw (e, patch_goals, t)
      (get_field-set_field (codes "active_goal_ids") (codes "active_goal_ids")
          (texts (prefer_goals patch.active_goal_ids (strings_of vs))) body
        ∙ rw (eq_text_refl (codes "active_goal_ids")))

goals_ne_episodes : eq_text (codes "active_goal_ids") (codes "selected_episodes") ≡ false
unfolding codes eq_text
goals_ne_episodes = refl

goals_ne_warnings : eq_text (codes "active_goal_ids") (codes "patch_warnings") ≡ false
unfolding codes eq_text
goals_ne_warnings = refl

warnings_ne_episodes : eq_text (codes "patch_warnings") (codes "selected_episodes") ≡ false
unfolding codes eq_text
warnings_ne_episodes = refl

-- Three properties of the candidate may change, and no other.
abbrev pub IsUntouched : Text → Type 0
IsUntouched k =
    (eq_text (codes "selected_episodes") k ≡ false)
    × (eq_text (codes "patch_warnings") k ≡ false)
    × (eq_text (codes "active_goal_ids") k ≡ false)

module _ (patch : VccPatch) (parsed : Fields) (selected : List Value) (warnings : List Text) where
  abbrev body_of : Fields
  body_of = patched_body patch parsed selected warnings

  patched_body_ne : (k : Text) → IsUntouched k → get_field k body_of ≡ get_field k parsed
  unfolding patched_body
  patched_body_ne k (episodes, warned, goals) =
      patch_goals_ne patch parsed _ k goals
      ∙ get_field-set_field_ne k (codes "patch_warnings") (texts warnings) _ warned
      ∙ get_field-set_field_ne k (codes "selected_episodes") (arr (items_of selected)) parsed
          episodes

  patched_body-episodes :
      get_field (codes "selected_episodes") body_of ≡ some (arr (items_of selected))
  unfolding patched_body
  patched_body-episodes =
      patch_goals_ne patch parsed _ (codes "selected_episodes") goals_ne_episodes
      ∙ get_field-set_field_ne (codes "selected_episodes") (codes "patch_warnings") (texts warnings)
          _ warnings_ne_episodes
      ∙ get_field-set_field (codes "selected_episodes") (codes "selected_episodes")
          (arr (items_of selected)) parsed
      ∙ rw (eq_text_refl (codes "selected_episodes"))

  patched_body-warnings : get_field (codes "patch_warnings") body_of ≡ some (texts warnings)
  unfolding patched_body
  patched_body-warnings =
      patch_goals_ne patch parsed _ (codes "patch_warnings") goals_ne_warnings
      ∙ get_field-set_field (codes "patch_warnings") (codes "patch_warnings") (texts warnings) _
      ∙ rw (eq_text_refl (codes "patch_warnings"))

  patched_body-goals :
      (vs : Items)
      → as_items (get_field (codes "active_goal_ids") parsed) ≡ some vs
      → (length (strings_of vs) == length (items vs)) ≡ true
      → get_field (codes "active_goal_ids") body_of
        ≡ some (texts (prefer_goals patch.active_goal_ids (strings_of vs)))
  unfolding patched_body
  patched_body-goals vs e t = patch_goals_here patch parsed _ vs e t

module _ (primitives : Primitives) where
  -- A candidate that a patch has changed: its episodes in another order, its goals in another order,
  -- its warnings, and nothing else.
  pub record IsPatched (patch : VccPatch) (parsed : Fields) (episodes : List Value)
      (application : VccPatchApplication) : Type 0 where
    pub selected : List Value
    pub reordered : Perm selected episodes
    pub by_priority : Sorted (compare_patched (hint_ranks [] patch.episode_hints)) selected
    pub ids : application.selected_episode_ids ≡ flat_map episode_ids_of selected
    pub body : Fields
    pub written :
        canonical_serialize primitives.print_double (obj body) ≡ ok application.candidate_bytes
    pub digested : application.candidate_digest ≡ primitives.sha256 application.candidate_bytes
    pub shown : get_field (codes "selected_episodes") body ≡ some (arr (items_of selected))
    pub warnings : Lists application.warnings (warns_of patch)
    pub warned : get_field (codes "patch_warnings") body ≡ some (texts application.warnings)
    pub untouched : (k : Text) → IsUntouched k → get_field k body ≡ get_field k parsed
    pub goals :
        (vs : Items)
        → as_items (get_field (codes "active_goal_ids") parsed) ≡ some vs
        → (length (strings_of vs) == length (items vs)) ≡ true
        → get_field (codes "active_goal_ids") body
          ≡ some (
              texts (
                keep (λ id. member id (strings_of vs)) patch.active_goal_ids
                ++ keep (λ id. not (member id patch.active_goal_ids)) (strings_of vs)))

  pub patch_candidate-IsPatched :
      (patch : VccPatch) (digest : Text) (parsed : Fields) (episodes : List Value)
      (application : VccPatchApplication)
      → patch_candidate primitives patch digest parsed episodes ≡ ok application
      → IsPatched patch parsed episodes application
        × (application.is_accepted ≡ true)
        × (application.patch_digest ≡ some digest)
  unfolding patch_candidate
  patch_candidate-IsPatched patch digest parsed episodes application h =
      let ranks = hint_ranks [] patch.episode_hints in
      let order : List Value = sort (compare_patched ranks) episodes in
      let warnings = patch_warnings patch in
      let body = patched_body patch parsed order warnings in
      let (bytes, written, h') =
        >>=-eq-ok (canonical_serialize primitives.print_double (obj body)) h in
      subst
        (λ a.
          IsPatched patch parsed episodes a
          × (a.is_accepted ≡ true)
          × (a.patch_digest ≡ some digest))
        (ok_inj h')
        (
          record {
            selected = order;
            reordered = sort-Perm (compare_patched ranks) episodes;
            by_priority =
                sort-Sorted (compare_patched ranks) (compare_patched-IsPreorder ranks) episodes;
            ids = refl;
            body = body;
            written = written;
            digested = refl;
            shown = patched_body-episodes patch parsed order warnings;
            warnings = patch_warnings-Lists patch;
            warned = patched_body-warnings patch parsed order warnings;
            untouched = patched_body_ne patch parsed order warnings;
            goals = λ vs e t.
                patched_body-goals patch parsed order warnings vs e t
                ∙ ap (λ gs. some (texts gs))
                    (prefer_goals-eq patch.active_goal_ids (strings_of vs));
          },
          refl,
          refl,
        )
