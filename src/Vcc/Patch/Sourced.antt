-- ===== src/Vcc/Patch/Sourced.antt =====
-- src/vcc.ts: what the parts of a patch that pass their tests refer to.
use opencode_better_compact.Base.{
  ◌≡◌, subst, ◌≤◌, true, false, not, ◌&&◌, ◌||◌, Option, some, List, [], ◌∷◌, arith, length, all,
  leb, leb→le, some_inj, &&-eq-true, All, ◌==◌, Text, codes, starts_with, member, distinct,
  is_empty,
}
use opencode_better_compact.Base.Value.{
  Value, Fields, items, get_field, as_text, >>=-eq-some, >>-eq-some,
}
use opencode_better_compact.Utf8.{utf8_bytes}
use opencode_better_compact.Vcc.Patch.Checks.{
  PatchSourceSets, strings_of, as_items, enum_value, is_source_id, source_ids, non_empty_source_ids,
  hint_evidence,
}

-- An identity of the source: of the kind, bounded, and among those of a list.
abbrev pub IsSourceId : List Text → Text → Text → Type 0
IsSourceId allowed prefix id =
    (member id allowed ≡ true) × (starts_with id prefix ≡ true) × (utf8_bytes id ≤ 512)

pub record AreSourceIds (allowed : List Text) (prefix : Text) (ids : List Text) : Type 0 where
  pub once : distinct ids ≡ true
  pub few : length ids ≤ 128
  pub sourced : All (IsSourceId allowed prefix) ids

all-IsSourceId :
    (allowed : List Text) (prefix : Text) (ids : List Text)
    → all (is_source_id allowed prefix) ids ≡ true
    → All (IsSourceId allowed prefix) ids
all-IsSourceId allowed prefix [] h = tt
all-IsSourceId allowed prefix (id ∷ ids) h =
    let (here, later) =
      &&-eq-true (is_source_id allowed prefix id) (all (is_source_id allowed prefix) ids) h in
    let (h', known) =
      &&-eq-true (leb (utf8_bytes id) 512 && starts_with id prefix) (member id allowed) here in
    let (bytes, starts) = &&-eq-true (leb (utf8_bytes id) 512) (starts_with id prefix) h' in
    ((known, starts, leb→le (utf8_bytes id) 512 bytes), all-IsSourceId allowed prefix ids later)

-- What `source_ids` returns are identities of the source.
pub source_ids_sound :
    (value : Option Value) (allowed : List Text) (prefix : Text) (ids : List Text)
    → source_ids value allowed prefix ≡ some ids
    → AreSourceIds allowed prefix ids
unfolding source_ids
source_ids_sound value allowed prefix ids h =
    let (vs, _, h1) = >>=-eq-some (as_items value) h in
    let (few, h2) = >>-eq-some (leb (length (items vs)) 128) h1 in
    let (same, h3) = >>-eq-some (length (strings_of vs) == length (items vs)) h2 in
    let (once, h4) = >>-eq-some (distinct (strings_of vs)) h3 in
    let (sourced, h5) = >>-eq-some (all (is_source_id allowed prefix) (strings_of vs)) h4 in
    subst (AreSourceIds allowed prefix) (some_inj h5) (record {
      once = once;
      few = ground (arith, leb→le (length (items vs)) 128 few);
      sourced = all-IsSourceId allowed prefix (strings_of vs) sourced;
    })

pub non_empty_source_ids_sound :
    (value : Option Value) (allowed : List Text) (prefix : Text) (ids : List Text)
    → non_empty_source_ids value allowed prefix ≡ some ids
    → AreSourceIds allowed prefix ids × (is_empty ids ≡ false)
unfolding non_empty_source_ids
non_empty_source_ids_sound value allowed prefix ids h =
    let (found, e, h1) = >>=-eq-some (source_ids value allowed prefix) h in
    let (filled, h2) = >>-eq-some (not (is_empty found)) h1 in
    subst (λ l. AreSourceIds allowed prefix l × (is_empty l ≡ false)) (some_inj h2)
      (source_ids_sound value allowed prefix found e, ground arith)

pub enum_value_sound :
    (values : List Text) (value : Option Value) (t : Text)
    → enum_value values value ≡ some t
    → member t values ≡ true
unfolding enum_value
enum_value_sound values value t h =
    let (found, _, h1) = >>=-eq-some (as_text value) h in
    let (known, h2) = >>-eq-some (member found values) h1 in
    subst (λ x. member x values ≡ true) (some_inj h2) known

-- The evidence of a hint: events or episodes of the source, at least one of them.
pub record EvidenceIsSourced (sets : PatchSourceSets) (evidence episodes : List Text) : Type 0 where
  pub events : AreSourceIds sets.events (codes "ev:") evidence
  pub episodes_known : AreSourceIds sets.episodes (codes "ep:") episodes
  pub supported : (not (is_empty evidence) || not (is_empty episodes)) ≡ true

pub hint_evidence_sound :
    (sets : PatchSourceSets) (fs : Fields) (evidence episodes : List Text)
    → hint_evidence sets fs ≡ some (evidence, episodes)
    → EvidenceIsSourced sets evidence episodes
unfolding hint_evidence
hint_evidence_sound sets fs evidence episodes h =
    let (events, e, h1) =
      >>=-eq-some (source_ids (get_field (codes "evidence_event_ids") fs) sets.events (codes "ev:"))
        h in
    let (others, o, h2) =
      >>=-eq-some
        (source_ids (get_field (codes "evidence_episode_ids") fs) sets.episodes (codes "ep:")) h1 in
    let (supported, h3) = >>-eq-some (not (is_empty events) || not (is_empty others)) h2 in
    subst (λ p. EvidenceIsSourced sets p.0 p.1) (some_inj h3)
      (record {
        events = source_ids_sound _ sets.events (codes "ev:") events e;
        episodes_known = source_ids_sound _ sets.episodes (codes "ep:") others o;
        supported = supported;
      })
