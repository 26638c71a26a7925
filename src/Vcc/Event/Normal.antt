-- ===== src/Vcc/Event/Normal.antt =====
-- src/vcc.ts: what an event of `normalizeCanonicalEvent` is, in terms of its input.
use opencode_better_compact.Base.{
  ok_inj, ℕ, ◌≤◌, ◌≡◌, refl, ◌∙◌, ap, subst, Bool, true, false, not, ◌&&◌, some, List, [], ◌∷◌,
  ◌++◌, arith, Text, codes, member, distinct, any, All, ok, type_error, >>=-eq-ok, >>-eq-ok,
  reject_if, reject_if-ok,
}
use opencode_better_compact.Base.Sort.{Perm, Perm_sym, Perm-All, Sorted, sort, sort-Perm}
use opencode_better_compact.Base.Sort.Laws.{sort-Sorted}
use opencode_better_compact.Base.Value.{Number, num, safe_natural}
use opencode_better_compact.Utf8.{utf8_bytes, truncate_utf8}
use opencode_better_compact.Utf8.Truncate.{utf8_bytes-truncate_utf8}
use opencode_better_compact.Vcc.Order.{compare_code_points}
use opencode_better_compact.Vcc.Order.Laws.{compare_code_points-IsPreorder}
use opencode_better_compact.Vcc.Event.Ids.{
  vcc_hosts, require_host, canonical_event_id, sorted_ids, normalize_ids, normalize_typed_ids,
  normalize_archive_handles, is_event_id, is_typed_id, is_archive_handle,
}
use opencode_better_compact.Vcc.Event.{
  CanonicalEvent, CanonicalEventInput, Primitives, vcc_provenance, or_empty, is_true, event_value,
  IdLists, check_input, collect_ids, event_of, require_sequence, content_text, payload_digest_of,
  normalize_canonical_event,
}

-- A list of identities that are all admitted, none of them twice, in the order of code points.
pub record IsIdList (admits : Text → Bool) (ids sorted : List Text) : Type 0 where
  pub nodup : distinct ids ≡ true
  pub admitted : All (λ id. admits id ≡ true) sorted
  pub same : Perm sorted ids
  pub in_order : Sorted compare_code_points sorted

all_admitted :
    (admits : Text → Bool) (ids : List Text)
    → any (λ id. not (admits id)) ids ≡ false
    → All (λ id. admits id ≡ true) ids
all_admitted admits [] h = tt
all_admitted admits (id ∷ ids) h = (ground arith, all_admitted admits ids (ground arith))

pub sorted_ids-IsIdList :
    (admits : Text → Bool) (ids sorted : List Text)
    → sorted_ids admits ids ≡ ok sorted
    → IsIdList admits ids sorted
unfolding sorted_ids
sorted_ids-IsIdList admits ids sorted h =
    let (d, h') = >>-eq-ok (reject_if (not (distinct ids)) type_error) h in
    let (a, h'') = >>-eq-ok (reject_if (any (λ id. not (admits id)) ids) type_error) h' in
    let same : sort compare_code_points ids ≡ sorted = cc h'' in
    let each = all_admitted admits ids (reject_if-ok _ type_error a) in
    subst (IsIdList admits ids) same (record {
      nodup = ground (arith, reject_if-ok (not (distinct ids)) type_error d);
      admitted =
          Perm-All (λ id. admits id ≡ true) (Perm_sym (sort-Perm compare_code_points ids)) each;
      same = sort-Perm compare_code_points ids;
      in_order = sort-Sorted compare_code_points compare_code_points-IsPreorder ids;
    })

normalize_ids-IsIdList :
    (ids sorted : List Text) → normalize_ids ids ≡ ok sorted → IsIdList is_event_id ids sorted
unfolding normalize_ids
normalize_ids-IsIdList ids sorted h = sorted_ids-IsIdList is_event_id ids sorted h

normalize_typed_ids-IsIdList :
    (kind : Text) (ids sorted : List Text)
    → normalize_typed_ids kind ids ≡ ok sorted
    → IsIdList (is_typed_id kind) ids sorted
unfolding normalize_typed_ids
normalize_typed_ids-IsIdList kind ids sorted h = sorted_ids-IsIdList (is_typed_id kind) ids sorted h

normalize_archive_handles-IsIdList :
    (ids sorted : List Text)
    → normalize_archive_handles ids ≡ ok sorted
    → IsIdList is_archive_handle ids sorted
unfolding normalize_archive_handles
normalize_archive_handles-IsIdList ids sorted h = sorted_ids-IsIdList is_archive_handle ids sorted h

canonical_event_id-eq :
    (host source id : Text)
    → canonical_event_id host source ≡ ok id
    → (id ≡ codes "ev:" ++ (host ++ (b':' ∷ source))) × (member host vcc_hosts ≡ true)
unfolding canonical_event_id require_host
canonical_event_id-eq host source id h = ground arith

require_sequence-eq :
    (n : Number) (m : ℕ) → require_sequence n ≡ ok m → safe_natural (some (num n)) ≡ some m
unfolding require_sequence
require_sequence-eq n m h = ground arith

not-false : {b : Bool} → not b ≡ false → b ≡ true
not-false h = ground arith

check_input-eq :
    (input : CanonicalEventInput) (sequence : ℕ)
    → check_input input ≡ ok sequence
    → (safe_natural (some (num input.sequence)) ≡ some sequence)
      × (member input.provenance vcc_provenance ≡ true)
      × ((is_true input.authoritative && is_true input.advisory) ≡ false)
unfolding check_input
check_input-eq input sequence h = ground (arith, require_sequence-eq input.sequence sequence)

collect_ids-IsIdList :
    (input : CanonicalEventInput) (ids : IdLists)
    → collect_ids input ≡ ok ids
    → IsIdList is_event_id (or_empty input.derived_from_event_ids) ids.derived
      × IsIdList is_event_id (or_empty input.supersedes_event_ids) ids.supersedes
      × IsIdList (is_typed_id (codes "goal")) (or_empty input.goal_ids) ids.goals
      × IsIdList (is_typed_id (codes "artifact")) (or_empty input.artifact_ids) ids.artifacts
      × IsIdList is_event_id (or_empty input.evidence_event_ids) ids.evidence
      × IsIdList is_archive_handle (or_empty input.archive_handles) ids.archives
unfolding collect_ids
collect_ids-IsIdList input ids h =
    let (derived, e1, h1) = >>=-eq-ok (normalize_ids (or_empty input.derived_from_event_ids)) h in
    let (supersedes, e2, h2) = >>=-eq-ok (normalize_ids (or_empty input.supersedes_event_ids)) h1 in
    let (goals, e3, h3) =
      >>=-eq-ok (normalize_typed_ids (codes "goal") (or_empty input.goal_ids)) h2 in
    let (artifacts, e4, h4) =
      >>=-eq-ok (normalize_typed_ids (codes "artifact") (or_empty input.artifact_ids)) h3 in
    let (evidence, e5, h5) = >>=-eq-ok (normalize_ids (or_empty input.evidence_event_ids)) h4 in
    let (archives, e6, h6) =
      >>=-eq-ok (normalize_archive_handles (or_empty input.archive_handles)) h5 in
    let same = ok_inj h6 in
    (
      subst (IsIdList is_event_id (or_empty input.derived_from_event_ids))
          (ap (λ r. r.derived) same)
          (normalize_ids-IsIdList (or_empty input.derived_from_event_ids) derived e1),
      subst (IsIdList is_event_id (or_empty input.supersedes_event_ids))
          (ap (λ r. r.supersedes) same)
          (normalize_ids-IsIdList (or_empty input.supersedes_event_ids) supersedes e2),
      subst (IsIdList (is_typed_id (codes "goal")) (or_empty input.goal_ids))
          (ap (λ r. r.goals) same)
          (normalize_typed_ids-IsIdList (codes "goal") (or_empty input.goal_ids) goals e3),
      subst (IsIdList (is_typed_id (codes "artifact")) (or_empty input.artifact_ids))
          (ap (λ r. r.artifacts) same)
          (normalize_typed_ids-IsIdList (codes "artifact") (or_empty input.artifact_ids) artifacts
            e4),
      subst (IsIdList is_event_id (or_empty input.evidence_event_ids)) (ap (λ r. r.evidence) same)
          (normalize_ids-IsIdList (or_empty input.evidence_event_ids) evidence e5),
      subst (IsIdList is_archive_handle (or_empty input.archive_handles))
          (ap (λ r. r.archives) same)
          (normalize_archive_handles-IsIdList (or_empty input.archive_handles) archives e6),
    )

pub record IsNormal (primitives : Primitives) (input : CanonicalEventInput) (e : CanonicalEvent)
    : Type 0 where
  pub named : e.id ≡ codes "ev:" ++ (input.host ++ (b':' ∷ input.stable_source_id))
  pub known_host : member input.host vcc_hosts ≡ true
  pub known_provenance : member input.provenance vcc_provenance ≡ true
  pub numbered : safe_natural (some (num input.sequence)) ≡ some e.sequence
  pub derived :
      IsIdList is_event_id (or_empty input.derived_from_event_ids) e.derived_from_event_ids
  pub supersedes : IsIdList is_event_id (or_empty input.supersedes_event_ids) e.supersedes_event_ids
  pub goals : IsIdList (is_typed_id (codes "goal")) (or_empty input.goal_ids) e.goal_ids
  pub artifacts :
      IsIdList (is_typed_id (codes "artifact")) (or_empty input.artifact_ids) e.artifact_ids
  pub evidence : IsIdList is_event_id (or_empty input.evidence_event_ids) e.evidence_event_ids
  pub archives : IsIdList is_archive_handle (or_empty input.archive_handles) e.archive_handles
  pub bounded : utf8_bytes e.content ≤ 16384
  pub one_authority : is_true input.authoritative && is_true input.advisory ≡ false
  pub digested : payload_digest_of primitives e ≡ ok e.payload_digest

module _ (primitives : Primitives) where
  -- The digest does not read the digest's field.
  pub payload_digest_of-record :
      (e : CanonicalEvent) (digest : Text)
      → payload_digest_of primitives (record e { payload_digest = digest })
        ≡ payload_digest_of primitives e
  unfolding payload_digest_of event_value
  payload_digest_of-record e digest = refl

  event_of-IsNormal :
      (input : CanonicalEventInput) (sequence : ℕ) (text : Text) (ids : IdLists) (id digest : Text)
      → check_input input ≡ ok sequence
      → collect_ids input ≡ ok ids
      → canonical_event_id input.host input.stable_source_id ≡ ok id
      → payload_digest_of primitives
          (event_of input sequence (truncate_utf8 (primitives.redact text) 16384) ids id)
        ≡ ok digest
      → IsNormal primitives input
          (record (event_of input sequence (truncate_utf8 (primitives.redact text) 16384) ids id) {
            payload_digest = digest;
          })
  event_of-IsNormal input sequence text ids id digest checked collected e4 e5 =
      let event = event_of input sequence (truncate_utf8 (primitives.redact text) 16384) ids id in
      let (named, known) = canonical_event_id-eq input.host input.stable_source_id id e4 in
      let (numbered, provenance, one) = check_input-eq input sequence checked in
      let lists = collect_ids-IsIdList input ids collected in
      record {
        named = named;
        known_host = known;
        known_provenance = provenance;
        numbered = numbered;
        derived = lists.0;
        supersedes = lists.1;
        goals = lists.2;
        artifacts = lists.3;
        evidence = lists.4;
        archives = lists.5;
        bounded = utf8_bytes-truncate_utf8 (primitives.redact text) 16384;
        one_authority = one;
        digested = payload_digest_of-record event digest ∙ e5;
      }

  -- An event that `normalizeCanonicalEvent` returns has the identity of its host and source, lists of
  -- identities that hold those of the input, admitted, none twice and in order, content of at most
  -- 16384 bytes, and the digest of its other fields; its host, provenance, sequence number and flags
  -- are admitted ones.
  pub normalize_canonical_event-IsNormal :
      (input : CanonicalEventInput) (e : CanonicalEvent)
      → normalize_canonical_event primitives input ≡ ok e
      → IsNormal primitives input e
  unfolding normalize_canonical_event
  normalize_canonical_event-IsNormal input e h =
      let (sequence, checked, h1) = >>=-eq-ok (check_input input) h in
      let (text, written, h2) = >>=-eq-ok (content_text primitives input.content) h1 in
      let (ids, collected, h3) = >>=-eq-ok (collect_ids input) h2 in
      let (id, e4, h4) = >>=-eq-ok (canonical_event_id input.host input.stable_source_id) h3 in
      let content = truncate_utf8 (primitives.redact text) 16384 in
      let (digest, e5, h5) =
        >>=-eq-ok (payload_digest_of primitives (event_of input sequence content ids id)) h4 in
      subst (IsNormal primitives input) (ok_inj h5)
        (event_of-IsNormal input sequence text ids id digest checked collected e4 e5)
