-- ===== src/Vcc/Event.antt =====
-- src/vcc.ts: canonical events (`normalizeCanonicalEvent`, `normalizeCanonicalEvents`,
-- `canonicalEventId`). The closed sets of host and provenance names are tested at run time, so the
-- fields are texts.
pub mod Ids
pub mod Sequence
pub mod Normal
use Prim.Native.Nat.{Ordering, compare}
use opencode_better_compact.Base.{
  ℕ, Bool, true, false, not, ◌&&◌, ◌||◌, Option, none, some, List, [], ◌∷◌, ◌++◌, map, Text, codes,
  member, distinct, includes, is_empty, all, any, ltb, leb, ◌==◌, Result, ok, throw, type_error,
  ◌>>=◌, ◌>>◌, reject_if, if◌then◌else◌,
}
use opencode_better_compact.Base.Sort.{sort}
use opencode_better_compact.Base.Results.{traverse}
use opencode_better_compact.Base.Value.{
  Value, null, num, str, arr, obj, Items, nil, cons, Fields, end, field, Number, int, safe_natural,
}
use opencode_better_compact.Utf8.{utf8_bytes, truncate_utf8}
use opencode_better_compact.Vcc.Order.{compare_code_points}
use opencode_better_compact.Vcc.Serialize.{canonical_serialize}
use opencode_better_compact.Vcc.Event.Ids.{
  require_host, require_non_empty, require_stable_source_id, normalize_ids, normalize_typed_ids,
  normalize_archive_handles, canonical_event_id,
}

abbrev pub vcc_provenance : List Text
vcc_provenance =
    codes "human_direct"
    ∷ codes "human_tool_answer"
    ∷ codes "human_approval"
    ∷ codes "human_rejection"
    ∷ codes "assistant"
    ∷ codes "tool_call"
    ∷ codes "tool_result"
    ∷ codes "system"
    ∷ codes "host_state"
    ∷ []

pub record CanonicalEventInput : Type 0 where
  pub host : Text
  pub session_id : Text
  pub lineage_id : Text
  pub stable_source_id : Text
  pub sequence : Number
  pub provenance : Text
  pub kind : Text
  pub content : Value
  pub source_location : Text
  pub pair_id : Option Text
  pub derived_from_event_ids : Option (List Text)
  pub supersedes_event_ids : Option (List Text)
  pub goal_ids : Option (List Text)
  pub artifact_ids : Option (List Text)
  pub evidence_event_ids : Option (List Text)
  pub archive_handles : Option (List Text)
  pub authoritative : Option Bool
  pub advisory : Option Bool

pub data Authority : Type 0 where
  authoritative advisory : Authority

pub record CanonicalEvent : Type 0 where
  pub id : Text
  pub host : Text
  pub session_id : Text
  pub lineage_id : Text
  pub sequence : ℕ
  pub provenance : Text
  pub kind : Text
  pub pair_id : Option Text
  pub derived_from_event_ids : List Text
  pub supersedes_event_ids : List Text
  pub goal_ids : List Text
  pub artifact_ids : List Text
  pub evidence_event_ids : List Text
  pub archive_handles : List Text
  pub content : Text
  pub payload_digest : Text
  pub authority : Authority
  pub source_location : Text

-- What the code calls and this library does not define: the digest, the redaction of secrets, and the
-- printing of doubles that are no small integers.
pub record Primitives : Type 0 where
  pub sha256 : Text → Text
  pub redact : Text → Text
  pub print_double : Number → Text

-- `ids ?? []`
abbrev pub or_empty : Option (List Text) → List Text
or_empty none = []
or_empty (some ids) = ids

abbrev pub is_true : Option Bool → Bool
is_true (some true) = true
is_true _ = false

abbrev pub is_false : Option Bool → Bool
is_false (some false) = true
is_false _ = false

abbrev pub text_items : List Text → Items
text_items [] = nil
text_items (t ∷ ts) = cons (str t) (text_items ts)

abbrev pub texts : List Text → Value
texts ts = arr (text_items ts)

abbrev pub text_or_null : Option Text → Value
text_or_null none = null
text_or_null (some t) = str t

abbrev pub natural : ℕ → Value
natural n = num (int false n)

abbrev pub authority_text : Authority → Text
authority_text Authority.authoritative = codes "authoritative"
authority_text Authority.advisory = codes "advisory"

-- The fields of an event but its `payload_digest`, before others.
abbrev pub event_fields : CanonicalEvent → Fields → Fields
event_fields e rest = field (codes "version") (natural 1) (
    field (codes "id") (str e.id) (
      field (codes "host") (str e.host) (
        field (codes "session_id") (str e.session_id) (
          field (codes "lineage_id") (str e.lineage_id) (
            field (codes "sequence") (natural e.sequence) (
              field (codes "provenance") (str e.provenance) (
                field (codes "kind") (str e.kind) (
                  field (codes "pair_id") (text_or_null e.pair_id) (
                    field (codes "derived_from_event_ids") (texts e.derived_from_event_ids) (
                      field (codes "supersedes_event_ids") (texts e.supersedes_event_ids) (
                        field (codes "goal_ids") (texts e.goal_ids) (
                          field (codes "artifact_ids") (texts e.artifact_ids) (
                            field (codes "evidence_event_ids") (texts e.evidence_event_ids) (
                              field (codes "archive_handles") (texts e.archive_handles) (
                                field (codes "content") (str e.content) (
                                  field (codes "authority") (str (authority_text e.authority)) (
                                    field (codes "source_location") (str e.source_location)
                                      rest)))))))))))))))))

-- The event as an object, without its `payload_digest`.
unfoldable pub event_value : CanonicalEvent → Value
event_value e = obj (event_fields e end)

unfoldable pub full_event_value : CanonicalEvent → Value
full_event_value e =
    obj (event_fields e (field (codes "payload_digest") (str e.payload_digest) end))

-- By sequence, and then by identity.
unfoldable pub compare_events : CanonicalEvent → CanonicalEvent → Ordering
compare_events left right = elim (compare left.sequence right.sequence) [
  | Ordering.lt ↦ Ordering.lt
  | Ordering.gt ↦ Ordering.gt
  | Ordering.eq ↦ compare_code_points left.id right.id
]

-- `sequence must be a non-negative safe integer`
unfoldable pub require_sequence : Number → Result ℕ
require_sequence n = elim (safe_natural (some (num n))) [ none ↦ throw type_error | some m ↦ ok m ]

abbrev pub event_ids : List CanonicalEvent → List Text
event_ids events = map (λ e. e.id) events

-- The loop over the events that throws at an identity that it has seen.
unfoldable pub require_distinct : List Text → List CanonicalEvent → Result (Unit {0})
require_distinct seen [] = ok tt
require_distinct seen (e ∷ events) = elim (member e.id seen) [
  | true ↦ throw type_error
  | false ↦ require_distinct (e.id ∷ seen) events
]

-- The sorted lists of identities of an event.
pub record IdLists : Type 0 where
  pub derived : List Text
  pub supersedes : List Text
  pub goals : List Text
  pub artifacts : List Text
  pub evidence : List Text
  pub archives : List Text

-- The tests before anything is computed, with the sequence number.
unfoldable pub check_input : CanonicalEventInput → Result ℕ
unfolding require_sequence
check_input input = do
  require_host input.host
  require_non_empty input.session_id
  require_non_empty input.lineage_id
  require_stable_source_id input.stable_source_id
  sequence ← require_sequence input.sequence
  reject_if (not (member input.provenance vcc_provenance)) type_error
  require_non_empty input.kind
  require_non_empty input.source_location
  reject_if (is_true input.authoritative && is_true input.advisory) type_error
  ok sequence

unfoldable pub collect_ids : CanonicalEventInput → Result IdLists
collect_ids input = do
  derived ← normalize_ids (or_empty input.derived_from_event_ids)
  supersedes ← normalize_ids (or_empty input.supersedes_event_ids)
  goals ← normalize_typed_ids (codes "goal") (or_empty input.goal_ids)
  artifacts ← normalize_typed_ids (codes "artifact") (or_empty input.artifact_ids)
  evidence ← normalize_ids (or_empty input.evidence_event_ids)
  archives ← normalize_archive_handles (or_empty input.archive_handles)
  ok (record {
    derived = derived;
    supersedes = supersedes;
    goals = goals;
    artifacts = artifacts;
    evidence = evidence;
    archives = archives;
  })

-- The event of its parts, its digest still to come.
abbrev pub event_of : CanonicalEventInput → ℕ → Text → IdLists → Text → CanonicalEvent
event_of input sequence content ids id = record {
  id = id;
  host = input.host;
  session_id = input.session_id;
  lineage_id = input.lineage_id;
  sequence = sequence;
  provenance = input.provenance;
  kind = input.kind;
  pair_id = input.pair_id;
  derived_from_event_ids = ids.derived;
  supersedes_event_ids = ids.supersedes;
  goal_ids = ids.goals;
  artifact_ids = ids.artifacts;
  evidence_event_ids = ids.evidence;
  archive_handles = ids.archives;
  content = content;
  payload_digest = [];
  authority =
      if is_false input.authoritative || is_true input.advisory
      then Authority.advisory
      else Authority.authoritative;
  source_location = input.source_location;
}

module _ (primitives : Primitives) where
  -- A string as it is, any other value by its canonical text.
  unfoldable pub content_text : Value → Result Text
  content_text (str t) = ok t
  content_text v = canonical_serialize primitives.print_double v

  unfoldable pub payload_digest_of : CanonicalEvent → Result Text
  payload_digest_of e = do
    text ← canonical_serialize primitives.print_double (event_value e)
    ok (primitives.sha256 text)

  unfoldable pub normalize_canonical_event : CanonicalEventInput → Result CanonicalEvent
  unfolding check_input collect_ids
  normalize_canonical_event input = do
    sequence ← check_input input
    text ← content_text input.content
    let content = truncate_utf8 (primitives.redact text) 16384
    ids ← collect_ids input
    id ← canonical_event_id input.host input.stable_source_id
    let event = event_of input sequence content ids id
    digest ← payload_digest_of event
    ok (record event { payload_digest = digest })

  unfoldable pub normalize_canonical_events :
      List CanonicalEventInput → Result (List CanonicalEvent)
  unfolding traverse compare_events require_distinct
  normalize_canonical_events inputs = do
    normalized ← traverse normalize_canonical_event inputs
    let events : List CanonicalEvent = sort compare_events normalized
    require_distinct [] events
    ok events
