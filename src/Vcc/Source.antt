-- ===== src/Vcc/Source.antt =====
-- src/vcc.ts: the manifest of a source, which tells whether all of it was read
-- (`buildSourceCompleteness`, `assertCompleteSource`, `sourceCompletenessDigest`).
pub mod Laws
pub mod Complete
pub mod Digest
use opencode_better_compact.Base.{
  ℕ, Bool, true, false, not, ◌&&◌, ◌||◌, Option, none, some, List, [], ◌∷◌, length, Text, codes,
  eq_text, member, Result, ok, throw, type_error, plain_error, ◌>>=◌, ◌>>◌, reject_if,
  if◌then◌else◌, is_some,
}
use opencode_better_compact.Base.Sort.{sort}
use opencode_better_compact.Base.Value.{
  Value, null, bool, num, str, arr, obj, Items, nil, cons, Fields, end, field, Number, safe_natural,
}
use opencode_better_compact.Utf8.{utf8_bytes}
use opencode_better_compact.Vcc.Reason.{
  SourceIncompleteReason, unknown, cross_session_record, duplicate_message_id, reason_text,
  reason_of,
}
use opencode_better_compact.Vcc.Serialize.{canonical_serialize}
use opencode_better_compact.Vcc.Event.Ids.{require_host, require_non_empty}
use opencode_better_compact.Vcc.Event.{
  CanonicalEvent, Primitives, compare_events, full_event_value, natural, text_or_null,
}

-- The cursor after the last page: not told, null, or one that leads on.
pub data Cursor : Type 0 where
  untold terminal : Cursor
  onward : Text → Cursor

pub record SourceInput : Type 0 where
  pub host : Text
  pub session_id : Text
  pub lineage_id : Text
  pub events : List CanonicalEvent
  pub page_count : Option Number
  pub terminal_cursor : Cursor
  pub reason : Option Text
  pub byte_count : Option Number

pub record SourceCompleteness : Type 0 where
  pub host : Text
  pub session_id : Text
  pub lineage_id : Text
  pub complete : Bool
  pub reason : Option SourceIncompleteReason
  pub page_count : ℕ
  pub record_count : ℕ
  pub first_source_id : Option Text
  pub last_source_id : Option Text
  pub terminal_cursor : Option Text
  pub terminal_cursor_observed : Bool
  pub byte_count : ℕ
  pub digest : Text

abbrev pub is_terminal : Cursor → Bool
is_terminal terminal = true
is_terminal _ = false

abbrev pub cursor_text : Cursor → Option Text
cursor_text (onward t) = some t
cursor_text _ = none

-- `events[0]?.id ?? null` and `events.at(-1)?.id ?? null`
abbrev pub first_id : List CanonicalEvent → Option Text
first_id [] = none
first_id (e ∷ es) = some e.id

abbrev pub last_id : List CanonicalEvent → Option Text
last_id [] = none
last_id (e ∷ []) = some e.id
last_id (e ∷ f ∷ es) = last_id (f ∷ es)

-- The manifest as an object, without its digest, `page_count` and `byte_count`.
unfoldable pub stable_identity : SourceCompleteness → Value
stable_identity m = obj (
    field (codes "version") (natural 1) (
      field (codes "host") (str m.host) (
        field (codes "session_id") (str m.session_id) (
          field (codes "lineage_id") (str m.lineage_id) (
            field (codes "complete") (bool m.complete) (
              field (codes "reason")
                (text_or_null (elim m.reason [ none ↦ none | some r ↦ some (reason_text r) ]))
                (field (codes "record_count") (natural m.record_count) (
                  field (codes "first_source_id") (text_or_null m.first_source_id) (
                    field (codes "last_source_id") (text_or_null m.last_source_id) (
                      field (codes "terminal_cursor") (text_or_null m.terminal_cursor) (
                        field (codes "terminal_cursor_observed") (bool m.terminal_cursor_observed)
                          end)))))))))))

-- `unsupported source completeness reason`
unfoldable pub check_reason : Option Text → Result (Option SourceIncompleteReason)
check_reason none = ok none
check_reason (some t) = elim (reason_of t) [ none ↦ throw type_error | some r ↦ ok (some r) ]

-- A count that is given must be a safe natural number.
unfoldable pub check_count : Option Number → Result (Option ℕ)
check_count none = ok none
check_count (some n) = elim (safe_natural (some (num n))) [
  | none ↦ throw type_error
  | some m ↦ ok (some m)
]

-- `input.reason ?? (input.terminal_cursor === null ? null : "unknown")`
abbrev pub initial_reason : Option SourceIncompleteReason → Cursor → Option SourceIncompleteReason
initial_reason (some r) cursor = some r
initial_reason none cursor = if is_terminal cursor then none else some unknown

-- `reason ??= other`, if the test holds
abbrev pub or_reason :
    Bool → Option SourceIncompleteReason → SourceIncompleteReason → Option SourceIncompleteReason
or_reason true none other = some other
or_reason test reason other = reason

abbrev pub in_scope : SourceInput → CanonicalEvent → Bool
in_scope input e =
    eq_text e.host input.host
    && eq_text e.session_id input.session_id
    && eq_text e.lineage_id input.lineage_id

-- The loop over the sorted events.
unfoldable pub scan :
    SourceInput
    → List Text
    → Option SourceIncompleteReason
    → List CanonicalEvent
    → Option SourceIncompleteReason
scan input seen reason [] = reason
scan input seen reason (e ∷ es) =
    scan input (e.id ∷ seen)
      (or_reason (member e.id seen) (or_reason (not (in_scope input e)) reason cross_session_record)
        duplicate_message_id)
      es

-- The events as an array.
abbrev pub event_items : List CanonicalEvent → Items
event_items [] = nil
event_items (e ∷ es) = cons (full_event_value e) (event_items es)

abbrev pub default_page_count : List CanonicalEvent → ℕ
default_page_count [] = 0
default_page_count (e ∷ es) = 1

-- The manifest of the sorted events, its digest still to come.
abbrev pub manifest_of :
    SourceInput
    → List CanonicalEvent
    → Option SourceIncompleteReason
    → Option ℕ
    → ℕ
    → SourceCompleteness
manifest_of input events reason page_count bytes = record {
  host = input.host;
  session_id = input.session_id;
  lineage_id = input.lineage_id;
  complete = not (is_some reason) && is_terminal input.terminal_cursor;
  reason = reason;
  page_count = elim page_count [ none ↦ default_page_count events | some n ↦ n ];
  record_count = length events;
  first_source_id = first_id events;
  last_source_id = last_id events;
  terminal_cursor = cursor_text input.terminal_cursor;
  terminal_cursor_observed = is_terminal input.terminal_cursor;
  byte_count = bytes;
  digest = [];
}

module _ (primitives : Primitives) where
  unfoldable pub source_completeness_digest : SourceCompleteness → Result Text
  source_completeness_digest m = do
    text ← canonical_serialize primitives.print_double (stable_identity m)
    ok (primitives.sha256 text)

  unfoldable pub count_bytes : Option ℕ → List CanonicalEvent → Result ℕ
  count_bytes (some n) events = ok n
  count_bytes none events = do
    text ← canonical_serialize primitives.print_double (arr (event_items events))
    ok (utf8_bytes text)

  unfoldable pub build_source_completeness : SourceInput → Result SourceCompleteness
  unfolding compare_events scan check_reason check_count count_bytes source_completeness_digest
  build_source_completeness input = do
    require_host input.host
    require_non_empty input.session_id
    require_non_empty input.lineage_id
    given ← check_reason input.reason
    page_count ← check_count input.page_count
    byte_count ← check_count input.byte_count
    let events = sort compare_events input.events
    let reason = scan input [] (initial_reason given input.terminal_cursor) events
    bytes ← count_bytes byte_count events
    let manifest = manifest_of input events reason page_count bytes
    digest ← source_completeness_digest manifest
    ok (record manifest { digest = digest })

  -- The manifest, or an error where it tells of an incomplete source or was changed.
  unfoldable pub assert_complete_source : SourceCompleteness → Result SourceCompleteness
  assert_complete_source m = do
    reject_if (not m.complete || is_some m.reason || not m.terminal_cursor_observed) plain_error
    digest ← source_completeness_digest m
    reject_if (not (eq_text digest m.digest)) plain_error
    ok m
