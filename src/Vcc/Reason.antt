-- ===== src/Vcc/Reason.antt =====
-- src/vcc.ts: `VCC_SOURCE_INCOMPLETE_REASONS`, why a session's history could not be read whole.
use opencode_better_compact.Base.{
  ◌≡◌, refl, Option, some, List, [], ◌∷◌, Text, codes, eq_text, find,
}

pub data SourceIncompleteReason : Type 0 where
  cursor_repeated empty_page_with_cursor page_limit byte_limit : SourceIncompleteReason
  fetch_error invalid_cursor oversized_page duplicate_message_id : SourceIncompleteReason
  cross_session_record lineage_ambiguous source_shrink : SourceIncompleteReason
  unsupported_record unknown : SourceIncompleteReason

unfoldable pub reason_text : SourceIncompleteReason → Text
reason_text cursor_repeated = codes "cursor_repeated"
reason_text empty_page_with_cursor = codes "empty_page_with_cursor"
reason_text page_limit = codes "page_limit"
reason_text byte_limit = codes "byte_limit"
reason_text fetch_error = codes "fetch_error"
reason_text invalid_cursor = codes "invalid_cursor"
reason_text oversized_page = codes "oversized_page"
reason_text duplicate_message_id = codes "duplicate_message_id"
reason_text cross_session_record = codes "cross_session_record"
reason_text lineage_ambiguous = codes "lineage_ambiguous"
reason_text source_shrink = codes "source_shrink"
reason_text unsupported_record = codes "unsupported_record"
reason_text unknown = codes "unknown"

unfoldable pub source_incomplete_reasons : List SourceIncompleteReason
source_incomplete_reasons =
    cursor_repeated ∷ empty_page_with_cursor ∷ page_limit ∷ byte_limit ∷ fetch_error
    ∷ invalid_cursor ∷ oversized_page ∷ duplicate_message_id ∷ cross_session_record
    ∷ lineage_ambiguous ∷ source_shrink ∷ unsupported_record ∷ unknown ∷ []

-- The member of the list that a text spells.
unfoldable pub reason_of : Text → Option SourceIncompleteReason
unfolding source_incomplete_reasons reason_text eq_text codes
reason_of t = find (λ r. eq_text (reason_text r) t) source_incomplete_reasons

pub reason_of-reason_text : (r : SourceIncompleteReason) → reason_of (reason_text r) ≡ some r
unfolding reason_of
reason_of-reason_text cursor_repeated = refl
reason_of-reason_text r = refl
