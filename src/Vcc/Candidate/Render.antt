-- ===== src/Vcc/Candidate/Render.antt =====
-- src/vcc.ts: events and episodes as a candidate shows them (`renderEvent`, `renderEpisode`).
use opencode_better_compact.Base.{
  none, some, List, [], ◌∷◌, find, Text, codes, eq_text, Result, ok, throw, type_error, ◌>>=◌,
}
use opencode_better_compact.Base.Value.{Value, str, arr, obj, Items, nil, cons, Fields, end, field}
use opencode_better_compact.Vcc.Event.{CanonicalEvent, natural, texts, text_or_null}
use opencode_better_compact.Vcc.Episode.{CausalEpisode, status_text, signals_value}

unfoldable pub render_event : CanonicalEvent → Value
render_event e = obj (
    field (codes "id") (str e.id) (
      field (codes "sequence") (natural e.sequence) (
        field (codes "provenance") (str e.provenance) (
          field (codes "kind") (str e.kind) (
            field (codes "pair_id") (text_or_null e.pair_id) (
              field (codes "content") (str e.content) (
                field (codes "goal_ids") (texts e.goal_ids) (
                  field (codes "artifact_ids") (texts e.artifact_ids) (
                    field (codes "evidence_event_ids") (texts e.evidence_event_ids) (
                      field (codes "archive_handles") (texts e.archive_handles) (
                        field (codes "payload_digest") (str e.payload_digest)
                          (field (codes "source_location") (str e.source_location) end))))))))))))

abbrev pub items_of : List Value → Items
items_of [] = nil
items_of (v ∷ vs) = cons v (items_of vs)

-- `eventByID.get(id)!` of each; a missing one is no object, which throws.
unfoldable pub render_members : List CanonicalEvent → List Text → Result Items
unfolding render_event
render_members events [] = ok nil
render_members events (id ∷ ids) = elim (find (λ e. eq_text e.id id) events) [
  | none ↦ throw type_error
  | some e ↦ do rest ← render_members events ids; ok (cons (render_event e) rest)
]

abbrev pub episode_fields : CausalEpisode → Fields → Fields
episode_fields e rest = field (codes "id") (str e.id) (
    field (codes "kind") (str e.kind) (
      field (codes "event_ids") (texts e.event_ids) (
        field (codes "goal_ids") (texts e.goal_ids) (
          field (codes "status") (str (status_text e.status)) (
            field (codes "exact_identifiers") (texts e.exact_identifiers) (
              field (codes "artifact_ids") (texts e.artifact_ids) (
                field (codes "evidence_event_ids") (texts e.evidence_event_ids) (
                  field (codes "archive_handles") (texts e.archive_handles) (
                    field (codes "relevance_signals") (signals_value e.relevance_signals)
                      rest)))))))))

unfoldable pub render_episodes : List CanonicalEvent → List CausalEpisode → Result Items
unfolding render_members
render_episodes events [] = ok nil
render_episodes events (e ∷ es) = do
  rendered ← render_members events e.event_ids
  rest ← render_episodes events es
  ok (cons (obj (episode_fields e (field (codes "events") (arr rendered) end))) rest)

-- The episodes as an array, to compare them with those expected.
abbrev pub episode_items : List CausalEpisode → Items
episode_items [] = nil
episode_items (e ∷ es) =
    cons (obj (episode_fields e (field (codes "version") (natural 1) end))) (episode_items es)
