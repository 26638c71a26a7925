-- ===== src/Vcc/Candidate/Checks.antt =====
-- src/vcc.ts: the tests on the events and episodes of a candidate (`orderedSourceEvents`,
-- `validateEventPayloads`, `validateEpisodeCoverage`).
use opencode_better_compact.Base.{
  Bool, true, false, not, ◌&&◌, ◌||◌, ◌==◌, Option, some, List, [], ◌∷◌, length, drop, Text, codes,
  eq_text, member, starts_with, is_empty, Result, ok, throw, plain_error, ◌>>=◌, ◌>>◌, reject_if,
}
use opencode_better_compact.Base.Sort.{sort}
use opencode_better_compact.Vcc.Event.{
  CanonicalEvent, Primitives, compare_events, payload_digest_of, event_ids,
}
use opencode_better_compact.Vcc.Event.Ids.{is_hex64}
use opencode_better_compact.Vcc.Source.{SourceCompleteness, first_id, last_id}
use opencode_better_compact.Vcc.Episode.{CausalEpisode, compare_episodes}

-- `id === other`, where `id` is undefined if there is no event and `other` may be null: an undefined
-- one is no null.
abbrev pub same_id : Option Text → Option Text → Bool
same_id (some id) (some other) = eq_text id other
same_id _ _ = false

abbrev pub in_manifest_scope : SourceCompleteness → CanonicalEvent → Bool
in_manifest_scope source e =
    eq_text e.host source.host
    && eq_text e.session_id source.session_id
    && eq_text e.lineage_id source.lineage_id

-- The loop that throws at a repeated identity and at an event of another scope.
unfoldable pub require_scope :
    SourceCompleteness → List Text → List CanonicalEvent → Result (Unit {0})
require_scope source seen [] = ok tt
require_scope source seen (e ∷ es) = elim (member e.id seen || not (in_manifest_scope source e)) [
  | true ↦ throw plain_error
  | false ↦ require_scope source (e.id ∷ seen) es
]

unfoldable pub ordered_source_events :
    List CanonicalEvent → SourceCompleteness → Result (List CanonicalEvent)
unfolding compare_events require_scope
ordered_source_events events source = do
  let ordered = sort compare_events events
  reject_if
      (not (length ordered == source.record_count)
        || not (same_id (first_id ordered) source.first_source_id)
        || not (same_id (last_id ordered) source.last_source_id))
      plain_error
  require_scope source [] ordered
  ok ordered

unfoldable pub validate_event_payloads : Primitives → List CanonicalEvent → Result (Unit {0})
validate_event_payloads primitives [] = ok tt
validate_event_payloads primitives (e ∷ es) = do
  digest ← payload_digest_of primitives e
  reject_if (not (eq_text digest e.payload_digest)) plain_error
  validate_event_payloads primitives es

-- `/^ep:[a-f0-9]{64}$/`
abbrev pub is_episode_id : Text → Bool
is_episode_id id = starts_with id (codes "ep:") && is_hex64 (drop 3 id)

-- The identities of one episode: each of a known event, and covered by no episode before.
unfoldable pub cover : List Text → List Text → List Text → Result (List Text)
cover known covered [] = ok covered
cover known covered (id ∷ ids) = elim (not (member id known) || member id covered) [
  | true ↦ throw plain_error
  | false ↦ cover known (id ∷ covered) ids
]

unfoldable pub cover_all :
    List Text → List Text → List Text → List CausalEpisode → Result (List Text)
unfolding cover
cover_all known covered seen [] = ok covered
cover_all known covered seen (e ∷ es) = do
  reject_if (not (is_episode_id e.id) || member e.id seen || is_empty e.event_ids) plain_error
  covered' ← cover known covered e.event_ids
  cover_all known covered' (e.id ∷ seen) es

unfoldable pub validate_episode_coverage :
    List CausalEpisode → List CanonicalEvent → Result (List CausalEpisode)
unfolding cover_all
validate_episode_coverage episodes events = do
  covered ← cover_all (event_ids events) [] [] episodes
  reject_if (not (length covered == length events)) plain_error
  ok (sort compare_episodes episodes)
