-- ===== src/Hybrid/Outcome.antt =====
-- src/vcc-hybrid.ts: what comes of an exchange (`buildVccHybridRequest`, `requestVccHybridPatch`).
use opencode_better_compact.Base.{
  ◌≡◌, refl, subst, sym, ◌∙◌, ap, ℕ, ◌≤◌, ◌⊎◌, inl, inr, true, false, not, Option, none, some, ltb,
  ltb→le, leb, leb→le, Text, codes, eq_text, eq_text_iff, Result, ok, throw, >>=-eq-ok, >>-eq-ok,
  reject_if-ok, ok_inj, type_error, range_error, reject_if, arith,
}
use opencode_better_compact.Base.Verdict.{
  Verdict, because, passed, need, test, >>=-eq-passed, need-passed, test-passed, passed_inj,
}
use opencode_better_compact.Base.Value.{Value, str, obj, Fields, get_field, Number}
use opencode_better_compact.Utf8.{utf8_bytes}
use opencode_better_compact.Vcc.Serialize.{canonical_serialize}
use opencode_better_compact.Vcc.Event.{Primitives}
use opencode_better_compact.Vcc.Patch.{VccPatchContext, VccPatchApplication, vcc_patch_base_digest}
use opencode_better_compact.Vcc.Patch.Apply.{rehearse_vcc_patch}
use opencode_better_compact.Vcc.Patch.Rehearsed.{IsRehearsal, rehearse_vcc_patch-Outcome}
use opencode_better_compact.Hybrid.{
  source_index_value, RequestEnvelope, HybridResult, Answer, failed, answered, HybridOptions,
  positive_limit, require_positive_limit, validate_candidate, request_fields,
  build_vcc_hybrid_request, fallback, failure_of,
}
use opencode_better_compact.Hybrid.Exchange.{
  await_answer, response_text, max_response_bytes_of, receive, accepted_result, settle, try_text,
  max_request_bytes_of, request_vcc_hybrid_patch,
}

require_positive_limit-eq :
    (n : Number) (limit : ℕ) → require_positive_limit n ≡ ok limit → positive_limit n ≡ some limit
unfolding require_positive_limit
require_positive_limit-eq n limit h = go (positive_limit n) h
  where
    go :
        (found : Option ℕ)
        → elim found [ none ↦ throw type_error | some m ↦ ok m ] ≡ ok limit
        → found ≡ some limit
    go none e = cc
    go (some m) e = cc

await_answer-eq :
    (answer : Answer) (response : Option Value)
    → await_answer answer ≡ passed response
    → answer ≡ answered false response
unfolding await_answer
await_answer-eq (failed true) response h = cc
await_answer-eq (failed false) response h = cc
await_answer-eq (answered true other) response h = cc
await_answer-eq (answered false other) response h = cc

response_text-eq :
    (response : Option Value) (text : Text)
    → response_text response ≡ passed text
    → response ≡ some (str text)
unfolding response_text
response_text-eq none text h = cc
response_text-eq (some v) text h =
    elim v as (λ v. response_text (some v) ≡ passed text → some v ≡ some (str text)) [
      | str t ↦ λ e. cc
      | _ ↦ λ e. cc
    ]
      h

module _ (primitives : Primitives) (context : VccPatchContext) where
  -- A request that is made is for a candidate whose digest is right; its text, within the limit, is that
  -- of an object with the candidate, the docket, their digests and the source index.
  pub record IsRequest (max_request_bytes : Number) (request : RequestEnvelope) : Type 0 where
    pub limit : ℕ
    pub limit_read : positive_limit max_request_bytes ≡ some limit
    pub fits : utf8_bytes request.bytes ≤ limit
    pub candidate : primitives.sha256 context.candidate.bytes ≡ context.candidate.digest
    pub body : Fields
    pub written : canonical_serialize primitives.print_double (obj body) ≡ ok request.bytes
    pub kind : get_field (codes "kind") body ≡ some (str (codes "vcc_hybrid_patch_request"))
    pub candidate_sent :
        get_field (codes "candidate_bytes") body ≡ some (str context.candidate.bytes)
    pub candidate_digest_sent :
        get_field (codes "candidate_digest") body ≡ some (str context.candidate.digest)
    pub docket_sent : get_field (codes "docket_bytes") body ≡ some (str context.docket_bytes)
    pub docket_digest_sent :
        get_field (codes "docket_digest") body ≡ some (str (primitives.sha256 context.docket_bytes))
    pub base_sent : get_field (codes "base_digest") body ≡ some (str request.base_digest)
    pub index_sent :
        get_field (codes "source_index") body ≡ some (source_index_value context.source_index)
    pub digested : request.digest ≡ primitives.sha256 request.bytes
    pub based :
        request.base_digest
        ≡ vcc_patch_base_digest primitives context.candidate.bytes context.docket_bytes

  -- A request is the canonical text of its candidate, docket and index, within the limit.
  pub build_vcc_hybrid_request-IsRequest :
      (max_request_bytes : Number) (request : RequestEnvelope)
      → build_vcc_hybrid_request primitives context max_request_bytes ≡ ok request
      → IsRequest max_request_bytes request
  unfolding build_vcc_hybrid_request validate_candidate request_fields get_field codes eq_text
  build_vcc_hybrid_request-IsRequest max_request_bytes request h =
      let (valid, h1) = >>-eq-ok (validate_candidate primitives context) h in
      let (limit, positive, h2) = >>=-eq-ok (require_positive_limit max_request_bytes) h1 in
      let (bytes, written, h3) =
        >>=-eq-ok
          (canonical_serialize primitives.print_double (obj (request_fields primitives context)))
          h2 in
      let (fits, h4) = >>-eq-ok (reject_if (ltb limit (utf8_bytes bytes)) range_error) h3 in
      let same : eq_text (primitives.sha256 context.candidate.bytes) context.candidate.digest
          ≡ true =
        ground (arith, reject_if-ok _ _ valid) in
      subst (IsRequest max_request_bytes) (ok_inj h4) (record {
        limit = limit;
        limit_read = require_positive_limit-eq max_request_bytes limit positive;
        fits = ltb→le limit (utf8_bytes bytes) (reject_if-ok _ _ fits);
        candidate = (eq_text_iff _ context.candidate.digest).0 same;
        body = request_fields primitives context;
        written = written;
        kind = refl;
        candidate_sent = refl;
        candidate_digest_sent = refl;
        docket_sent = refl;
        docket_digest_sent = refl;
        base_sent = refl;
        index_sent = refl;
        digested = refl;
        based = refl;
      })

module _ (primitives : Primitives) (read_double : Text → Number) (context : VccPatchContext)
    (options : HybridOptions) where
  -- The text that came: a request was made and sent, nothing was aborted by the time its answer came,
  -- and the text is within the limit.
  pub record IsReceived (request : RequestEnvelope) (text : Text) : Type 0 where
    pub limit : ℕ
    pub limit_read : max_response_bytes_of options ≡ some limit
    pub not_aborted : options.is_aborted ≡ false
    pub send : Text → Answer
    pub sender : options.request_patch ≡ some send
    pub answer : send request.bytes ≡ answered false (some (str text))
    pub fits : utf8_bytes text ≤ limit

  receive-IsReceived :
      (request : RequestEnvelope) (text : Text)
      → receive options request ≡ passed text
      → IsReceived request text
  unfolding receive
  receive-IsReceived request text h =
      let (limit, l, h1) =
        >>=-eq-passed (need (max_response_bytes_of options) (codes "invalid_response_bound")) h in
      let (_, live, h2) = >>=-eq-passed (test (not options.is_aborted) (codes "aborted")) h1 in
      let (send, s, h3) =
        >>=-eq-passed (need options.request_patch (codes "invalid_request_boundary")) h2 in
      let (response, r, h4) = >>=-eq-passed (await_answer (send request.bytes)) h3 in
      let (found, f, h5) = >>=-eq-passed (response_text response) h4 in
      let (_, fits, h6) =
        >>=-eq-passed (test (leb (utf8_bytes found) limit) (codes "response_oversized")) h5 in
      subst (IsReceived request) (passed_inj h6) (record {
        limit = limit;
        limit_read = need-passed (max_response_bytes_of options) _ limit l;
        not_aborted = ground (arith, test-passed (not options.is_aborted) _ live);
        send = send;
        sender = need-passed options.request_patch _ send s;
        answer =
            await_answer-eq (send request.bytes) response r
            ∙ ap (answered false) (response_text-eq response found f);
        fits = leb→le (utf8_bytes found) limit (test-passed _ _ fits);
      })

  pub record IsExchange (result : HybridResult) : Type 0 where
    pub request : RequestEnvelope
    pub requested : IsRequest primitives context (max_request_bytes_of options) request
    pub text : Text
    pub received : IsReceived request text
    pub rehearsal : VccPatchApplication
    pub rehearsed : IsRehearsal primitives read_double context rehearsal
    pub settled : result ≡ accepted_result request rehearsal

  -- The candidate as it is, with a reason.
  abbrev pub IsFallback : HybridResult → Type 0
  IsFallback result =
      (why : Text) × (request : Option RequestEnvelope) × (result
        ≡ fallback primitives context why request)

  settle_sound :
      (request : RequestEnvelope) (text : Text) (rehearsal : VccPatchApplication)
      → IsRequest primitives context (max_request_bytes_of options) request
      → IsReceived request text
      → rehearse_vcc_patch primitives read_double context text ≡ ok rehearsal
      → IsFallback (settle primitives read_double context request rehearsal)
        ⊎ IsExchange (settle primitives read_double context request rehearsal)
  settle_sound request text rehearsal requested received h =
      elim (rehearse_vcc_patch-Outcome primitives read_double context text rehearsal h) [
        | inl same ↦ inl (
          codes "invalid_patch",
          some request,
          ap (λ a. settle primitives read_double context request a) same,
        )
        | inr rehearsed ↦ inr (record {
          request = request;
          requested = requested;
          text = text;
          received = received;
          rehearsal = rehearsal;
          rehearsed = rehearsed;
          settled = settle_accepted request rehearsal rehearsed.is_accepted;
        })
      ]
    where
      settle_accepted :
          (request : RequestEnvelope) (rehearsal : VccPatchApplication)
          → rehearsal.is_accepted ≡ true
          → settle primitives read_double context request rehearsal
            ≡ accepted_result request rehearsal
      settle_accepted request rehearsal e = rw e

  try_text_sound :
      (request : RequestEnvelope) (verdict : Verdict Text) (result : HybridResult)
      → IsRequest primitives context (max_request_bytes_of options) request
      → receive options request ≡ verdict
      → try_text primitives read_double context request verdict ≡ ok result
      → IsFallback result ⊎ IsExchange result
  unfolding try_text
  try_text_sound request (because why) result requested e h =
      inl (why, some request, sym (ok_inj h))
  try_text_sound request (passed text) result requested e h =
      go (rehearse_vcc_patch primitives read_double context text) refl h
    where
      go :
          (step : Result VccPatchApplication)
          → rehearse_vcc_patch primitives read_double context text ≡ step
          → elim step [
            | throw e ↦ throw e
            | ok rehearsal ↦ ok (settle primitives read_double context request rehearsal)
          ]
            ≡ ok result
          → IsFallback result ⊎ IsExchange result
      go (throw e') r h' = cc
      go (ok rehearsal) r h' =
          subst (λ x. IsFallback x ⊎ IsExchange x) (ok_inj h')
            (settle_sound request text rehearsal requested (receive-IsReceived request text e) r)

  -- An exchange has the candidate as it is, with a reason, or the candidate with an authorized patch:
  -- a request within its limit was sent, its answer was a text within its limit, and no abort was seen.
  pub request_vcc_hybrid_patch-IsExchange :
      (result : HybridResult)
      → request_vcc_hybrid_patch primitives read_double context options ≡ ok result
      → IsFallback result ⊎ IsExchange result
  unfolding request_vcc_hybrid_patch
  request_vcc_hybrid_patch-IsExchange result h =
      go (build_vcc_hybrid_request primitives context (max_request_bytes_of options)) refl h
    where
      go :
          (step : Result RequestEnvelope)
          → build_vcc_hybrid_request primitives context (max_request_bytes_of options) ≡ step
          → elim step [
            | throw e ↦ ok (fallback primitives context (failure_of e) none)
            | ok request ↦ try_text primitives read_double context request (receive options request)
          ]
            ≡ ok result
          → IsFallback result ⊎ IsExchange result
      go (throw e) r h' = inl (failure_of e, none, sym (ok_inj h'))
      go (ok request) r h' =
          try_text_sound request (receive options request) result
            (build_vcc_hybrid_request-IsRequest primitives context _ request r) refl h'
