-- ===== src/Hybrid/Tests.antt =====
-- src/vcc-hybrid.ts: an exchange about a small candidate.
use opencode_better_compact.Base.{
  ◌≡◌, refl, ap, ◌∙◌, ◌⊎◌, none, some, [], codes, eq_text, Result, ok, throw, false,
}
use opencode_better_compact.Base.Sort.{sort, insert}
use opencode_better_compact.Base.Verdict.{passed}
use opencode_better_compact.Base.Value.{str, Number, int, join, safe_natural}
use opencode_better_compact.Utf8.{utf8_bytes}
use opencode_better_compact.Vcc.Order.{compare_code_points}
use opencode_better_compact.Vcc.Serialize.{canonical_serialize}
use opencode_better_compact.Vcc.Patch.Tests.{
  constant_digest, no_double, small_context, patch_text, patched, patch_is_rehearsed,
}
use opencode_better_compact.Hybrid.{
  RequestEnvelope, HybridResult, answered, HybridOptions, positive_limit, require_positive_limit,
  validate_candidate, build_vcc_hybrid_request,
}
use opencode_better_compact.Hybrid.Exchange.{
  receive, try_text, accepted_result, request_vcc_hybrid_patch,
}
use opencode_better_compact.Hybrid.Outcome.{
  IsFallback, IsExchange, IsRequest, build_vcc_hybrid_request-IsRequest,
  request_vcc_hybrid_patch-IsExchange,
}

abbrev value_of {ℓ} : {A : Type ℓ} → A → Result A → A
value_of other (ok a) = a
value_of other (throw e) = other

abbrev no_request : RequestEnvelope
no_request = record { bytes = []; digest = []; base_digest = [] }

abbrev small_limit : Number
small_limit = int false 2097152

abbrev small_options : HybridOptions
small_options = record {
  request_patch = some (λ request. answered false (some (str patch_text)));
  is_aborted = false;
  max_request_bytes = none;
  max_response_bytes = none;
}

abbrev small_request : RequestEnvelope
small_request =
    value_of no_request (build_vcc_hybrid_request constant_digest small_context small_limit)

request_is_built :
    build_vcc_hybrid_request constant_digest small_context small_limit ≡ ok small_request
unfolding build_vcc_hybrid_request codes validate_candidate require_positive_limit safe_natural
    eq_text utf8_bytes canonical_serialize sort insert join compare_code_points
request_is_built = refl

small_is_request : IsRequest constant_digest small_context small_limit small_request
small_is_request =
    build_vcc_hybrid_request-IsRequest constant_digest small_context small_limit small_request
      request_is_built

abbrev small_result : HybridResult
small_result = accepted_result small_request patched

text_is_received : receive small_options small_request ≡ passed patch_text
unfolding receive positive_limit safe_natural utf8_bytes codes
text_is_received = refl

small_exchange :
    request_vcc_hybrid_patch constant_digest no_double small_context small_options ≡ ok small_result
unfolding request_vcc_hybrid_patch try_text
small_exchange =
    rw (request_is_built, request_vcc_hybrid_patch)
      (ap (try_text constant_digest no_double small_context small_request) text_is_received
        ∙ rw (patch_is_rehearsed, try_text))

request_vcc_hybrid_patch-IsExchange_example :
    IsFallback constant_digest no_double small_context small_options small_result
    ⊎ IsExchange constant_digest no_double small_context small_options small_result
request_vcc_hybrid_patch-IsExchange_example =
    request_vcc_hybrid_patch-IsExchange constant_digest no_double small_context small_options
      small_result small_exchange
