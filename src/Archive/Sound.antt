-- ===== src/Archive/Sound.antt =====
-- src/vcc-archive.ts: what a verified handle shows (`verifyVccArchive`).
use opencode_better_compact.Base.{
  ◌≡◌, refl, subst, ℕ, ◌+◌, ◌≤◌, true, ◌&&◌, Option, none, some, List, leb→le, some_inj, Text,
  codes, eq_text, eq_text_iff, Result, ok, throw,
}
use opencode_better_compact.Base.Verdict.{
  passed, need, test, >>=-eq-passed, need-passed, test-passed, passed_inj,
}
use opencode_better_compact.Base.Value.{Number}
use opencode_better_compact.Archive.{
  CreateInput, HandleParts, Verified, parse_vcc_archive_handle, validate_input, is_bytes,
  byte_count, digest_bytes, scope_digest_of, source_digest_of,
}
use opencode_better_compact.Archive.Verify.{
  catch, read_bound, within, check_request, compare_parts, verify_vcc_archive,
}

catch-passed {ℓ} :
    {A : Type ℓ} (step : Result A) (why : Text) (a : A) → catch step why ≡ passed a → step ≡ ok a
unfolding catch
catch-passed (throw e) why a h = cc
catch-passed (ok b) why a h = cc

test-eq_text : (s t why : Text) {u : Unit {0}} → test (eq_text s t) why ≡ passed u → s ≡ t
test-eq_text s t why h = (eq_text_iff s t).0 (test-passed (eq_text s t) why h)

module _ (sha256 : Text → Text) (sha256_octets : List ℕ → Text) (input : CreateInput) where
  -- A request that passes its tests: its identities, its bytes, and its size under the bound.
  pub record IsRequest (max_bytes : Option Number) (payload_count : ℕ) : Type 0 where
    pub identified : validate_input sha256 sha256_octets input ≡ ok tt
    pub bound : Option ℕ
    pub bound_read : read_bound max_bytes ≡ some bound
    pub source_count : ℕ
    pub source_counted : byte_count input.source_bytes ≡ ok source_count
    pub payload_counted : byte_count input.payload_bytes ≡ ok payload_count
    pub fits : (limit : ℕ) → bound ≡ some limit → source_count + payload_count ≤ limit

  within-le :
      (bound : Option ℕ) (count limit : ℕ)
      → within bound count ≡ true
      → bound ≡ some limit
      → count ≤ limit
  within-le none count limit h e = cc
  within-le (some b) count limit h e = subst (λ n. count ≤ n) (some_inj e) (leb→le count b h)

  check_request-IsRequest :
      (max_bytes : Option Number) (payload_count : ℕ)
      → check_request sha256 sha256_octets input max_bytes ≡ passed payload_count
      → IsRequest max_bytes payload_count
  unfolding check_request
  check_request-IsRequest max_bytes payload_count h =
      let (_, identified, h1) =
        >>=-eq-passed (catch (validate_input sha256 sha256_octets input) (codes "invalid_identity"))
          h in
      let (_, _, h2) =
        >>=-eq-passed
          (test (is_bytes input.source_bytes && is_bytes input.payload_bytes)
            (codes "invalid_bytes"))
          h1 in
      let (bound, b, h3) = >>=-eq-passed (need (read_bound max_bytes) (codes "invalid_bound")) h2 in
      let (source, s, h4) =
        >>=-eq-passed (catch (byte_count input.source_bytes) (codes "invalid_bytes")) h3 in
      let (payload, p, h5) =
        >>=-eq-passed (catch (byte_count input.payload_bytes) (codes "invalid_bytes")) h4 in
      let (_, fits, h6) =
        >>=-eq-passed (test (within bound (source + payload)) (codes "oversized")) h5 in
      subst (IsRequest max_bytes) (passed_inj h6) (record {
        identified = catch-passed _ _ tt identified;
        bound = bound;
        bound_read = need-passed (read_bound max_bytes) _ bound b;
        source_count = source;
        source_counted = catch-passed (byte_count input.source_bytes) _ source s;
        payload_counted = catch-passed (byte_count input.payload_bytes) _ payload p;
        fits = λ limit e. within-le bound (source + payload) limit (test-passed _ _ fits) e;
      })

  -- The handle's parts are those of the input.
  pub record IsMatch (parts : HandleParts) (payload_digest : Text) : Type 0 where
    pub host : parts.host ≡ input.host
    pub scope : parts.scope_digest ≡ scope_digest_of sha256 sha256_octets input
    pub source : parts.source_digest ≡ source_digest_of sha256 sha256_octets input
    pub payload : digest_bytes sha256 sha256_octets input.payload_bytes ≡ ok payload_digest
    pub same_payload : parts.payload_digest ≡ payload_digest

  compare_parts-IsMatch :
      (parts : HandleParts) (payload_digest : Text)
      → compare_parts sha256 sha256_octets input parts ≡ passed payload_digest
      → IsMatch parts payload_digest
  unfolding compare_parts
  compare_parts-IsMatch parts payload_digest h =
      let scope = scope_digest_of sha256 sha256_octets input in
      let source = source_digest_of sha256 sha256_octets input in
      let (_, a, h1) =
        >>=-eq-passed (test (eq_text parts.host input.host) (codes "scope_mismatch")) h in
      let (_, b, h2) =
        >>=-eq-passed (test (eq_text parts.scope_digest scope) (codes "scope_mismatch")) h1 in
      let (_, c, h3) =
        >>=-eq-passed (test (eq_text parts.source_digest source) (codes "source_mismatch")) h2 in
      let (digest, d, h4) =
        >>=-eq-passed
          (catch (digest_bytes sha256 sha256_octets input.payload_bytes) (codes "invalid_bytes"))
          h3 in
      let (_, e, h5) =
        >>=-eq-passed (test (eq_text parts.payload_digest digest) (codes "payload_mismatch")) h4 in
      subst (IsMatch parts) (passed_inj h5) (record {
        host = test-eq_text parts.host input.host _ a;
        scope = test-eq_text parts.scope_digest scope _ b;
        source = test-eq_text parts.source_digest source _ c;
        payload = catch-passed _ _ digest d;
        same_payload = test-eq_text parts.payload_digest digest _ e;
      })

  pub record IsVerified (handle : Text) (max_bytes : Option Number) (verified : Verified)
      : Type 0 where
    pub parts : HandleParts
    pub parsed : parse_vcc_archive_handle handle ≡ some parts
    pub request : IsRequest max_bytes verified.payload_byte_count
    pub matched : IsMatch parts verified.payload_digest
    pub same_handle : verified.handle ≡ handle
    pub same_bytes : verified.payload_bytes ≡ input.payload_bytes

  -- A handle is verified only where it is well formed, its digests are those of the host, session,
  -- lineage, source and payload at hand, and the bytes are within the bound.
  pub verify_vcc_archive-IsVerified :
      (handle : Text) (max_bytes : Option Number) (verified : Verified)
      → verify_vcc_archive sha256 sha256_octets handle input max_bytes ≡ passed verified
      → IsVerified handle max_bytes verified
  unfolding verify_vcc_archive
  verify_vcc_archive-IsVerified handle max_bytes verified h =
      let (parts, p, h1) =
        >>=-eq-passed (need (parse_vcc_archive_handle handle) (codes "malformed_handle")) h in
      let (count, r, h2) = >>=-eq-passed (check_request sha256 sha256_octets input max_bytes) h1 in
      let (digest, m, h3) = >>=-eq-passed (compare_parts sha256 sha256_octets input parts) h2 in
      subst (IsVerified handle max_bytes) (passed_inj h3) (record {
        parts = parts;
        parsed = need-passed (parse_vcc_archive_handle handle) _ parts p;
        request = check_request-IsRequest max_bytes count r;
        matched = compare_parts-IsMatch parts digest m;
        same_handle = refl;
        same_bytes = refl;
      })
