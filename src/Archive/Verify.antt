-- ===== src/Archive/Verify.antt =====
-- src/vcc-archive.ts: whether a handle is that of a payload (`verifyVccArchive`).
use opencode_better_compact.Base.{
  ℕ, ◌+◌, Bool, true, ◌&&◌, Option, none, some, List, leb, ltb, Text, codes, eq_text, Result, ok,
  throw, if◌then◌else◌,
}
use opencode_better_compact.Base.Verdict.{Verdict, because, passed, need, test, ◌>>=◌}
use opencode_better_compact.Base.Value.{Number, num, safe_natural}
use opencode_better_compact.Archive.{
  CreateInput, HandleParts, Verified, parse_vcc_archive_handle, validate_input, is_bytes,
  byte_count, digest_bytes, scope_digest_of, source_digest_of,
}

-- What throws is caught, for a reason.
unfoldable pub catch {ℓ} : {A : Type ℓ} → Result A → Text → Verdict A
catch (throw e) why = because why
catch (ok a) why = passed a

-- No bound, or a positive safe integer
unfoldable pub read_bound : Option Number → Option (Option ℕ)
read_bound none = some none
read_bound (some n) = elim (safe_natural (some (num n))) [
  | none ↦ none
  | some m ↦ if ltb 0 m then some (some m) else none
]

abbrev pub within : Option ℕ → ℕ → Bool
within none count = true
within (some bound) count = leb count bound

module _ (sha256 : Text → Text) (sha256_octets : List ℕ → Text) where
  -- The tests of the request, and its sizes.
  unfoldable pub check_request : CreateInput → Option Number → Verdict ℕ
  unfolding codes catch read_bound
  check_request input max_bytes = do
    _ ← catch (validate_input sha256 sha256_octets input) (codes "invalid_identity")
    _ ← test (is_bytes input.source_bytes && is_bytes input.payload_bytes) (codes "invalid_bytes")
    bound ← need (read_bound max_bytes) (codes "invalid_bound")
    source_count ← catch (byte_count input.source_bytes) (codes "invalid_bytes")
    payload_count ← catch (byte_count input.payload_bytes) (codes "invalid_bytes")
    _ ← test (within bound (source_count + payload_count)) (codes "oversized")
    passed payload_count

  -- The parts of the handle against those expected.
  unfoldable pub compare_parts : CreateInput → HandleParts → Verdict Text
  unfolding codes catch
  compare_parts input parts = do
    _ ← test (eq_text parts.host input.host) (codes "scope_mismatch")
    _ ←
        test (eq_text parts.scope_digest (scope_digest_of sha256 sha256_octets input))
          (codes "scope_mismatch")
    _ ←
        test (eq_text parts.source_digest (source_digest_of sha256 sha256_octets input))
          (codes "source_mismatch")
    payload_digest ←
        catch (digest_bytes sha256 sha256_octets input.payload_bytes) (codes "invalid_bytes")
    _ ← test (eq_text parts.payload_digest payload_digest) (codes "payload_mismatch")
    passed payload_digest

  unfoldable pub verify_vcc_archive : Text → CreateInput → Option Number → Verdict Verified
  unfolding codes check_request compare_parts
  verify_vcc_archive handle input max_bytes = do
    parts ← need (parse_vcc_archive_handle handle) (codes "malformed_handle")
    payload_byte_count ← check_request input max_bytes
    payload_digest ← compare_parts input parts
    passed (record {
      handle = handle;
      host = input.host;
      session_id = input.session_id;
      lineage_id = input.lineage_id;
      stable_source_id = input.stable_source_id;
      scope_digest = scope_digest_of sha256 sha256_octets input;
      source_digest = source_digest_of sha256 sha256_octets input;
      payload_digest = payload_digest;
      payload_bytes = input.payload_bytes;
      payload_byte_count = payload_byte_count;
    })
