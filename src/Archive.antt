-- ===== src/Archive.antt =====
-- src/vcc-archive.ts: handles of archived sources (`createVccArchiveHandle`, `parseVccArchiveHandle`,
-- `verifyVccArchive`).
pub mod Verify
pub mod Sound
pub mod RoundTrip
pub mod Scope
mod Tests
use opencode_better_compact.Base.{
  ℕ, ◌+◌, Bool, true, false, not, ◌&&◌, ◌||◌, Option, none, some, List, [], ◌∷◌, ◌++◌, length, leb,
  ltb, Text, codes, eq_text, includes, member, is_empty, Result, ok, throw, type_error, ◌>>=◌, ◌>>◌,
  reject_if, if◌then◌else◌,
}
use opencode_better_compact.Base.Verdict
use opencode_better_compact.Base.Value.{Number, num, safe_natural}
use opencode_better_compact.Utf8.{utf8_bytes}
use opencode_better_compact.Vcc.Event.Ids.{vcc_hosts, colon_parts, is_hex64, canonical_event_id}
use opencode_better_compact.Vcc.Patch.{or_else}

-- A string, an array of octets, or a value of another type.
pub data ArchiveBytes : Type 0 where
  text : Text → ArchiveBytes
  octets : List ℕ → ArchiveBytes
  neither : ArchiveBytes

pub record CreateInput : Type 0 where
  pub host : Text
  pub session_id : Text
  pub lineage_id : Text
  pub stable_source_id : Text
  pub canonical_source_kind : Option Text
  pub stable_source_identity : Option Text
  pub source_bytes : ArchiveBytes
  pub payload_bytes : ArchiveBytes

pub record HandleMetadata : Type 0 where
  pub handle : Text
  pub host : Text
  pub session_id : Text
  pub lineage_id : Text
  pub stable_source_id : Text
  pub canonical_source_kind : Text
  pub stable_source_identity : Text
  pub scope_digest : Text
  pub source_digest : Text
  pub payload_digest : Text
  pub source_byte_count : ℕ
  pub payload_byte_count : ℕ

pub record HandleParts : Type 0 where
  pub host : Text
  pub scope_digest : Text
  pub source_digest : Text
  pub payload_digest : Text

pub record Verified : Type 0 where
  pub handle : Text
  pub host : Text
  pub session_id : Text
  pub lineage_id : Text
  pub stable_source_id : Text
  pub scope_digest : Text
  pub source_digest : Text
  pub payload_digest : Text
  pub payload_bytes : ArchiveBytes
  pub payload_byte_count : ℕ

-- `requireBoundedText`
unfoldable pub require_bounded_text : Text → Result (Unit {0})
require_bounded_text value =
    reject_if (is_empty value || includes value (0 ∷ []) || ltb 4096 (utf8_bytes value)) type_error

unfoldable pub validate_identity : Text → Text → Text → Text → Result (Unit {0})
validate_identity host session_id lineage_id stable_source_id = do
  _ ← canonical_event_id host stable_source_id
  require_bounded_text session_id
  require_bounded_text lineage_id

unfoldable pub validate_source_identity : Text → Text → Result (Unit {0})
validate_source_identity canonical_source_kind stable_source_identity = do
  require_bounded_text canonical_source_kind
  require_bounded_text stable_source_identity

-- Identities between zero units
abbrev pub scope_text : Text → Text → Text → Text
scope_text host session_id lineage_id =
    codes "vcc-scope-v1" ++ (0 ∷ (host ++ (0 ∷ (session_id ++ (0 ∷ lineage_id)))))

abbrev pub source_text : Text → Text → Text
source_text canonical_source_kind stable_source_identity =
    codes "vcc-source-v1" ++ (0 ∷ (canonical_source_kind ++ (0 ∷ stable_source_identity)))

unfoldable pub byte_count : ArchiveBytes → Result ℕ
byte_count (text t) = ok (utf8_bytes t)
byte_count (octets bytes) = ok (length bytes)
byte_count neither = throw type_error

abbrev pub is_bytes : ArchiveBytes → Bool
is_bytes (text t) = true
is_bytes (octets bytes) = true
is_bytes neither = false

abbrev pub colon : Text → Text → Text
colon left right = left ++ (b':' ∷ right)

abbrev pub handle_of : Text → Text → Text → Text → Text
handle_of host scope source payload =
    colon (codes "archive") (colon (codes "v1") (colon host (colon scope (colon source payload))))

abbrev pub handle_parts : List Text → Option HandleParts
handle_parts (prefix ∷ version ∷ host ∷ scope ∷ source ∷ payload ∷ []) =
    if eq_text prefix (codes "archive")
      && eq_text version (codes "v1")
      && member host vcc_hosts
      && is_hex64 scope
      && is_hex64 source
      && is_hex64 payload
    then some (record {
      host = host;
      scope_digest = scope;
      source_digest = source;
      payload_digest = payload;
    })
    else none
handle_parts _ = none

-- The parts that the expression matches hold no colon.
unfoldable pub parse_vcc_archive_handle : Text → Option HandleParts
unfolding colon_parts
parse_vcc_archive_handle handle = handle_parts (colon_parts handle)

abbrev pub kind_of : CreateInput → Text
kind_of input = or_else input.canonical_source_kind (codes "event")

abbrev pub identity_of : CreateInput → Text
identity_of input = or_else input.stable_source_identity input.stable_source_id

-- The digests of texts and of octets are not of this code.
module _ (sha256 : Text → Text) (sha256_octets : List ℕ → Text) where
  unfoldable pub digest_bytes : ArchiveBytes → Result Text
  digest_bytes (text t) = ok (sha256 t)
  digest_bytes (octets bytes) = ok (sha256_octets bytes)
  digest_bytes neither = throw type_error

  abbrev pub scope_digest_of : CreateInput → Text
  scope_digest_of input = sha256 (scope_text input.host input.session_id input.lineage_id)

  abbrev pub source_digest_of : CreateInput → Text
  source_digest_of input = sha256 (source_text (kind_of input) (identity_of input))

  -- The tests, in the order of the code.
  unfoldable pub validate_input : CreateInput → Result (Unit {0})
  unfolding validate_identity validate_source_identity
  validate_input input = do
    validate_identity input.host input.session_id input.lineage_id input.stable_source_id
    validate_source_identity (kind_of input) (identity_of input)

  unfoldable pub create_vcc_archive_handle : CreateInput → Result HandleMetadata
  unfolding codes validate_input digest_bytes byte_count
  create_vcc_archive_handle input = do
    validate_input input
    payload_digest ← digest_bytes input.payload_bytes
    source_byte_count ← byte_count input.source_bytes
    payload_byte_count ← byte_count input.payload_bytes
    ok (record {
      handle = handle_of input.host (scope_digest_of input) (source_digest_of input) payload_digest;
      host = input.host;
      session_id = input.session_id;
      lineage_id = input.lineage_id;
      stable_source_id = input.stable_source_id;
      canonical_source_kind = kind_of input;
      stable_source_identity = identity_of input;
      scope_digest = scope_digest_of input;
      source_digest = source_digest_of input;
      payload_digest = payload_digest;
      source_byte_count = source_byte_count;
      payload_byte_count = payload_byte_count;
    })
