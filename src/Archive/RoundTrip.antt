-- ===== src/Archive/RoundTrip.antt =====
-- src/vcc-archive.ts: a handle that is created is verified (`createVccArchiveHandle`,
-- `verifyVccArchive`).
use opencode_better_compact.Base.{
  ◌≡◌, refl, subst, sym, ◌∙◌, ap, ℕ, ◌==◌, ◌&&◌, ◌||◌, &&-eq-true, Bool-cases, inl, inr, Bool, true,
  false, not, none, some, List, [], ◌∷◌, all, length, leb, Text, codes, eq_text, eq_text_iff,
  eq_text_refl, member, ok, type_error, reject_if-ok, >>-eq-ok, >>=-eq-ok, ok_inj, arith,
}
use opencode_better_compact.Base.Verdict.{passed}
use opencode_better_compact.Vcc.Event.Ids.{
  canonical_event_id, require_host, vcc_hosts, colon_parts, is_hex64, is_digit,
}
use opencode_better_compact.Archive.{
  ArchiveBytes, text, octets, neither, CreateInput, HandleMetadata, HandleParts, Verified, colon,
  handle_of, handle_parts, parse_vcc_archive_handle, validate_identity, validate_input, is_bytes,
  byte_count, digest_bytes, scope_digest_of, source_digest_of, create_vcc_archive_handle,
}
use opencode_better_compact.Archive.Verify.{
  catch, read_bound, check_request, compare_parts, verify_vcc_archive,
}

abbrev pub has_no_colon : Text → Bool
has_no_colon part = all (λ c. not (c == b':')) part

colon_parts-colon :
    (part rest : Text)
    → has_no_colon part ≡ true
    → colon_parts (colon part rest) ≡ part ∷ colon_parts rest
unfolding colon_parts
colon_parts-colon [] rest h = refl
colon_parts-colon (c ∷ part) rest h =
    let (here, later) = &&-eq-true (not (c == b':')) (has_no_colon part) h in
    let other : (c == b':') ≡ false = ground (arith, here) in
    rw (other, colon_parts-colon part rest later)

colon_parts-one : (part : Text) → has_no_colon part ≡ true → colon_parts part ≡ part ∷ []
unfolding colon_parts
colon_parts-one [] h = refl
colon_parts-one (c ∷ part) h =
    let (here, later) = &&-eq-true (not (c == b':')) (has_no_colon part) h in
    let other : (c == b':') ≡ false = ground (arith, here) in rw (other, colon_parts-one part later)

all_hex-has_no_colon :
    (t : Text) → all (λ c. is_digit c || leb b'a' c && leb c b'f') t ≡ true → has_no_colon t ≡ true
all_hex-has_no_colon [] h = refl
all_hex-has_no_colon (c ∷ t) h =
    let (here, later) =
      &&-eq-true (is_digit c || leb b'a' c && leb c b'f')
        (all (λ d. is_digit d || leb b'a' d && leb d b'f') t) h in
    let rest = all_hex-has_no_colon t later in ground (arith, here, rest)

is_hex64-has_no_colon : (t : Text) → is_hex64 t ≡ true → has_no_colon t ≡ true
is_hex64-has_no_colon t h =
    let (_, hex) =
      &&-eq-true (length t == 64) (all (λ c. is_digit c || leb b'a' c && leb c b'f') t) h in
    all_hex-has_no_colon t hex

archive_has_none : has_no_colon (codes "archive") ≡ true
unfolding codes
archive_has_none = refl

version_has_none : has_no_colon (codes "v1") ≡ true
unfolding codes
version_has_none = refl

host-has_no_colon : (host : Text) → member host vcc_hosts ≡ true → has_no_colon host ≡ true
unfolding member codes
host-has_no_colon host h = elim (Bool-cases (eq_text host (codes "pi"))) [
  | inl e ↦ subst (λ t. has_no_colon t ≡ true) (sym ((eq_text_iff host (codes "pi")).0 e)) refl
  | inr e ↦ elim (Bool-cases (eq_text host (codes "opencode-v1"))) [
    | inl e' ↦
        subst (λ t. has_no_colon t ≡ true) (sym ((eq_text_iff host (codes "opencode-v1")).0 e'))
          refl
    | inr e' ↦ absurd (ground (arith, e, e', h))
  ]
]

abbrev parts_of : Text → Text → Text → Text → HandleParts
parts_of host scope source payload = record {
  host = host;
  scope_digest = scope;
  source_digest = source;
  payload_digest = payload;
}

-- The parts of a handle are those that it was made of.
pub parse_vcc_archive_handle-handle_of :
    (host scope source payload : Text)
    → member host vcc_hosts ≡ true
    → is_hex64 scope ≡ true
    → is_hex64 source ≡ true
    → is_hex64 payload ≡ true
    → parse_vcc_archive_handle (handle_of host scope source payload)
      ≡ some (parts_of host scope source payload)
unfolding parse_vcc_archive_handle
parse_vcc_archive_handle-handle_of host scope source payload h s o p =
    ap handle_parts (
      colon_parts-colon (codes "archive") _ archive_has_none
      ∙ ap (λ l. codes "archive" ∷ l)
          (colon_parts-colon (codes "v1") _ version_has_none
            ∙ ap (λ l. codes "v1" ∷ l)
                (colon_parts-colon host _ (host-has_no_colon host h)
                  ∙ ap (λ l. host ∷ l)
                      (colon_parts-colon scope _ (is_hex64-has_no_colon scope s)
                        ∙ ap (λ l. scope ∷ l)
                            (colon_parts-colon source payload (is_hex64-has_no_colon source o)
                              ∙ ap (λ l. source ∷ l)
                                  (colon_parts-one payload (is_hex64-has_no_colon payload p)))))))
    ∙ rw (eq_text_refl (codes "archive"), eq_text_refl (codes "v1"), h, s, o, p)

is_bytes-count : (b : ArchiveBytes) (n : ℕ) → byte_count b ≡ ok n → is_bytes b ≡ true
unfolding byte_count
is_bytes-count (text t) n h = refl
is_bytes-count (octets bytes) n h = refl
is_bytes-count neither n h = cc

validate_identity-host :
    (host session_id lineage_id stable_source_id : Text)
    → validate_identity host session_id lineage_id stable_source_id ≡ ok tt
    → member host vcc_hosts ≡ true
unfolding validate_identity canonical_event_id require_host
validate_identity-host host session_id lineage_id stable_source_id h =
    let (id, canonical, _) = >>=-eq-ok (canonical_event_id host stable_source_id) h in
    let (valid, _) = >>-eq-ok (require_host host) canonical in
    ground (arith, reject_if-ok (not (member host vcc_hosts)) type_error valid)

module _ (sha256 : Text → Text) (sha256_octets : List ℕ → Text) (input : CreateInput) where
  -- What a handle is made of.
  pub record IsCreated (metadata : HandleMetadata) : Type 0 where
    pub valid : validate_input sha256 sha256_octets input ≡ ok tt
    pub payload : digest_bytes sha256 sha256_octets input.payload_bytes ≡ ok metadata.payload_digest
    pub source_counted : byte_count input.source_bytes ≡ ok metadata.source_byte_count
    pub payload_counted : byte_count input.payload_bytes ≡ ok metadata.payload_byte_count
    pub made :
        metadata.handle
        ≡ handle_of input.host
            (scope_digest_of sha256 sha256_octets input)
            (source_digest_of sha256 sha256_octets input)
            metadata.payload_digest

  create_vcc_archive_handle-IsCreated :
      (metadata : HandleMetadata)
      → create_vcc_archive_handle sha256 sha256_octets input ≡ ok metadata
      → IsCreated metadata
  unfolding create_vcc_archive_handle
  create_vcc_archive_handle-IsCreated metadata h =
      let (valid, h1) = >>-eq-ok (validate_input sha256 sha256_octets input) h in
      let (digest, d, h2) = >>=-eq-ok (digest_bytes sha256 sha256_octets input.payload_bytes) h1 in
      let (source, s, h3) = >>=-eq-ok (byte_count input.source_bytes) h2 in
      let (payload, p, h4) = >>=-eq-ok (byte_count input.payload_bytes) h3 in
      subst IsCreated (ok_inj h4) (record {
        valid = valid;
        payload = d;
        source_counted = s;
        payload_counted = p;
        made = refl;
      })

  host_of_valid :
      validate_input sha256 sha256_octets input ≡ ok tt → member input.host vcc_hosts ≡ true
  unfolding validate_input
  host_of_valid h =
      let (identity, _) =
        >>-eq-ok
          (validate_identity input.host input.session_id input.lineage_id input.stable_source_id)
          h in
      validate_identity-host input.host input.session_id input.lineage_id input.stable_source_id
        identity

  check_request_passes :
      (metadata : HandleMetadata)
      → IsCreated metadata
      → check_request sha256 sha256_octets input none ≡ passed metadata.payload_byte_count
  unfolding check_request catch read_bound
  check_request_passes metadata c = rw (
    c.valid,
    check_request,
    is_bytes-count input.source_bytes metadata.source_byte_count c.source_counted,
    is_bytes-count input.payload_bytes metadata.payload_byte_count c.payload_counted,
    c.source_counted,
    c.payload_counted,
  )

  compare_parts_passes :
      (digest : Text)
      → digest_bytes sha256 sha256_octets input.payload_bytes ≡ ok digest
      → compare_parts sha256 sha256_octets input (
          parts_of input.host
            (scope_digest_of sha256 sha256_octets input)
            (source_digest_of sha256 sha256_octets input)
            digest)
        ≡ passed digest
  unfolding compare_parts catch
  compare_parts_passes digest d = rw (
    eq_text_refl input.host,
    compare_parts,
    eq_text_refl (scope_digest_of sha256 sha256_octets input),
    eq_text_refl (source_digest_of sha256 sha256_octets input),
    d,
    eq_text_refl digest,
  )

  -- The verification that a handle's creator would see.
  abbrev pub expected : HandleMetadata → Verified
  expected metadata = record {
    handle = metadata.handle;
    host = input.host;
    session_id = input.session_id;
    lineage_id = input.lineage_id;
    stable_source_id = input.stable_source_id;
    scope_digest = scope_digest_of sha256 sha256_octets input;
    source_digest = source_digest_of sha256 sha256_octets input;
    payload_digest = metadata.payload_digest;
    payload_bytes = input.payload_bytes;
    payload_byte_count = metadata.payload_byte_count;
  }

  digest_hex :
      ((t : Text) → is_hex64 (sha256 t) ≡ true)
      → ((bytes : List ℕ) → is_hex64 (sha256_octets bytes) ≡ true)
      → (b : ArchiveBytes) (digest : Text) → digest_bytes sha256 sha256_octets b ≡ ok digest
      → is_hex64 digest ≡ true
  unfolding digest_bytes
  digest_hex text_hex octets_hex (text t) digest e =
      subst (λ d. is_hex64 d ≡ true) (ok_inj e) (text_hex t)
  digest_hex text_hex octets_hex (octets bytes) digest e =
      subst (λ d. is_hex64 d ≡ true) (ok_inj e) (octets_hex bytes)
  digest_hex text_hex octets_hex neither digest e = cc

  -- A handle that is created is verified for the input that it was created of, with no bound on its
  -- bytes, provided that digests are 64 hexadecimal digits.
  pub verify_vcc_archive-create :
      (metadata : HandleMetadata)
      → ((t : Text) → is_hex64 (sha256 t) ≡ true)
      → ((bytes : List ℕ) → is_hex64 (sha256_octets bytes) ≡ true)
      → create_vcc_archive_handle sha256 sha256_octets input ≡ ok metadata
      → verify_vcc_archive sha256 sha256_octets metadata.handle input none
        ≡ passed (expected metadata)
  unfolding verify_vcc_archive
  verify_vcc_archive-create metadata text_hex octets_hex h =
      let c = create_vcc_archive_handle-IsCreated metadata h in
      let scope = scope_digest_of sha256 sha256_octets input in
      let source = source_digest_of sha256 sha256_octets input in
      let parsed : parse_vcc_archive_handle metadata.handle
          ≡ some (parts_of input.host scope source metadata.payload_digest) =
        ap parse_vcc_archive_handle c.made
        ∙ parse_vcc_archive_handle-handle_of input.host scope source metadata.payload_digest
            (host_of_valid c.valid) (text_hex _) (text_hex _)
            (digest_hex text_hex octets_hex input.payload_bytes metadata.payload_digest
              c.payload) in
      rw (
        parsed,
        verify_vcc_archive,
        check_request_passes metadata c,
        compare_parts_passes metadata.payload_digest c.payload,
      )
