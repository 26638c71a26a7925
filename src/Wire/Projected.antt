-- ===== src/Wire/Projected.antt =====
-- src/vcc-wire.ts: a projection that is rendered is read back (`renderVccProjection`,
-- `parseVccProjection`).
use opencode_better_compact.Base.{
  ◌≡◌, ap, sym, ◌∙◌, true, ◌&&◌, &&-eq-true, ◌++◌, Text, codes, Option, some, none,
}
use opencode_better_compact.State.VccAttempt.{is_digest}
use opencode_better_compact.Vcc.Serialize.{quote}
use opencode_better_compact.Wire.{
  Projection, bounded, projection_max_bytes, projection_head, projection_index, projection_archive,
  projection_candidate, projection_patch, projection_tail, projection_block, quote_or_null,
  is_digest_or_null, has_digests, render_vcc_projection,
}
use opencode_better_compact.Wire.Pattern.{
  literal, nullable_digest, match_source, parse_vcc_projection,
}
use opencode_better_compact.Wire.Plain.{quote-word, is_digest-word}
use opencode_better_compact.Wire.RoundTrip.{
  literal-append, literal_self, quoted_digest-quote, bounded-eq, if-some,
}

literal_null-quote :
    (d s : Text) → is_digest d ≡ true → literal (codes "null") (quote d ++ s) ≡ none
unfolding literal codes
literal_null-quote d s h = ap (literal (codes "null")) (quote-word d s (is_digest-word d h))

nullable_digest-quote :
    (d : Option Text) (s : Text)
    → is_digest_or_null d ≡ true
    → nullable_digest (quote_or_null d ++ s) ≡ some (d, s)
unfolding nullable_digest
nullable_digest-quote none s h = rw (literal-append (codes "null") s, nullable_digest)
nullable_digest-quote (some d) s h =
    rw (literal_null-quote d s h, nullable_digest, quoted_digest-quote d s h)

module _ (p : Projection) where
  abbrev after_candidate : Text
  after_candidate = projection_patch ++ (quote_or_null p.patch_digest ++ projection_tail)

  abbrev after_archive : Text
  after_archive = projection_candidate ++ (quote p.candidate_digest ++ after_candidate)

  abbrev from_archive : Text
  from_archive = quote p.archive_manifest_digest ++ after_archive

  match_source-here :
      is_digest p.source_manifest_digest ≡ true
      → is_digest p.source_index_digest ≡ true
      → match_source (projection_block p)
        ≡ some (p.source_manifest_digest, p.source_index_digest, from_archive)
  unfolding match_source projection_block
  match_source-here m i =
      let after_index = projection_archive ++ from_archive in
      let after_manifest = projection_index ++ (quote p.source_index_digest ++ after_index) in
      rw (
        literal-append projection_head (quote p.source_manifest_digest ++ after_manifest),
        match_source,
        quoted_digest-quote p.source_manifest_digest after_manifest m,
        literal-append projection_index (quote p.source_index_digest ++ after_index),
        quoted_digest-quote p.source_index_digest after_index i,
        literal-append projection_archive from_archive,
      )

-- A projection that is rendered is read back from its block.
pub parse-render_vcc_projection :
    (p : Projection) (block : Text)
    → render_vcc_projection p ≡ some block
    → parse_vcc_projection block ≡ some p
unfolding render_vcc_projection parse_vcc_projection
parse-render_vcc_projection p block h =
    let (valid, h1) =
      if-some (has_digests p) (bounded projection_max_bytes (projection_block p)) block h in
    let (fits, same) = bounded-eq projection_max_bytes (projection_block p) block h1 in
    let manifest = p.source_manifest_digest in
    let index = p.source_index_digest in
    let archive = p.archive_manifest_digest in
    let (h2, patch) =
      &&-eq-true
        (is_digest manifest && is_digest index && is_digest archive && is_digest p.candidate_digest)
        (is_digest_or_null p.patch_digest) valid in
    let (h3, candidate) =
      &&-eq-true (is_digest manifest && is_digest index && is_digest archive)
        (is_digest p.candidate_digest) h2 in
    let (h4, archived) =
      &&-eq-true (is_digest manifest && is_digest index) (is_digest archive) h3 in
    let (manifested, indexed) = &&-eq-true (is_digest manifest) (is_digest index) h4 in
    rw (
      fits,
      ap match_source (sym same) ∙ match_source-here p manifested indexed,
      quoted_digest-quote archive (after_archive p) archived,
      literal-append projection_candidate (quote p.candidate_digest ++ after_candidate p),
      quoted_digest-quote p.candidate_digest (after_candidate p) candidate,
      literal-append projection_patch (quote_or_null p.patch_digest ++ projection_tail),
      nullable_digest-quote p.patch_digest projection_tail patch,
      literal_self projection_tail,
    )
