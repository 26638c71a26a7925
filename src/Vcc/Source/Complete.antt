-- ===== src/Vcc/Source/Complete.antt =====
-- src/vcc.ts: when a manifest tells that its source is complete, who accepts it, and what its digest
-- covers.
use opencode_better_compact.Base.{
  ℕ, ◌≡◌, refl, ap, sym, ◌∙◌, ◌↔◌, subst, Bool, true, false, not, ◌&&◌, Option, none, [], arith,
  Text, eq_text_refl, is_some, ok, throw, plain_error, >>=-eq-ok, >>-eq-ok, Bool-cases, inl, inr,
}
use opencode_better_compact.Base.Sort.{sort}
use opencode_better_compact.Vcc.Reason.{SourceIncompleteReason}
use opencode_better_compact.Vcc.Event.{Primitives, compare_events}
use opencode_better_compact.Vcc.Event.Ids.{require_host, require_non_empty}
use opencode_better_compact.Vcc.Source.{
  SourceInput, SourceCompleteness, is_terminal, initial_reason, scan, check_reason, check_count,
  count_bytes, manifest_of, stable_identity, source_completeness_digest, build_source_completeness,
  assert_complete_source,
}
use opencode_better_compact.Vcc.Source.Laws.{IsWhole, scan_sorted_iff}

check_reason-none : (r : Option Text) → check_reason r ≡ ok none → r ≡ none
unfolding check_reason
check_reason-none r h = ground arith

check_reason-given :
    (r : Option Text) (given : Option SourceIncompleteReason)
    → check_reason r ≡ ok given
    → r ≡ none
    → given ≡ none
unfolding check_reason
check_reason-given r given h e = ground arith

-- The reason that a source's events and cursor give.
abbrev pub found : SourceInput → Option SourceIncompleteReason → Option SourceIncompleteReason
found input given =
    scan input [] (initial_reason given input.terminal_cursor) (sort compare_events input.events)

module _ (primitives : Primitives) where
  -- How a manifest was built.
  pub record IsBuilt (input : SourceInput) (m : SourceCompleteness) : Type 0 where
    pub given : Option SourceIncompleteReason
    pub page_count : Option ℕ
    pub bytes : ℕ
    pub digest : Text
    pub checked : check_reason input.reason ≡ ok given
    pub made :
        record (manifest_of input
          (sort compare_events input.events)
          (found input given)
          page_count
          bytes) { digest = digest }
        ≡ m
    pub digested :
        source_completeness_digest primitives (
          manifest_of input (sort compare_events input.events) (found input given) page_count bytes)
        ≡ ok digest

  pub build-IsBuilt :
      (input : SourceInput) (m : SourceCompleteness)
      → build_source_completeness primitives input ≡ ok m
      → IsBuilt input m
  unfolding build_source_completeness
  build-IsBuilt input m h =
      let (_, h1) = >>-eq-ok (require_host input.host) h in
      let (_, h2) = >>-eq-ok (require_non_empty input.session_id) h1 in
      let (_, h3) = >>-eq-ok (require_non_empty input.lineage_id) h2 in
      let (given, checked, h4) = >>=-eq-ok (check_reason input.reason) h3 in
      let (page_count, _, h5) = >>=-eq-ok (check_count input.page_count) h4 in
      let (byte_count, _, h6) = >>=-eq-ok (check_count input.byte_count) h5 in
      let events = sort compare_events input.events in
      let (bytes, _, h7) = >>=-eq-ok (count_bytes primitives byte_count events) h6 in
      let (digest, digested, h8) =
        >>=-eq-ok
          (source_completeness_digest primitives
            (manifest_of input events (found input given) page_count bytes))
          h7 in
      record {
        given = given;
        page_count = page_count;
        bytes = bytes;
        digest = digest;
        checked = checked;
        made = ok_inj h8;
        digested = digested;
      }
    where
      ok_inj : {a b : SourceCompleteness} → ok a ≡ ok b → a ≡ b
      ok_inj e = cc

  no_reason :
      (r : Option SourceIncompleteReason) (b : Bool)
      → (not (is_some r) && b) ≡ true
      → (r ≡ none) × (b ≡ true)
  no_reason r b h = ground arith

  -- A manifest tells that its source is complete exactly when no reason against it is given, the last
  -- page was reached, every event is of the source's host, session and lineage, and no identity
  -- occurs twice.
  pub build_source_completeness-IsWhole :
      (input : SourceInput) (m : SourceCompleteness)
      → build_source_completeness primitives input ≡ ok m
      → (m.complete ≡ true) ↔ IsWhole input
  build_source_completeness-IsWhole input m h = (to, from)
    where
      built : IsBuilt input m
      built = build-IsBuilt input m h

      same :
          (not (is_some (found input built.given)) && is_terminal input.terminal_cursor)
          ≡ m.complete
      same = ap (λ x. x.complete) built.made

      to : m.complete ≡ true → IsWhole input
      to c =
          let (clear, end) =
            no_reason (found input built.given) (is_terminal input.terminal_cursor) (same ∙ c) in
          let (none_given, at_end, scoped, nodup) = (scan_sorted_iff input built.given).0 clear in
          record {
            no_reason = check_reason-none input.reason (built.checked ∙ ap (λ r. ok r) none_given);
            at_end = at_end;
            scoped = scoped;
            nodup = nodup;
          }

      from : IsWhole input → m.complete ≡ true
      from w =
          let none_given = check_reason-given input.reason built.given built.checked w.no_reason in
          let clear : found input built.given ≡ none =
            (scan_sorted_iff input built.given).1 (none_given, w.at_end, w.scoped, w.nodup) in
          sym same ∙ rw (clear, w.at_end)

  digest_of_built :
      (m : SourceCompleteness) (digest : Text)
      → source_completeness_digest primitives (record m { digest = digest })
        ≡ source_completeness_digest primitives m
  unfolding source_completeness_digest stable_identity
  digest_of_built m digest = refl

  built-digest :
      (input : SourceInput) (m : SourceCompleteness)
      → IsBuilt input m
      → source_completeness_digest primitives m ≡ ok m.digest
  built-digest input m b =
      subst (λ x. source_completeness_digest primitives x ≡ ok x.digest) b.made
        (digest_of_built _ b.digest ∙ b.digested)

  assert_complete_source-ok :
      (m : SourceCompleteness)
      → m.complete ≡ true
      → m.reason ≡ none
      → m.terminal_cursor_observed ≡ true
      → source_completeness_digest primitives m ≡ ok m.digest
      → assert_complete_source primitives m ≡ ok m
  unfolding assert_complete_source
  assert_complete_source-ok m c r o d = ground (arith, eq_text_refl m.digest)

  assert_complete_source-incomplete :
      (m : SourceCompleteness)
      → m.complete ≡ false
      → assert_complete_source primitives m ≡ throw plain_error
  unfolding assert_complete_source
  assert_complete_source-incomplete m c = ground arith

  -- The manifest that was built for a source is accepted as it is if the source is whole; if it is
  -- not, the assertion throws.
  pub assert_complete_source-built :
      (input : SourceInput) (m : SourceCompleteness)
      → build_source_completeness primitives input ≡ ok m
      → (IsWhole input → assert_complete_source primitives m ≡ ok m)
        × (¬ IsWhole input → assert_complete_source primitives m ≡ throw plain_error)
  assert_complete_source-built input m h = (accepted, refused)
    where
      built : IsBuilt input m
      built = build-IsBuilt input m h

      complete_iff : (m.complete ≡ true) ↔ IsWhole input
      complete_iff = build_source_completeness-IsWhole input m h

      accepted : IsWhole input → assert_complete_source primitives m ≡ ok m
      accepted w =
          let complete = complete_iff.1 w in
          let (clear, end) =
            no_reason (found input built.given) (is_terminal input.terminal_cursor)
              (ap (λ x. x.complete) built.made ∙ complete) in
          assert_complete_source-ok m complete (sym (ap (λ x. x.reason) built.made) ∙ clear)
            (sym (ap (λ x. x.terminal_cursor_observed) built.made) ∙ end)
            (built-digest input m built)

      refused : ¬ IsWhole input → assert_complete_source primitives m ≡ throw plain_error
      refused other = elim (Bool-cases m.complete) [
        | inl complete ↦ absurd (other (complete_iff.0 complete))
        | inr partly ↦ assert_complete_source-incomplete m partly
      ]
