-- ===== src/Archive/Scope.antt =====
-- src/vcc-archive.ts: the text that the digest of a scope is of (`scopeDigest`).
use opencode_better_compact.Base.{
  ◌≡◌, refl, ℕ, ◌==◌, false, [], ◌∷◌, ◌++◌, arith, Text, codes, includes, starts_with,
}
use opencode_better_compact.Archive.{scope_text}

abbrev pub HasNoZero : Text → Type 0
HasNoZero t = includes t (0 ∷ []) ≡ false

HasNoZero-cons : (c : ℕ) (t : Text) → HasNoZero (c ∷ t) → ((c == 0) ≡ false) × HasNoZero t
unfolding includes starts_with
HasNoZero-cons c t h = ground arith

-- Up to the first zero unit two texts have the same parts.
parts_eq :
    (a b c d : Text) → HasNoZero a → HasNoZero b → a ++ (0 ∷ c) ≡ b ++ (0 ∷ d) → (a ≡ b) × (c ≡ d)
parts_eq [] [] c d h k e = (refl, cc)
parts_eq [] (y ∷ b) c d h k e = absurd (ground (arith, HasNoZero-cons y b k, e))
parts_eq (x ∷ a) [] c d h k e = absurd (ground (arith, HasNoZero-cons x a h, e))
parts_eq (x ∷ a) (y ∷ b) c d h k e =
    let (_, h') = HasNoZero-cons x a h in
    let (_, k') = HasNoZero-cons y b k in let (same, rest) = parts_eq a b c d h' k' cc in (cc, rest)

prefix_has_none : HasNoZero (codes "vcc-scope-v1")
unfolding includes starts_with codes
prefix_has_none = refl

-- The text has the host, the session and the lineage in it: two scopes of the same text, in whose
-- hosts and sessions no zero unit is, are the same.
pub scope_text-inj :
    (host session lineage host' session' lineage' : Text)
    → HasNoZero host
    → HasNoZero host'
    → HasNoZero session
    → HasNoZero session'
    → scope_text host session lineage ≡ scope_text host' session' lineage'
    → (host ≡ host') × (session ≡ session') × (lineage ≡ lineage')
scope_text-inj host session lineage host' session' lineage' h h' s s' e =
    let (_, rest) =
      parts_eq (codes "vcc-scope-v1") (codes "vcc-scope-v1") _ _ prefix_has_none prefix_has_none
        e in
    let (same_host, rest') = parts_eq host host' _ _ h h' rest in
    let (same_session, same_lineage) = parts_eq session session' lineage lineage' s s' rest' in
    (same_host, same_session, same_lineage)
