-- ===== src/Wire/Plain.antt =====
-- src/vcc-wire.ts: reasons and digests in quotes stand as they are.
use opencode_better_compact.Base.{
  ◌≡◌, refl, ap, ◌∙◌, ℕ, ◌==◌, Bool, true, false, ◌&&◌, ◌||◌, &&-eq-true, [], ◌∷◌, ◌++◌, all, leb,
  length, Text, arith, take, drop, append_assoc,
}
use opencode_better_compact.Utf8.{is_high}
use opencode_better_compact.State.VccAttempt.{is_hex, is_digest}
use opencode_better_compact.Vcc.Serialize.{quote, escape, escape_unit}

-- A small letter, a digit or an underscore
abbrev pub is_word : ℕ → Bool
is_word c = leb b'0' c && leb c b'9' || leb b'a' c && leb c b'z' || c == b'_'

escape_unit-word : (c : ℕ) → is_word c ≡ true → escape_unit c ≡ c ∷ []
unfolding escape_unit
escape_unit-word c h = ground arith

is_high-word : (c : ℕ) → is_word c ≡ true → is_high c ≡ false
is_high-word c h = ground arith

escape-word : (t : Text) → all is_word t ≡ true → escape t ≡ t
unfolding escape
escape-word [] h = refl
escape-word (c ∷ []) h = escape_unit-word c (ground (arith, h))
escape-word (c ∷ d ∷ t) h =
    let (here, later) = &&-eq-true (is_word c) (all is_word (d ∷ t)) h in
    rw (is_high-word c here, escape_unit-word c here, escape-word (d ∷ t) later)

pub quote-word :
    (t rest : Text) → all is_word t ≡ true → quote t ++ rest ≡ b'"' ∷ (t ++ (b'"' ∷ rest))
unfolding quote
quote-word t rest h =
    ap (λ l. b'"' ∷ l)
      (ap (λ e. (e ++ (b'"' ∷ [])) ++ rest) (escape-word t h) ∙ append_assoc t (b'"' ∷ []) rest)

all_hex-word : (t : Text) → all is_hex t ≡ true → all is_word t ≡ true
all_hex-word [] h = refl
all_hex-word (c ∷ t) h =
    let (here, later) = &&-eq-true (is_hex c) (all is_hex t) h in
    let rest = all_hex-word t later in ground (arith, here, rest)

pub is_digest-word : (t : Text) → is_digest t ≡ true → all is_word t ≡ true
unfolding is_digest
is_digest-word t h =
    let (_, hex) = &&-eq-true (length t == 64) (all is_hex t) h in all_hex-word t hex

pub is_digest-length : (t : Text) → is_digest t ≡ true → length t ≡ 64
unfolding is_digest
is_digest-length t h =
    let (size, _) = &&-eq-true (length t == 64) (all is_hex t) h in ground (arith, size)

pub take_append : (t rest : Text) → take (length t) (t ++ rest) ≡ t
take_append [] rest = refl
take_append (c ∷ t) rest = ap (λ l. c ∷ l) (take_append t rest)

pub drop_append : (t rest : Text) → drop (length t) (t ++ rest) ≡ rest
drop_append [] rest = refl
drop_append (c ∷ t) rest = drop_append t rest
