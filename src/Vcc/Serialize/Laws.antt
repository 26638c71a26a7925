-- ===== src/Vcc/Serialize/Laws.antt =====
-- src/vcc.ts: the canonical text of an object does not depend on the order of its properties.
use Prim.Native.Nat.{Ordering}
use opencode_better_compact.Base.{
  ◌≡◌, ◌≢◌, refl, ap, sym, ◌∙◌, true, false, List, [], ◌∷◌, arith, map, ◌++◌, Text, Result, ok,
  throw, ◌>>=◌, >>=-eq-ok, All, member, distinct, eq_text_iff, subst,
}
use opencode_better_compact.Base.Sort.{IsPreorder, Perm, Apart, sort}
use opencode_better_compact.Base.Results.{traverse, traverse-Perm}
use opencode_better_compact.Base.Sort.Laws.{sort_of_Perm}
use opencode_better_compact.Base.Value.{Value, obj, Fields, end, field, keys, Number, join}
use opencode_better_compact.Vcc.Order.Laws.{
  IsText, compare_code_points-IsPreorder, compare_code_points-eq,
}
use opencode_better_compact.Vcc.Serialize.{
  entry_text, compare_entries, serialize_value, serialize_entries, canonical_serialize,
}

compare_entries-IsPreorder : IsPreorder (Text × Text) compare_entries
compare_entries-IsPreorder = record {
  flip = λ (a, s) (b, t). compare_code_points-IsPreorder.flip a b;
  flop = λ (a, s) (b, t). compare_code_points-IsPreorder.flop a b;
  le_trans = λ (a, s) (b, t) (c, u). compare_code_points-IsPreorder.le_trans a b c;
}

-- The properties of an object.
abbrev pub properties : Fields → List (Text × Value)
properties end = []
properties (field k v fs) = (k, v) ∷ properties fs

entry-apart :
    (k t : Text) (es : List (Text × Text))
    → IsText k
    → All IsText (map (λ e. e.0) es)
    → member k (map (λ e. e.0) es) ≡ false
    → All (λ e. compare_entries (k, t) e ≢ Ordering.eq) es
unfolding member
entry-apart k t [] h hs m = tt
entry-apart k t ((j, u) ∷ es) h (p, hs) m = (
  (λ e. ground (arith, compare_code_points-eq k j h p e, eq_text_iff k j)),
  entry-apart k t es h hs (ground arith),
)

entries-Apart :
    (es : List (Text × Text))
    → All IsText (map (λ e. e.0) es)
    → distinct (map (λ e. e.0) es) ≡ true
    → Apart compare_entries es
unfolding distinct
entries-Apart [] h d = tt
entries-Apart ((k, t) ∷ es) (p, h) d =
    (entry-apart k t es p h (ground arith), entries-Apart es h (ground arith))

object_text : List (Text × Text) → Text
object_text sorted = b'{' ∷ (join (b',' ∷ []) (map entry_text sorted) ++ b'}' ∷ [])

entry-step :
    (step : Result Text) (k : Text) (rest rest' : Result (List (Text × Text)))
    → rest' ≡ rest
    → (do text ← step; entries ← rest'; ok ((k, text) ∷ entries))
      ≡ (do entry ← (do text ← step; ok (k, text)); entries ← rest; ok (entry ∷ entries))
entry-step (throw e) k rest rest' h = refl
entry-step (ok text) k rest rest' h = rw h

module _ (print_double : Number → Text) where
  -- The text of a property's value, with its key.
  unfoldable entry_of : Text × Value → Result (Text × Text)
  entry_of (k, v) = do text ← serialize_value print_double v; ok (k, text)

  entries_of : List (Text × Value) → Result (List (Text × Text))
  entries_of ps = traverse entry_of ps

  serialize_entries-eq-entries_of :
      (fs : Fields) → serialize_entries print_double fs ≡ entries_of (properties fs)
  unfolding serialize_entries entries_of entry_of traverse
  serialize_entries-eq-entries_of end = refl
  serialize_entries-eq-entries_of (field k v fs) =
      entry-step (serialize_value print_double v) k (entries_of (properties fs))
        (serialize_entries print_double fs) (serialize_entries-eq-entries_of fs)

  keys-entries_of :
      (fs : Fields) (es : List (Text × Text))
      → serialize_entries print_double fs ≡ ok es
      → map (λ e. e.0) es ≡ keys fs
  unfolding serialize_entries keys
  keys-entries_of end es h = ground arith
  keys-entries_of (field k v fs) es h =
      let (text, first, h') = >>=-eq-ok (serialize_value print_double v) h in
      let (rest, later, h'') = >>=-eq-ok (serialize_entries print_double fs) h' in
      let ih = keys-entries_of fs rest later in
      let same : (k, text) ∷ rest ≡ es = cc h'' in
      subst (λ l. map (λ e. e.0) l ≡ k ∷ keys fs) same (cc ih)

  serialize_value-obj :
      (fs : Fields) (es : List (Text × Text))
      → entries_of (properties fs) ≡ ok es
      → serialize_value print_double (obj fs) ≡ ok (object_text (sort compare_entries es))
  unfolding serialize_value object_text
  serialize_value-obj fs es h = rw (serialize_entries-eq-entries_of fs, h)

  entries_of-fields :
      (fs : Fields) (written : Text)
      → serialize_value print_double (obj fs) ≡ ok written
      → (es : List (Text × Text)) × (serialize_entries print_double fs ≡ ok es)
  unfolding serialize_value
  entries_of-fields fs written e =
      let (es, h, _) = >>=-eq-ok (serialize_entries print_double fs) e in (es, h)

  serialize_value-Perm :
      (fs gs : Fields) (written : Text)
      → All IsText (keys fs)
      → distinct (keys fs) ≡ true
      → Perm (properties fs) (properties gs)
      → serialize_value print_double (obj fs) ≡ ok written
      → serialize_value print_double (obj fs) ≡ serialize_value print_double (obj gs)
  unfolding entries_of
  serialize_value-Perm fs gs written h d p e =
      let (es, wrote) = entries_of-fields fs written e in
      let named = keys-entries_of fs es wrote in
      let apart = entries-Apart es (subst (All IsText) (sym named) h) (rw named d) in
      let (es', wrote', q) =
        traverse-Perm entry_of es p (sym (serialize_entries-eq-entries_of fs) ∙ wrote) in
      serialize_value-obj fs es (sym (serialize_entries-eq-entries_of fs) ∙ wrote)
      ∙ ap (λ l. ok (object_text l))
          (sort_of_Perm compare_entries compare_entries-IsPreorder q apart)
      ∙ sym (serialize_value-obj gs es' wrote')

  serialized :
      (fs : Fields) (text : Text)
      → canonical_serialize print_double (obj fs) ≡ ok text
      → (written : Text) × (serialize_value print_double (obj fs) ≡ ok written)
  unfolding canonical_serialize
  serialized fs text e =
      let (written, h, _) = >>=-eq-ok (serialize_value print_double (obj fs)) e in (written, h)

  canonical_serialize-eq :
      (v w : Value)
      → serialize_value print_double v ≡ serialize_value print_double w
      → canonical_serialize print_double v ≡ canonical_serialize print_double w
  unfolding canonical_serialize
  canonical_serialize-eq v w h = rw h

  -- Let an object have a canonical text, with strings as keys and no key twice. The same properties
  -- in another order have the same canonical text.
  pub canonical_serialize-Perm :
      (fs gs : Fields) (text : Text)
      → All IsText (keys fs)
      → distinct (keys fs) ≡ true
      → Perm (properties fs) (properties gs)
      → canonical_serialize print_double (obj fs) ≡ ok text
      → canonical_serialize print_double (obj gs) ≡ ok text
  canonical_serialize-Perm fs gs text h d p e =
      let (written, wrote) = serialized fs text e in
      sym
        (canonical_serialize-eq (obj fs) (obj gs) (serialize_value-Perm fs gs written h d p wrote))
      ∙ e
