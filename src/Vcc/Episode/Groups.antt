-- ===== src/Vcc/Episode/Groups.antt =====
-- src/vcc.ts: the groups of `formCausalEpisodes`. Each event
-- stands in one of them.
use opencode_better_compact.Base.{
  ◌≡◌, refl, sym, ◌∙◌, subst, true, false, none, List, [], ◌∷◌, ◌++◌, append_assoc, append-nil,
  All-append, arith, Text, eq_text, eq_text_iff, All, Bool-cases, inl, inr,
}
use opencode_better_compact.Base.JsMap
use opencode_better_compact.Base.Sort.{
  Perm, Perm_refl, Perm_sym, skip, Perm_middle, Perm-append, trans,
}
use opencode_better_compact.Vcc.Event.{CanonicalEvent}
use opencode_better_compact.Vcc.Episode.{
  Groups, members, group_key, add_event, group_from, flat_map,
}

-- Every event stands under its own key.
abbrev pub Keyed : Text × List CanonicalEvent → Type 0
Keyed (k, es) = All (λ e. group_key e ≡ k) es

abbrev pub concat_groups : Groups → List CanonicalEvent
concat_groups groups = flat_map (λ es. es) (JsMap.values groups)

-- `add_event` under a given key.
put : Text → CanonicalEvent → Groups → Groups
put k e m = JsMap.set k (members (JsMap.get k m) ++ e ∷ []) m

put_here :
    (k j : Text) (e : CanonicalEvent) (es : List CanonicalEvent) (m : Groups)
    → eq_text j k ≡ true
    → put k e ((j, es) ∷ m) ≡ (j, es ++ e ∷ []) ∷ m
unfolding put JsMap.set JsMap.get
put_here k j e es m h = rw h

put_later :
    (k j : Text) (e : CanonicalEvent) (es : List CanonicalEvent) (m : Groups)
    → eq_text j k ≡ false
    → put k e ((j, es) ∷ m) ≡ (j, es) ∷ put k e m
unfolding put JsMap.set JsMap.get
put_later k j e es m h = ground arith

put_nil : (k : Text) (e : CanonicalEvent) → put k e [] ≡ (k, e ∷ []) ∷ []
unfolding put JsMap.set JsMap.get
put_nil k e = refl

put-Perm :
    (k : Text) (e : CanonicalEvent) (m : Groups)
    → Perm (concat_groups (put k e m)) (e ∷ concat_groups m)
put-Perm k e [] =
    subst (λ g. Perm (concat_groups g) (e ∷ [])) (sym (put_nil k e)) (Perm_refl (e ∷ []))
put-Perm k e ((j, es) ∷ m) = elim (Bool-cases (eq_text j k)) [
  | inl here ↦
      subst (λ g. Perm (concat_groups g) (e ∷ es ++ concat_groups m))
        (sym (put_here k j e es m here))
        (subst (λ l. Perm l (e ∷ es ++ concat_groups m))
          (sym (append_assoc es (e ∷ []) (concat_groups m))) (Perm_middle e es (concat_groups m)))
  | inr later ↦
      subst (λ g. Perm (concat_groups g) (e ∷ es ++ concat_groups m))
        (sym (put_later k j e es m later))
        (trans (Perm-append es (put-Perm k e m)) (Perm_middle e es (concat_groups m)))
]

put-Keyed :
    (k : Text) (e : CanonicalEvent) (m : Groups)
    → group_key e ≡ k
    → All Keyed m
    → All Keyed (put k e m)
put-Keyed k e [] h a = subst (All Keyed) (sym (put_nil k e)) ((h, tt), tt)
put-Keyed k e ((j, es) ∷ m) h (p, a) = elim (Bool-cases (eq_text j k)) [
  | inl here ↦
      subst (All Keyed) (sym (put_here k j e es m here)) (
        All-append (λ f. group_key f ≡ j) es (e ∷ []) p (h ∙ sym ((eq_text_iff j k).0 here), tt),
        a,
      )
  | inr later ↦ subst (All Keyed) (sym (put_later k j e es m later)) (p, put-Keyed k e m h a)
]

set_here :
    (k j : Text) (v w : List CanonicalEvent) (m : Groups)
    → eq_text j k ≡ true
    → JsMap.set k v ((j, w) ∷ m) ≡ (j, v) ∷ m
unfolding JsMap.set
set_here k j v w m h = rw h

set_later :
    (k j : Text) (v w : List CanonicalEvent) (m : Groups)
    → eq_text j k ≡ false
    → JsMap.set k v ((j, w) ∷ m) ≡ (j, w) ∷ JsMap.set k v m
unfolding JsMap.set
set_later k j v w m h = rw h

get-set-none :
    (k j : Text) (v : List CanonicalEvent) (m : Groups)
    → eq_text j k ≡ false
    → JsMap.get j m ≡ none
    → JsMap.get j (JsMap.set k v m) ≡ none
get-set-none k j v m h e = ground (arith, JsMap.get-set j k v m, eq_text_iff j k, eq_text_iff k j)

set_nil-NodupKeys : (k : Text) (v : List CanonicalEvent) → JsMap.NodupKeys (JsMap.set k v [])
unfolding JsMap.set JsMap.get
set_nil-NodupKeys k v = (refl, tt)

set-NodupKeys :
    (k : Text) (v : List CanonicalEvent) (m : Groups)
    → JsMap.NodupKeys m
    → JsMap.NodupKeys (JsMap.set k v m)
set-NodupKeys k v [] h = set_nil-NodupKeys k v
set-NodupKeys k v ((j, w) ∷ m) (fresh, h) = elim (Bool-cases (eq_text j k)) [
  | inl here ↦ subst JsMap.NodupKeys (sym (set_here k j v w m here)) (fresh, h)
  | inr later ↦
      subst JsMap.NodupKeys (sym (set_later k j v w m later))
        (get-set-none k j v m later fresh, set-NodupKeys k v m h)
]

-- The groups of events: the key of no group occurs twice, each event stands in the group of its key,
-- and the groups hold the events, each once.
pub record IsGrouping (events : List CanonicalEvent) (groups : Groups) : Type 0 where
  pub nodup : JsMap.NodupKeys groups
  pub keyed : All Keyed groups
  pub whole : Perm (concat_groups groups) events

add_event-put : (e : CanonicalEvent) (m : Groups) → add_event e m ≡ put (group_key e) e m
unfolding add_event put
add_event-put e m = refl

put-NodupKeys :
    (k : Text) (e : CanonicalEvent) (m : Groups) → JsMap.NodupKeys m → JsMap.NodupKeys (put k e m)
unfolding put
put-NodupKeys k e m h = set-NodupKeys k (members (JsMap.get k m) ++ e ∷ []) m h

Perm_last : (e : CanonicalEvent) (es : List CanonicalEvent) → Perm (e ∷ es) (es ++ e ∷ [])
Perm_last e es =
    Perm_sym (subst (λ l. Perm (es ++ e ∷ []) (e ∷ l)) (append-nil es) (Perm_middle e es []))

add_event-IsGrouping :
    (e : CanonicalEvent) (before : List CanonicalEvent) (m : Groups)
    → IsGrouping before m
    → IsGrouping (before ++ e ∷ []) (add_event e m)
add_event-IsGrouping e before m g =
    subst (IsGrouping (before ++ e ∷ [])) (sym (add_event-put e m)) (record {
      nodup = put-NodupKeys (group_key e) e m g.nodup;
      keyed = put-Keyed (group_key e) e m refl g.keyed;
      whole = trans (put-Perm (group_key e) e m) (trans (skip e g.whole) (Perm_last e before));
    })

group_from-IsGrouping_from :
    (es before : List CanonicalEvent) (m : Groups)
    → IsGrouping before m
    → IsGrouping (before ++ es) (group_from m es)
unfolding group_from
group_from-IsGrouping_from [] before m g = subst (λ l. IsGrouping l m) (sym (append-nil before)) g
group_from-IsGrouping_from (e ∷ es) before m g =
    let step = add_event-IsGrouping e before m g in
    subst (λ l. IsGrouping l (group_from (add_event e m) es)) (append_assoc before (e ∷ []) es)
      (group_from-IsGrouping_from es (before ++ e ∷ []) (add_event e m) step)

-- The groups that `formCausalEpisodes` makes: no key twice, each event in the group of its key, and
-- each event in one group, once.
pub group_from-IsGrouping :
    (events : List CanonicalEvent) → IsGrouping events (group_from [] events)
group_from-IsGrouping events =
    group_from-IsGrouping_from events [] []
      (record { nodup = tt; keyed = tt; whole = Perm_refl [] })
