-- ===== src/PiCut/Live.antt =====
-- src/pi-vcc-cut.ts: which entries are live.
use opencode_better_compact.Base.{
  ℕ, suc, ◌+◌, ◌≡◌, refl, ◌≢◌, ◌⊎◌, true, false, none, some, List, [], ◌∷◌, ◌++◌, arith, All, Text,
  eq_text, eq_text_iff, eq_text-eq, ap, sym, ◌∙◌, ◌≡⟨◌⟩◌, ◌∎, append_assoc, length-append, is_empty,
  drop, length, Bool-cases, inl, inr,
}
use opencode_better_compact.Base.Value.{Number}
use opencode_better_compact.PiCut.{
  Entry, is_compaction, kept_of, entry_to_live_message, live_entries, collect_pi_vcc_live_entries,
  last_compaction, find_index, start_index,
}

abbrev pub Plain : Entry → Type 0
Plain e = is_compaction e.body ≡ false

-- The newest compaction, with all that stands around it.
pub record Newest (es : List Entry) : Type 0 where
  pub pre : List Entry
  pub c : Entry
  pub post : List Entry
  pub split : es ≡ pre ++ c ∷ post
  pub is : is_compaction c.body ≡ true
  pub plain : All Plain post

last_compaction-cases :
    (i : ℕ) (es : List Entry)
    → ((last_compaction i es ≡ none) × All Plain es)
      ⊎ ((n : Newest es) × (last_compaction i es ≡ some (i + length n.pre, kept_of n.c.body)))
unfolding last_compaction
last_compaction-cases i [] = inl (refl, tt)
last_compaction-cases i (e ∷ es) = elim (last_compaction-cases (suc i) es) [
  | inr (n, found) ↦
      let shift : suc i + length n.pre ≡ i + suc (length n.pre) = omega arith in
      inr (
        record {
          pre = e ∷ n.pre;
          c = n.c;
          post = n.post;
          split = ap (λ l. e ∷ l) n.split;
          is = n.is;
          plain = n.plain;
        },
        rw (found, shift),
      )
  | inl (none_later, plain) ↦ elim (Bool-cases (is_compaction e.body)) [
    | inl here ↦
        let shift : i ≡ i + 0 = omega arith in
        inr (
          record { pre = []; c = e; post = es; split = refl; is = here; plain = plain },
          rw (none_later, here) (ap (λ j. some (j, kept_of e.body)) shift),
        )
    | inr not_here ↦ inl (rw (none_later, not_here), (not_here, plain))
  ]
]

-- The first entry of an identity, with all that stands around it.
pub record First (id : Text) (es : List Entry) : Type 0 where
  pub before : List Entry
  pub e : Entry
  pub rest : List Entry
  pub split : es ≡ before ++ e ∷ rest
  pub same : e.id ≡ id
  pub others : All (λ x. x.id ≢ id) before

find_index-cases :
    (id : Text) (es : List Entry)
    → ((find_index id es ≡ none) × All (λ x. x.id ≢ id) es)
      ⊎ ((f : First id es) × (find_index id es ≡ some (length f.before)))
unfolding find_index
find_index-cases id [] = inl (refl, tt)
find_index-cases id (e ∷ es) = elim (Bool-cases (eq_text e.id id)) [
  | inl here ↦ inr (
    record {
      before = [];
      e = e;
      rest = es;
      split = refl;
      same = eq_text-eq e.id id here;
      others = tt;
    },
    rw here,
  )
  | inr not_here ↦
      let differs : e.id ≢ id = ground (arith, eq_text_iff e.id id) in
      elim (find_index-cases id es) [
        | inl (absent, all_differ) ↦ inl (rw (not_here, absent), (differs, all_differ))
        | inr (f, found) ↦ inr (
          record {
            before = e ∷ f.before;
            e = f.e;
            rest = f.rest;
            split = ap (λ l. e ∷ l) f.split;
            same = f.same;
            others = (differs, f.others);
          },
          rw (not_here, found),
        )
      ]
]

drop-length : (xs ys : List Entry) → drop (length xs) (xs ++ ys) ≡ ys
drop-length [] ys = refl
drop-length (x ∷ xs) ys = drop-length xs ys

-- Where the live part of a session begins.
pub data Begins (es : List Entry) : List Entry → Type 0 where
  -- Nothing was compacted: the whole session is live.
  fresh : {live : List Entry} → All Plain es → live ≡ es → Begins es live
  -- The newest compaction names an entry: the part begins with the first entry of that identity.
  resumed :
      {live : List Entry} (n : Newest es) (f : First (kept_of n.c.body) es)
      → kept_of n.c.body ≢ []
      → live ≡ f.e ∷ f.rest
      → Begins es live
  -- It names none that is there: the part begins behind the compaction.
  orphaned :
      {live : List Entry} (n : Newest es)
      → (kept_of n.c.body ≡ []) ⊎ All (λ x. x.id ≢ kept_of n.c.body) es
      → live ≡ n.post
      → Begins es live

drop-behind : (es : List Entry) (n : Newest es) → drop (0 + length n.pre + 1) es ≡ n.post
drop-behind es n =
    let shift : 0 + length n.pre + 1 ≡ length (n.pre ++ n.c ∷ []) =
      omega (arith, length-append n.pre (n.c ∷ [])) in
    drop (0 + length n.pre + 1) es
    ≡⟨ ap (λ k. drop k es) shift ⟩ drop (length (n.pre ++ n.c ∷ [])) es
    ≡⟨ ap (drop (length (n.pre ++ n.c ∷ [])))
        (n.split ∙ sym (append_assoc n.pre (n.c ∷ []) n.post)) ⟩
      drop (length (n.pre ++ n.c ∷ [])) ((n.pre ++ n.c ∷ []) ++ n.post)
    ≡⟨ drop-length (n.pre ++ n.c ∷ []) n.post ⟩ n.post ∎

is_empty-eq : (t : Text) → is_empty t ≡ true → t ≡ []
is_empty-eq [] h = refl
is_empty-eq (c ∷ t) h = cc

is_empty-ne : (t : Text) → is_empty t ≡ false → t ≢ []
is_empty-ne [] h = cc
is_empty-ne (c ∷ t) h = λ e. cc

drop_start-Begins : (es : List Entry) → Begins es (drop (start_index es) es)
unfolding start_index
drop_start-Begins es = elim (last_compaction-cases 0 es) [
  | inl (absent, plain) ↦ fresh plain (rw (absent, start_index))
  | inr (n, found) ↦ elim (Bool-cases (is_empty (kept_of n.c.body))) [
    | inl unnamed ↦
        orphaned n (inl (is_empty-eq _ unnamed))
          (rw (found, start_index, unnamed, start_index) (drop-behind es n))
    | inr named ↦ elim (find_index-cases (kept_of n.c.body) es) [
      | inl (missing, all_differ) ↦
          orphaned n (inr all_differ)
            (rw (found, start_index, named, start_index, missing, start_index) (drop-behind es n))
      | inr (f, at) ↦ resumed n f (is_empty-ne _ named) (
          rw (found, start_index, named, start_index, at, start_index)
            (ap (drop (length f.before)) f.split ∙ drop-length f.before (f.e ∷ f.rest)))
    ]
  ]
]

module _ (get_time : Text → Number) where
  live_entries-Plain :
      (es : List Entry)
      → All
          (λ l. Plain l.entry × (entry_to_live_message get_time l.entry.body ≡ some l.message))
          (live_entries get_time es)
  unfolding live_entries entry_to_live_message
  live_entries-Plain [] = tt
  live_entries-Plain (e ∷ es) = ground (arith, live_entries-Plain es)

  -- The live entries are those of the part of the session that begins where it should: at the first
  -- entry that the newest compaction kept, behind that compaction if it names none that is there, or
  -- at the start. No compaction is among them, and each stands with the message made of it.
  pub collect-Begins :
      (entries : List Entry)
      → ((live : List Entry) × Begins entries live
          × (collect_pi_vcc_live_entries get_time entries ≡ live_entries get_time live))
        × All
            (λ l. Plain l.entry × (entry_to_live_message get_time l.entry.body ≡ some l.message))
            (collect_pi_vcc_live_entries get_time entries)
  unfolding collect_pi_vcc_live_entries
  collect-Begins entries = (
    (drop (start_index entries) entries, drop_start-Begins entries, refl),
    live_entries-Plain (drop (start_index entries) entries),
  )
