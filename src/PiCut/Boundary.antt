-- ===== src/PiCut/Boundary.antt =====
-- src/pi-vcc-cut.ts: the cut stands before a user message, and keeps the asked number of user turns.
use opencode_better_compact.Base.{
  ℕ, zero, suc, ◌+◌, ◌-◌, ◌≤◌, ◌<◌, ◌≡◌, refl, ap, ◌∙◌, ◌≢◌, ◌⊎◌, true, false, Option, none, some,
  List, [], ◌∷◌, ◌++◌, arith, Text, take, length, map, get_elem?, ltb, leb, leb→le, ltb→lt, ltb→le,
  Bool-cases, inl, inr, if◌then◌else◌,
}
use opencode_better_compact.Base.Value.{Number}
use opencode_better_compact.PiCut.{
  Entry, LiveEntry, PiVccCut, Turns, normalized_keep, is_user, user_indices, id_at, cut_at,
  cut_live, compact_all_of, collect_pi_vcc_live_entries, build_pi_vcc_cut,
}

-- How many of the entries are user turns.
unfoldable pub users : List LiveEntry → ℕ
users [] = 0
users (l ∷ live) = if is_user l.message then suc (users live) else users live

length-user_indices : (i : ℕ) (live : List LiveEntry) → length (user_indices i live) ≡ users live
unfolding user_indices users
length-user_indices i [] = refl
length-user_indices i (l ∷ live) = ground (arith, length-user_indices (suc i) live)

-- A user turn, with all that stands around it.
pub record Turn (live : List LiveEntry) : Type 0 where
  pub before : List LiveEntry
  pub u : LiveEntry
  pub after : List LiveEntry
  pub split : live ≡ before ++ u ∷ after
  pub is : is_user u.message ≡ true

cons-Turn : (l : LiveEntry) (live : List LiveEntry) → Turn live → Turn (l ∷ live)
cons-Turn l live t = record {
  before = l ∷ t.before;
  u = t.u;
  after = t.after;
  split = ap (λ m. l ∷ m) t.split;
  is = t.is;
}

user_index-Turn :
    (i k j : ℕ) (live : List LiveEntry)
    → get_elem? (user_indices i live) k ≡ some j
    → (t : Turn live) × (j ≡ i + length t.before) × (users (t.u ∷ t.after) + k ≡ users live)
unfolding user_indices users cons-Turn
user_index-Turn i k j [] e = cc
user_index-Turn i zero j (l ∷ live) e = elim (Bool-cases (is_user l.message)) [
  | inl user ↦ (
    record { before = []; u = l; after = live; split = refl; is = user },
    ground arith,
    omega arith,
  )
  | inr quiet ↦
      let (t, at, count) = user_index-Turn (suc i) zero j live (ground arith) in
      (cons-Turn l live t, omega (arith, at), rw (quiet, users) count)
]
user_index-Turn i (suc k) j (l ∷ live) e = elim (Bool-cases (is_user l.message)) [
  | inl user ↦
      let (t, at, count) = user_index-Turn (suc i) k j live (ground arith) in
      (cons-Turn l live t, omega (arith, at), rw (user, users) (omega (arith, count)))
  | inr quiet ↦
      let (t, at, count) = user_index-Turn (suc i) (suc k) j live (ground arith) in
      (cons-Turn l live t, omega (arith, at), rw (quiet, users) count)
]

-- What the cut of the live entries may be.
pub data Cut (live : List LiveEntry) (keep : ℕ) : Option PiVccCut → Type 0 where
  -- No cut of two entries or fewer.
  too_short : {c : Option PiVccCut} → length live ≤ 2 → c ≡ none → Cut live keep c
  -- Everything is summarised: no turn is to be kept, there are fewer than that, or the turns to keep
  -- begin with the first entry.
  whole :
      {c : Option PiVccCut}
      → 2 < length live
      → (keep ≡ 0)
        ⊎ ((users live < keep) ⊎ ((t : Turn live) × (t.before ≡ []) × (users live ≡ keep)))
      → c ≡ some (compact_all_of live (users live))
      → Cut live keep c
  -- What stands before a user turn is summarised, and that turn begins the `keep` turns that stay.
  tail :
      {c : Option PiVccCut} (t : Turn live)
      → 2 < length live
      → t.before ≢ []
      → users (t.u ∷ t.after) ≡ keep
      → c
        ≡ some (record {
          messages = map (λ l. l.message) t.before;
          first_kept_entry_id = t.u.entry.id;
          compact_all = false;
          total_user_turns = users live;
          kept_user_turns = keep;
        })
      → Cut live keep c

take-length : (xs ys : List LiveEntry) → take (length xs) (xs ++ ys) ≡ xs
take-length [] ys = refl
take-length (x ∷ xs) ys = ap (λ l. x ∷ l) (take-length xs ys)

id_at-length :
    (xs : List LiveEntry) (u : LiveEntry) (ys : List LiveEntry)
    → id_at (xs ++ u ∷ ys) (length xs) ≡ u.entry.id
id_at-length [] u ys = refl
id_at-length (x ∷ xs) u ys = id_at-length xs u ys

get_elem?-lt : (xs : List ℕ) (k : ℕ) → k < length xs → (j : ℕ) × (get_elem? xs k ≡ some j)
get_elem?-lt [] k h = absurd (omega arith)
get_elem?-lt (x ∷ xs) zero h = (x, refl)
get_elem?-lt (x ∷ xs) (suc k) h = get_elem?-lt xs k (omega arith)

keep_some : (keep : ℕ) → leb (suc keep) 0 ≡ false
keep_some keep = ground arith

module _ (live : List LiveEntry) (keep j : ℕ) (long : 2 < length live)
    (enough : suc keep ≤ users live) (at : cut_at live (users live) (suc keep) ≡ some j)
    (t : Turn live) (place : j ≡ length t.before) (count : users (t.u ∷ t.after) ≡ suc keep) where
  at_first : t.before ≡ [] → Cut live (suc keep) (some (cut_live live (users live) (suc keep)))
  unfolding cut_live
  at_first e =
      let first : j ≡ 0 = place ∙ ap length e in
      let all : live ≡ t.u ∷ t.after = t.split ∙ ap (λ b. b ++ t.u ∷ t.after) e in
      whole long (inr (inr (t, e, ap users all ∙ count))) (rw (keep_some keep, at, first))

  at_later :
      (x : LiveEntry) (xs : List LiveEntry)
      → t.before ≡ x ∷ xs
      → Cut live (suc keep) (some (cut_live live (users live) (suc keep)))
  unfolding cut_live
  at_later x xs e =
      let index : j ≡ suc (length xs) = place ∙ ap length e in
      let n : length t.before ≡ suc (length xs) = ap length e in
      let taken : take (suc (length xs)) live ≡ t.before =
        rw n at (ap (take (length t.before)) t.split ∙ take-length t.before (t.u ∷ t.after)) in
      let first_kept : id_at live (suc (length xs)) ≡ t.u.entry.id =
        rw n at (ap (λ l. id_at l (length t.before)) t.split ∙ id_at-length t.before t.u t.after) in
      let kept : users live - (users live - suc keep) ≡ suc keep = omega arith in
      tail t long (λ n. cc (e, n)) count (rw (keep_some keep, at, index, taken, first_kept, kept))

  at_turn : Cut live (suc keep) (some (cut_live live (users live) (suc keep)))
  at_turn = by_before t.before refl
    where
      by_before :
          (b : List LiveEntry)
          → t.before ≡ b
          → Cut live (suc keep) (some (cut_live live (users live) (suc keep)))
      by_before [] e = at_first e
      by_before (x ∷ xs) e = at_later x xs e

cut_live-Cut :
    (live : List LiveEntry) (keep : ℕ)
    → 2 < length live
    → Cut live keep (some (cut_live live (users live) keep))
unfolding cut_live cut_at
cut_live-Cut live zero long = whole long (inl refl) refl
cut_live-Cut live (suc keep) long = elim (Bool-cases (ltb (users live) (suc keep))) [
  | inl few ↦ whole long (inr (inl (ltb→lt _ _ few))) (rw (keep_some keep, few))
  | inr enough ↦
      let le = ltb→le _ _ enough in
      let (j, at) =
        get_elem?-lt (user_indices 0 live) (users live - suc keep)
          (omega (arith, length-user_indices 0 live)) in
      let (t, place, count) = user_index-Turn 0 (users live - suc keep) j live at in
      at_turn live keep j long le (rw (enough, cut_at) at) t (omega (arith, place))
        (omega (arith, count))
]

-- The cut of a session keeps whole turns: it is none for two live entries or fewer; otherwise either
-- everything is summarised, or exactly what stands before a user turn, and from that turn on there
-- are as many user turns as were to be kept.
pub build_pi_vcc_cut-Cut :
    (get_time : Text → Number) (entries : List Entry) (turns : Turns)
    → Cut
        (collect_pi_vcc_live_entries get_time entries)
        (normalized_keep turns)
        (build_pi_vcc_cut get_time entries turns)
unfolding build_pi_vcc_cut
build_pi_vcc_cut-Cut get_time entries turns =
    let live = collect_pi_vcc_live_entries get_time entries in
    elim (Bool-cases (leb (length live) 2)) [
      | inl short ↦ too_short (leb→le (length live) 2 short) (rw short)
      | inr long ↦
          rw (long, length-user_indices 0 live)
            (cut_live-Cut live (normalized_keep turns) (ground arith))
    ]
