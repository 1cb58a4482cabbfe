-- ===== src/Sketch/SpaceSaving/Step.antt =====
-- One update keeps what the counters say of the frequencies.
use agent_guard_fast_path.Common.{
  ℕ, ◌+◌, ◌^◌, ◌≤◌, ◌<◌, ◌≡◌, refl, sym, ◌∙◌, ap, true, false, [], ◌∷◌, ◌++◌, Str, arith, ltb,
  str_eq, str_eq_iff, str_eq_self, if◌then◌else◌, is_empty, length, get_or, set, length-set,
  length-append, All, ◌⊎◌, inl, inr, Bool-cases, lt→ltb, not_lt→ltb, false≢true,
}
use native.Mathlib.Decide.{dec_lt}
use agent_guard_fast_path.Text.{copy_trunc}
use agent_guard_fast_path.Text.Laws.{copy_trunc_whole}
use agent_guard_fast_path.Sketch.SpaceSaving.{
  Item, SpaceSaving, empty_item, max_str, space_saving_k, min_index, evict, ss_update,
}
use agent_guard_fast_path.Sketch.SpaceSaving.Raise.{
  raise, bump_lem, length-raise, tracked-raise, Distinct-raise, total-raise, All-raise,
}
use agent_guard_fast_path.Sketch.SpaceSaving.Counters.{
  tracked, total, Distinct, min_index_lem, All-set, All-get, All-map, All-append_one, total-set,
  total-append_one, count-le-total, untracked-set, Distinct-set, not_true, All-zip,
  tracked-append_one, Distinct-append_one,
}

-- The entry brackets the frequency `f`: `count - error ≤ f ≤ count`.
abbrev pub Brackets : (Str → ℕ) → Item → Type 0
Brackets f it = (f it.key ≤ it.count) × (it.count ≤ f it.key + it.error)

-- What the counters say after `n` updates in which key `k` came `f k` times.
pub record Inv (f : Str → ℕ) (n : ℕ) (ss : SpaceSaving) : Type 0 where
  pub brackets : All (Brackets f) ss
  pub absent : (k : Str) → tracked ss k ≡ false → All (λ it. f k ≤ it.count) ss
  pub unseen : (k : Str) → tracked ss k ≡ false → length ss < space_saving_k → f k ≡ 0
  pub distinct : Distinct ss
  pub sum : total ss ≡ n
  pub few : length ss ≤ space_saving_k

-- The frequencies after one more `x`.
abbrev pub more : (Str → ℕ) → Str → Str → ℕ
more f x k = (if str_eq x k then 1 else 0) + f k

more_self : (f : Str → ℕ) (x k : Str) → k ≡ x → more f x k ≡ 1 + f k
more_self f x k e = rw (e, str_eq_self x)

more-ne : (f : Str → ℕ) (x k : Str) → str_eq k x ≡ false → more f x k ≡ f k
more-ne f x k h = ground (arith, str_eq_iff x k, str_eq_iff k x)

untracked-ne :
    (ss : SpaceSaving) (x k : Str) → tracked ss x ≡ true → tracked ss k ≡ false → str_eq k x ≡ false
untracked-ne ss x k t u =
    not_true (λ e. false≢true (sym u ∙ ap (tracked ss) ((str_eq_iff k x).0 e) ∙ t))

module _ (f : Str → ℕ) (n : ℕ) (ss : SpaceSaving) (x : Str) (inv : Inv f n ss)
    (room : n + 1 < 2 ^ 64) where
  counts : All (λ it. it.count ≤ n) ss
  counts = rw (← inv.sum) (count-le-total ss)

  -- The key has an entry.
  raise-Inv : tracked ss x ≡ true → Inv (more f x) (n + 1) (raise x ss)
  raise-Inv t = record {
    brackets =
        All-raise x (λ it. Brackets f it × (it.count ≤ n)) (Brackets (more f x))
          (λ it e h. omega (arith, more_self f x it.key e))
          (λ it e h. omega (arith, more-ne f x it.key e)) ss inv.distinct
          (All-zip (Brackets f) (λ it. it.count ≤ n) ss inv.brackets counts);
    absent = λ k u.
        let u' : tracked ss k ≡ false = sym (tracked-raise x ss k) ∙ u in
        let same = more-ne f x k (untracked-ne ss x k t u') in
        All-raise x (λ it. (f k ≤ it.count) × (it.count ≤ n)) (λ it. more f x k ≤ it.count)
          (λ it e h. omega (arith, same)) (λ it e h. omega (arith, same)) ss inv.distinct
          (All-zip (λ it. f k ≤ it.count) (λ it. it.count ≤ n) ss (inv.absent k u') counts);
    unseen = λ k u few.
        let u' : tracked ss k ≡ false = sym (tracked-raise x ss k) ∙ u in
        more-ne f x k (untracked-ne ss x k t u')
        ∙ inv.unseen k u' (omega (arith, length-raise x ss));
    distinct = Distinct-raise x ss inv.distinct;
    sum = omega (arith, inv.sum, total-raise x ss t);
    few = omega (arith, inv.few, length-raise x ss);
  }

  -- It has none, and there is room for one.
  append-Inv :
      tracked ss x ≡ false
      → length ss < space_saving_k
      → Inv (more f x) (n + 1) (ss ++ record { key = x; count = 1; error = 0 } ∷ [])
  append-Inv t few =
      let it : Item = record { key = x; count = 1; error = 0 } in
      record {
        brackets =
            All-append_one (Brackets (more f x)) ss it
              (All-map (Brackets f) (Brackets (more f x)) ss
                (λ j m h. omega (arith, more-ne f x j.key (ne_of_tracked j.key m))) inv.brackets)
              (omega (arith, more_self f x x refl, inv.unseen x t few));
        absent = λ k u.
            let (u', d) = split k u in
            let none_yet : more f x k ≡ 0 = more-ne f x k d ∙ inv.unseen k u' few in
            All-append_one (λ j. more f x k ≤ j.count) ss it
              (All-map (λ j. f k ≤ j.count) (λ j. more f x k ≤ j.count) ss
                (λ j m h. omega (arith, none_yet)) (inv.absent k u'))
              (omega (arith, none_yet));
        unseen = λ k u _. let (u', d) = split k u in more-ne f x k d ∙ inv.unseen k u' few;
        distinct = Distinct-append_one ss it t inv.distinct;
        sum = omega (arith, total-append_one ss it, inv.sum);
        few = omega (arith, length-append ss (it ∷ []));
      }
    where
      ne_of_tracked : (k : Str) → tracked ss k ≡ true → str_eq k x ≡ false
      ne_of_tracked k m =
          not_true (λ e. false≢true (sym t ∙ ap (tracked ss) (sym ((str_eq_iff k x).0 e)) ∙ m))

      split :
          (k : Str)
          → tracked (ss ++ record { key = x; count = 1; error = 0 } ∷ []) k ≡ false
          → (tracked ss k ≡ false) × (str_eq k x ≡ false)
      split k u = ground (
        arith,
        tracked-append_one ss (record { key = x; count = 1; error = 0 }) k,
        str_eq_iff k x,
        str_eq_iff x k,
      )

  -- It has none, and the entry at `i`, of the least count, makes way.
  module _ (i : ℕ) (lt : i < length ss)
      (least : All (λ it. (get_or ss i empty_item).count ≤ it.count) ss) (t : tracked ss x ≡ false)
      (full : length ss ≡ space_saving_k) where
    abbrev victim : Item
    victim = get_or ss i empty_item

    abbrev fresh : Item
    fresh = record { key = x; count = victim.count + 1; error = victim.count }

    ne_of_tracked : (k : Str) → tracked ss k ≡ true → str_eq k x ≡ false
    ne_of_tracked k m =
        not_true (λ e. false≢true (sym t ∙ ap (tracked ss) (sym ((str_eq_iff k x).0 e)) ∙ m))

    fresh-Brackets : Brackets (more f x) fresh
    fresh-Brackets =
        omega (arith, more_self f x x refl, All-get (λ it. f x ≤ it.count) ss i lt (inv.absent x t))

    below : (k : Str) → (tracked ss k ≡ false) ⊎ (victim.key ≡ k) → All (λ it. f k ≤ it.count) ss
    below k (inl u) = inv.absent k u
    below k (inr e) =
        let at_victim : f k ≤ victim.count =
          rw (← e) ((All-get (Brackets f) ss i lt inv.brackets).0) in
        All-map (λ it. victim.count ≤ it.count) (λ it. f k ≤ it.count) ss (λ it _ h. omega arith)
          least

    absent-set :
        (k : Str)
        → tracked (set ss i fresh) k ≡ false
        → All (λ it. more f x k ≤ it.count) (set ss i fresh)
    absent-set k u =
        let (other, before) = untracked-set ss i fresh k lt u in
        let same : more f x k ≡ f k = ground (arith, str_eq_iff x k, other) in
        let under = below k before in
        All-set (λ it. more f x k ≤ it.count) ss i fresh
          (All-map (λ it. f k ≤ it.count) (λ it. more f x k ≤ it.count) ss
            (λ it _ h. omega (arith, same)) under)
          (omega (arith, same, All-get (λ it. f k ≤ it.count) ss i lt under))

    set-Inv : Inv (more f x) (n + 1) (set ss i fresh)
    set-Inv = record {
      brackets =
          All-set (Brackets (more f x)) ss i fresh
            (All-map (Brackets f) (Brackets (more f x)) ss
              (λ it m h. omega (arith, more-ne f x it.key (ne_of_tracked it.key m))) inv.brackets)
            fresh-Brackets;
      absent = absent-set;
      unseen = λ k u few. absurd (omega (arith, length-set ss i fresh));
      distinct = Distinct-set ss i fresh t inv.distinct;
      sum = omega (arith, inv.sum, total-set ss i fresh lt);
      few = omega (arith, inv.few, length-set ss i fresh);
    }

  evict_lem :
      length x < max_str
      → 0 < length ss
      → (i : ℕ) × (i < length ss)
        × All (λ it. (get_or ss i empty_item).count ≤ it.count) ss
        × (evict x ss
            ≡ set ss i (record {
              key = x;
              count = (get_or ss i empty_item).count + 1;
              error = (get_or ss i empty_item).count;
            }))
  unfolding evict
  evict_lem short some_entry =
      let i = min_index ss in
      let (lt, least) = min_index_lem ss some_entry in
      let small : (get_or ss i empty_item).count ≤ n =
        All-get (λ it. it.count ≤ n) ss i lt counts in
      let whole = copy_trunc_whole (get_or ss i empty_item).key max_str x short in
      (i, lt, least, ground (arith, whole, small))

  ss_update_cases :
      is_empty x ≡ false
      → ss_update ss x ≡ (
          if tracked ss x
          then raise x ss
          else if ltb (length ss) space_saving_k
          then ss ++ (record { key = copy_trunc [] max_str x; count = 1; error = 0 } ∷ [])
          else evict x ss)
  unfolding ss_update
  ss_update_cases ne = ground (arith, bump_lem x ss)

  -- One call of `ss_update` keeps the invariant, on each of its branches.
  pub ss_update-Inv :
      is_empty x ≡ false → length x < max_str → Inv (more f x) (n + 1) (ss_update ss x)
  ss_update-Inv ne short = rw (ss_update_cases ne) elim (Bool-cases (tracked ss x)) [
    | inl t ↦ rw t (raise-Inv t)
    | inr u ↦ elim (dec_lt (length ss) space_saving_k) [
      | yes few ↦
          let whole = copy_trunc_whole [] max_str x short in
          rw (u, lt→ltb (length ss) space_saving_k few, whole) (append-Inv u few)
      | no ge ↦
          let full : length ss ≡ space_saving_k = omega (arith, inv.few) in
          let (i, lt, least, e) = evict_lem short (omega arith) in
          rw (u, not_lt→ltb (length ss) space_saving_k ge, e) (set-Inv i lt least u full)
    ]
  ]
