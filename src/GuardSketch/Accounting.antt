-- ===== src/GuardSketch/Accounting.antt =====
-- What the whole sketch keeps while signals are recorded.
use agent_guard_fast_path.Common.{
  ℕ, ◌+◌, ◌*◌, ◌^◌, ◌≤◌, ◌<◌, ◌≡◌, refl, ◌∙◌, Bool, true, false, none, some, List, [], ◌∷◌, arith,
  inl, inr, leb, if◌then◌else◌, Bool-cases, Option-cases, length, set, u64, get_or-replicate, ℤ,
  pos,
}
use agent_guard_fast_path.GuardSketch.{
  Signal, Slot, Sketch, record_slot, exact_risk, approx_risk, gs_cms_estimate, gs_max_pids,
  new_slot, gs_init, gs_record, find_slot,
}
use agent_guard_fast_path.GuardSketch.Counted.{exact_of, record_slot-IsCounted}
use agent_guard_fast_path.GuardSketch.Risk.{estimate_bounds, risk-IsCounted}
use agent_guard_fast_path.GuardSketch.Slots.{
  slot_at, AllCounted, AllCounted-set, new_slot-IsCounted, IsSound, Finds, find_slot-Finds,
}

-- One call adds one either to the events of the window or to those dropped, and says which.
pub record Records (sk : Sketch) (result : Bool × Sketch) : Type 0 where
  pub sound : IsSound result.1
  pub limit : result.1.window_limit ≡ sk.window_limit
  pub events : result.1.window_events ≡ sk.window_events + (if result.0 then 1 else 0)
  pub drops :
      result.1.dropped_events
      ≡ (if result.0 then sk.dropped_events else u64 (sk.dropped_events + 1))

AllCounted-weaken :
    (slots : List Slot) (k k' : ℕ) → k ≤ k' → AllCounted slots k → AllCounted slots k'
AllCounted-weaken slots k k' le h i = ((h i).0, omega (arith, (h i).1))

-- The last part of `gs_record`, behind its guard.
record_found :
    (sk : Sketch) (pid : ℤ) (signal : Signal)
    → leb sk.window_limit sk.window_events ≡ false
    → gs_record sk pid signal ≡ elim ((find_slot sk pid).0) [
      | none ↦ (false, (find_slot sk pid).1)
      | some i ↦ (
        true,
        record ((find_slot sk pid).1) {
          window_events = u64 ((find_slot sk pid).1.window_events + 1);
          slots =
              set
                (find_slot sk pid).1.slots
                i
                (record_slot (slot_at (find_slot sk pid).1.slots i) signal);
        },
      )
    ]
unfolding gs_record
record_found sk pid signal h = rw h refl

pub gs_record-Records :
    (sk : Sketch) (pid : ℤ) (signal : Signal)
    → IsSound sk
    → sk.window_limit < 2 ^ 31
    → Records sk (gs_record sk pid signal)
unfolding gs_record
gs_record-Records sk pid signal h lim = elim (Bool-cases (leb sk.window_limit sk.window_events)) [
  | inl over ↦
      rw (gs_record, over)
        (record {
          sound = record { window = h.window; counted = h.counted };
          limit = refl;
          events = omega arith;
          drops = refl;
        })
  | inr room ↦ elim (Option-cases ((find_slot sk pid).0)) [
    | inl none_left ↦
        let f : Finds sk (find_slot sk pid).1 true = rw none_left at (find_slot-Finds sk pid h) in
        rw (record_found sk pid signal room, none_left)
          (record {
            sound = record {
              window = omega (arith, h.window, f.limit, f.events);
              counted = rw f.events f.slots;
            };
            limit = f.limit;
            events = omega (arith, f.events);
            drops = f.drops;
          })
    | inr (i, at_i) ↦
        let f : Finds sk (find_slot sk pid).1 false = rw at_i at (find_slot-Finds sk pid h) in
        let old = slot_at (find_slot sk pid).1.slots i in
        let below : sk.window_events < sk.window_limit = ground arith in
        let step =
          record_slot-IsCounted old signal (f.slots i).0
            (omega (arith, below, lim, (f.slots i).1)) in
        let up : u64 ((find_slot sk pid).1.window_events + 1) ≡ sk.window_events + 1 =
          omega (arith, below, lim, f.events) in
        rw (record_found sk pid signal room, at_i)
          (record {
            sound = record {
              window = omega (arith, below, up, f.limit);
              counted = rw up (
                  AllCounted-set (find_slot sk pid).1.slots (sk.window_events + 1) i
                    (record_slot old signal)
                    (AllCounted-weaken (find_slot sk pid).1.slots sk.window_events
                      (sk.window_events + 1) (omega arith) f.slots)
                    step.0 (omega (arith, step.1, (f.slots i).1)));
            };
            limit = f.limit;
            events = up;
            drops = f.drops;
          })
  ]
]

-- A run of calls, the results dropped.
pub run : Sketch → List (ℤ × Signal) → Sketch
run sk [] = sk
run sk (c ∷ calls) = run (gs_record sk c.0 c.1).1 calls

run-IsSound :
    (sk : Sketch) (calls : List (ℤ × Signal))
    → IsSound sk
    → sk.window_limit < 2 ^ 31
    → sk.window_events + sk.dropped_events + length calls < 2 ^ 64
    → IsSound (run sk calls)
      × ((run sk calls).window_limit ≡ sk.window_limit)
      × ((run sk calls).window_events + (run sk calls).dropped_events
          ≡ sk.window_events + sk.dropped_events + length calls)
unfolding run
run-IsSound sk [] h lim few = (h, refl, omega arith)
run-IsSound sk (c ∷ calls) h lim few =
    let r = gs_record-Records sk c.0 c.1 h lim in
    let next = (gs_record sk c.0 c.1).1 in
    let moved : next.window_events + next.dropped_events
        ≡ sk.window_events + sk.dropped_events + 1 =
      ground (arith, r.events, r.drops, few) in
    let (a, b, d) =
      run-IsSound next calls r.sound (omega (arith, r.limit, lim)) (omega (arith, moved, few)) in
    (a, b ∙ r.limit, omega (arith, d, moved))

gs_init-IsSound : (window_limit : ℕ) → IsSound (gs_init window_limit)
unfolding gs_init
gs_init-IsSound window_limit = record {
  window = omega arith;
  counted = λ i.
      rw (get_or-replicate gs_max_pids i (new_slot (pos 0) false))
        (new_slot-IsCounted (pos 0) false, omega arith);
}

gs_init_limit : (w : ℕ) → w < 2 ^ 31 → (gs_init w).window_limit < 2 ^ 31
unfolding gs_init
gs_init_limit w h = ground arith

-- For a sketch of a window below 2 ^ 31, after any calls of `guardSketchRecord`: the events of the
-- window are at most its limit, every call is counted as an event or as dropped, and in every slot
-- each estimate is at least the exact counter and at most twice the events, so the approximate risk
-- is never below the exact risk.
pub guard_sketch_lem :
    (window_limit : ℕ) (calls : List (ℤ × Signal))
    → window_limit < 2 ^ 31
    → length calls < 2 ^ 64
    → let sk = run (gs_init window_limit) calls in
      (sk.window_events ≤ (gs_init window_limit).window_limit)
      × (sk.window_events + sk.dropped_events ≡ length calls)
      × ((i : ℕ) (sig : Signal)
          → let s = slot_at sk.slots i in
            (exact_of s sig ≤ gs_cms_estimate s sig)
            × (gs_cms_estimate s sig ≤ 2 * s.exact_events)
            × (exact_risk s ≤ approx_risk s))
unfolding gs_init
guard_sketch_lem w calls lim few =
    let start = gs_init w in
    let l = gs_init_limit w lim in
    let (sound, same, sum) =
      run-IsSound start calls (gs_init-IsSound w) l (omega (arith, few, zeros w)) in
    (
      omega (arith, sound.window, same),
      omega (arith, sum, zeros w),
      λ i sig.
          let s = slot_at (run start calls).slots i in
          let (c, le) = sound.counted i in
          let small : s.exact_events < 2 ^ 31 = omega (arith, le, sound.window, same, l) in
          let (lo, hi) = estimate_bounds s sig c small in (lo, hi, risk-IsCounted s c small),
    )
  where
    zeros : (w : ℕ) → (gs_init w).window_events + (gs_init w).dropped_events ≡ 0
    zeros w = refl
