-- ===== src/Sketch/Hll/Registers.antt =====
-- The registers depend only on the set of keys that were added.
use agent_guard_fast_path.Common.{
  ℕ, ◌≤◌, ◌≡◌, refl, sym, ◌∙◌, ap, max, true, List, [], ◌∷◌, Str, arith, ◌==◌, if◌then◌else◌,
  is_empty, length, get_or, get_or-set, length-set, get_or_ext, length-replicate, get_or-replicate,
  Bool-cases, inl, inr, str_eq, str_eq_iff, str_eq_self, false≢true,
}
use agent_guard_fast_path.StringList.{contains}
use agent_guard_fast_path.Sketch.Hll.{Hll, hll_m, hll_init, hll_idx, key_rank, hll_add}
use agent_guard_fast_path.Sketch.Hll.Rank.{idx-lt, key_rank_bounds, CountsLeadingZeros}

length-hll_init : length hll_init.registers ≡ hll_m
unfolding hll_init
length-hll_init = length-replicate hll_m 0

zero_register : (i : ℕ) → get_or hll_init.registers i 0 ≡ 0
unfolding hll_init
zero_register i = get_or-replicate hll_m i 0

module _ (clzll : ℕ → ℕ) where
  -- A stream of calls `hll_add(hll, key)`.
  unfoldable pub run : Hll → List Str → Hll
  run hll [] = hll
  run hll (key ∷ keys) = run (hll_add clzll hll key) keys

  -- The greatest rank among the non-empty keys of register `i`.
  unfoldable pub peak : ℕ → List Str → ℕ
  peak i [] = 0
  peak i (key ∷ keys) =
      max (if is_empty key then 0 else if hll_idx key == i then key_rank clzll key else 0)
        (peak i keys)

  length-hll_add :
      (hll : Hll) (key : Str) → length (hll_add clzll hll key).registers ≡ length hll.registers
  unfolding hll_add
  length-hll_add hll key =
      ground (arith, length-set hll.registers (hll_idx key) (key_rank clzll key))

  register-hll_add :
      (hll : Hll) (key : Str) (i : ℕ)
      → length hll.registers ≡ hll_m
      → get_or (hll_add clzll hll key).registers i 0
        ≡ max
            (get_or hll.registers i 0)
            (if is_empty key then 0 else if hll_idx key == i then key_rank clzll key else 0)
  unfolding hll_add
  register-hll_add hll key i e = ground (
    arith,
    idx-lt key,
    get_or-set hll.registers (hll_idx key) i (key_rank clzll key) 0,
    ap (λ (t : ℕ). get_or hll.registers t 0) {x = hll_idx key} {y = i},
  )

  length-run :
      (hll : Hll) (keys : List Str) → length (run hll keys).registers ≡ length hll.registers
  unfolding run
  length-run hll [] = refl
  length-run hll (key ∷ keys) = length-run (hll_add clzll hll key) keys ∙ length-hll_add hll key

  register-run :
      (hll : Hll) (keys : List Str) (i : ℕ)
      → length hll.registers ≡ hll_m
      → get_or (run hll keys).registers i 0 ≡ max (get_or hll.registers i 0) (peak i keys)
  unfolding run peak
  register-run hll [] i e = omega arith
  register-run hll (key ∷ keys) i e = omega (
    arith,
    register-run (hll_add clzll hll key) keys i (length-hll_add hll key ∙ e),
    register-hll_add hll key i e,
  )

  peak-le : (keys : List Str) (i : ℕ) → CountsLeadingZeros clzll → peak i keys ≤ 51
  unfolding peak
  peak-le [] i c = omega arith
  peak-le (key ∷ keys) i c = ground (arith, peak-le keys i c, key_rank_bounds clzll key c)

  abbrev contribution : ℕ → Str → ℕ
  contribution i key =
      if is_empty key then 0 else if hll_idx key == i then key_rank clzll key else 0

  contribution-le-peak :
      (i : ℕ) (key : Str) (keys : List Str)
      → contains keys key ≡ true
      → contribution i key ≤ peak i keys
  unfolding peak contains
  contribution-le-peak i key [] h = absurd (false≢true h)
  contribution-le-peak i key (k ∷ keys) h = elim (Bool-cases (str_eq k key)) [
    | inl e ↦ rw (← (str_eq_iff k key).0 e) (omega arith)
    | inr ne ↦ omega (arith, contribution-le-peak i key keys (ground arith))
  ]

  peak_mono :
      (i : ℕ) (xs ys : List Str)
      → ((key : Str) → contains xs key ≡ true → contains ys key ≡ true)
      → peak i xs ≤ peak i ys
  unfolding peak contains
  peak_mono i [] ys h = omega arith
  peak_mono i (x ∷ xs) ys h = omega (
    arith,
    contribution-le-peak i x ys (h x (rw (str_eq_self x))),
    peak_mono i xs ys (λ key k. h key (ground arith)),
  )

  -- Two streams with the same keys, in whatever order and however often, leave the same registers.
  -- So a repeated key never raises the estimate.
  pub run_same_keys :
      (xs ys : List Str)
      → ((key : Str) → contains xs key ≡ contains ys key)
      → run hll_init xs ≡ run hll_init ys
  run_same_keys xs ys h =
      let same : (run hll_init xs).registers ≡ (run hll_init ys).registers =
        get_or_ext 0 _ _ (length-run hll_init xs ∙ sym (length-run hll_init ys)) (λ i. omega (
          arith,
          register-run hll_init xs i length-hll_init,
          register-run hll_init ys i length-hll_init,
          peak_mono i xs ys (λ key k. sym (h key) ∙ k),
          peak_mono i ys xs (λ key k. h key ∙ k),
        )) in
      λ i. record { registers = same i }

  -- After any stream each register holds the greatest rank among the non-empty keys that hash to it,
  -- 0 if there is none, and never more than 51.
  pub register-run-hll_init :
      (keys : List Str) (i : ℕ)
      → CountsLeadingZeros clzll
      → (get_or (run hll_init keys).registers i 0 ≡ peak i keys)
        × (get_or (run hll_init keys).registers i 0 ≤ 51)
  register-run-hll_init keys i c =
      omega (arith, register-run hll_init keys i length-hll_init, zero_register i, peak-le keys i c)
