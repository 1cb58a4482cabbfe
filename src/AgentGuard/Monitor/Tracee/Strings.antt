-- ===== src/AgentGuard/Monitor/Tracee/Strings.antt =====
-- Reading word by word is reading byte by byte.
use agent_guard_fast_path.Common.{
  ℕ, zero, suc, ◌+◌, ◌-◌, min, ◌≤◌, ◌≡◌, refl, sym, ap, ap₂, ◌∙◌, true, false, List, [], ◌∷◌, ◌++◌,
  Str, ◌==◌, arith, if◌then◌else◌, Bool-cases, inl, inr, length, pos, u64,
}
use agent_guard_fast_path.AgentGuard.Monitor.Tracee.{
  Peeked, peek_failed, copy_word, read_words, ag_monitor_read_string,
}

-- `n` bytes of the memory from an address on.
abbrev pub bytes_at : (ℕ → ℕ) → ℕ → ℕ → List ℕ
bytes_at memory addr zero = []
bytes_at memory addr (suc n) = memory (u64 addr) ∷ bytes_at memory (addr + 1) n

-- The string at an address, cut behind `n` bytes.
unfoldable pub string_at : (ℕ → ℕ) → ℕ → ℕ → Str
string_at memory addr zero = []
string_at memory addr (suc n) =
    let rest = string_at memory (addr + 1) n in
    if memory (u64 addr) == 0 then [] else memory (u64 addr) ∷ rest

-- The kernel answers each peek with the bytes of the memory.
abbrev pub Answers : (ℕ → ℕ) → (ℕ → Peeked) → Type 0
Answers memory peek =
    (addr : ℕ) → ((peek addr).bytes ≡ bytes_at memory addr 8) × (peek_failed (peek addr) ≡ false)

string_at_wrapped :
    (memory : ℕ → ℕ) (a b n : ℕ) → u64 a ≡ u64 b → string_at memory a n ≡ string_at memory b n
unfolding string_at
string_at_wrapped memory a b zero e = refl
string_at_wrapped memory a b (suc n) e =
    rw (e, string_at_wrapped memory (a + 1) (b + 1) n (omega (arith, e))) refl

-- A word that ends the string.
copy_word_ends :
    (memory : ℕ → ℕ) (addr k left : ℕ)
    → (copy_word (bytes_at memory addr k) left).1 ≡ true
    → string_at memory addr left ≡ (copy_word (bytes_at memory addr k) left).0
unfolding copy_word string_at
copy_word_ends memory addr zero left h = cc
copy_word_ends memory addr (suc k) zero h = cc
copy_word_ends memory addr (suc k) (suc left) h = elim (Bool-cases (memory (u64 addr) == 0)) [
  | inl e ↦ rw e refl
  | inr e ↦ rw e (
      ap (λ (s : Str). memory (u64 addr) ∷ s) (copy_word_ends memory (addr + 1) k left (rw e at h)))
]

-- A word that does not is copied as far as there is room, and the string goes on behind it.
copy_word_goes_on :
    (memory : ℕ → ℕ) (addr k left : ℕ)
    → (copy_word (bytes_at memory addr k) left).1 ≡ false
    → let s = (copy_word (bytes_at memory addr k) left).0 in
      (length s ≡ min k left)
      × (string_at memory addr left ≡ s ++ string_at memory (addr + length s) (left - length s))
unfolding copy_word string_at
copy_word_goes_on memory addr zero left h =
    (omega arith, ap₂ (string_at memory) (omega arith) (omega arith))
copy_word_goes_on memory addr (suc k) zero h = (omega arith, refl)
copy_word_goes_on memory addr (suc k) (suc left) h = elim (Bool-cases (memory (u64 addr) == 0)) [
  | inl e ↦ cc
  | inr e ↦
      let (len, more) = copy_word_goes_on memory (addr + 1) k left (rw e at h) in
      rw e (
        omega (arith, len),
        ap (λ (s : Str). memory (u64 addr) ∷ s)
            (more
              ∙ ap (λ (t : Str). (copy_word (bytes_at memory (addr + 1) k) left).0 ++ t)
                  (ap₂ (string_at memory) (omega arith) (omega arith))),
      )
]

suc_eq_zero : (n : ℕ) → (suc n == 0) ≡ false
suc_eq_zero n = ground arith

read_words_lem :
    (memory : ℕ → ℕ) (peek : ℕ → Peeked)
    → Answers memory peek
    → (fuel addr left : ℕ) → left ≤ fuel
    → read_words peek fuel addr left ≡ (pos 0, string_at memory addr left)
unfolding read_words string_at
read_words_lem memory peek answers zero addr zero h = refl
read_words_lem memory peek answers zero addr (suc left) h = absurd (omega arith)
read_words_lem memory peek answers (suc fuel) addr zero h = refl
read_words_lem memory peek answers (suc fuel) addr (suc left) h =
    rw (suc_eq_zero left, (answers addr).1, (answers addr).0)
      (elim (Bool-cases (copy_word (bytes_at memory addr 8) (suc left)).1) [
        | inl e ↦
            rw e (ap (λ (s : Str). (pos 0, s)) (sym (copy_word_ends memory addr 8 (suc left) e)))
        | inr e ↦
            let (len, more) = copy_word_goes_on memory addr 8 (suc left) e in
            let s = (copy_word (bytes_at memory addr 8) (suc left)).0 in
            let rest =
              read_words_lem memory peek answers fuel (u64 (addr + length s)) (suc left - length s)
                (omega (arith, len)) in
            rw (e, rest)
              (ap (λ (t : Str). (pos 0, t))
                (ap (λ (t : Str). s ++ t)
                    (string_at_wrapped memory (u64 (addr + length s)) (addr + length s)
                      (suc left - length s) (omega arith))
                  ∙ sym more))
      ])

-- With room for `maxlen` bytes, reading a string of the traced process word by word gives the string
-- that stands in its memory byte by byte up to the NUL, cut behind `maxlen - 1` bytes, if the kernel
-- answers each peek.
pub ag_monitor_read_string-string_at :
    (memory : ℕ → ℕ) (peek : ℕ → Peeked) (addr maxlen : ℕ)
    → Answers memory peek
    → ag_monitor_read_string peek addr maxlen ≡ (pos 0, string_at memory addr (maxlen - 1))
unfolding ag_monitor_read_string
ag_monitor_read_string-string_at memory peek addr maxlen answers =
    read_words_lem memory peek answers (maxlen - 1) addr (maxlen - 1) (omega arith)
