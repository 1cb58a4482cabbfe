-- ===== src/AgentGuard/Syscalls/Lookup.antt =====
-- The lookup by number undoes the lookup by name.
use agent_guard_fast_path.Common.{
  ℕ, ◌+◌, ◌≤◌, ◌≡◌, refl, ap, Bool, true, ◌&&◌, List, [], ◌∷◌, Str, str_eq, str_eq_iff, leb, arith,
  Bool-cases, inl, inr, ℤ, pos, negsuc,
}
use agent_guard_fast_path.AgentGuard.Syscalls.{
  entries, split_words, numbered, syscall_table, name_in, number_in, ag_syscall_name,
  ag_syscall_number,
}

-- The numbers of a table rise, from `low` at least.
ascending : ℕ → List (ℕ × Str) → Bool
ascending low [] = true
ascending low (e ∷ table) = leb low e.0 && ascending (e.0 + 1) table

syscall_table-ascending : ascending 0 syscall_table ≡ true
unfolding ascending syscall_table entries split_words numbered
syscall_table-ascending = refl

pos_of : ℤ → ℕ
pos_of (pos n) = n
pos_of (negsuc n) = 0

name_in-number_in :
    (table : List (ℕ × Str)) (low n : ℕ) (name : Str)
    → ascending low table ≡ true
    → number_in table name ≡ pos n
    → (low ≤ n) × (name_in table (pos n) ≡ name)
unfolding ascending name_in number_in
name_in-number_in [] low n name up e = cc
name_in-number_in (x ∷ table) low n name up e = elim (Bool-cases (str_eq x.1 name)) [
  | inl same ↦
      let at : x.0 ≡ n = unfold pos_of in ap pos_of (rw same at e) in
      (ground (arith, at), ground (arith, at, str_eq_iff x.1 name))
  | inr other ↦
      let (above, found) =
        name_in-number_in table (x.0 + 1) n name (ground arith) (rw other at e) in
      (ground (arith, above), ground (arith, above, found))
]

-- A name that the table has a number for is the name that it has for that number.
pub ag_syscall_name-ag_syscall_number :
    (name : Str) (n : ℕ) → ag_syscall_number name ≡ pos n → ag_syscall_name (pos n) ≡ name
unfolding ag_syscall_name ag_syscall_number
ag_syscall_name-ag_syscall_number name n e =
    (name_in-number_in syscall_table 0 n name syscall_table-ascending e).1
