-- ===== src/AgentGuard/Monitor/Tracee/Paths.antt =====
-- Joining a directory and a path.
use native.Mathlib.Numerals.{unary_clauses}
use agent_guard_fast_path.Common.{
  ℕ, zero, suc, ◌-◌, ◌≤◌, ◌<◌, ◌≡◌, refl, ap, Bool, false, not, ◌||◌, [], ◌∷◌, ◌++◌, Str, ltb, ◌==◌,
  arith, if◌then◌else◌, Bool-cases, inl, inr, length, get_or, take, take_all, length-take,
  length-append, append_assoc,
}
use agent_guard_fast_path.AgentGuard.Monitor.Tracee.{ag_monitor_join_path}

-- The last byte is a slash.
unfoldable pub ends_in_slash : Str → Bool
ends_in_slash [] = false
ends_in_slash (c ∷ []) = c == b'/'
ends_in_slash (c ∷ d ∷ s) = ends_in_slash (d ∷ s)

-- The directory and the path with one slash between them.
unfoldable pub joined : Str → Str → Str
joined dir rel = if ends_in_slash dir then dir ++ rel else dir ++ b'/' ∷ rel

slash_test :
    (s : Str) → (length s == 0 || not (get_or s (length s - 1) 0 == b'/')) ≡ not (ends_in_slash s)
unfolding ends_in_slash
slash_test [] = refl
slash_test (c ∷ []) = ground arith
slash_test (c ∷ d ∷ s) = ground (arith, slash_test (d ∷ s))

take-append :
    (n : ℕ) (xs ys : Str) → take n (xs ++ ys) ≡ take n xs ++ take (n - length (take n xs)) ys
take-append zero xs ys = refl
take-append (suc n) [] ys = simp unary_clauses refl
take-append (suc n) (x ∷ xs) ys = simp unary_clauses (ap (λ (t : Str). x ∷ t) (take-append n xs ys))

-- The directory does not fill the buffer.
join_short :
    (dst dir rel : Str) (m : ℕ)
    → length dir < m
    → ag_monitor_join_path dst (suc m) dir rel ≡ take m (joined dir rel)
unfolding ag_monitor_join_path joined
join_short dst dir rel m h = elim (Bool-cases (ends_in_slash dir)) [
  | inl e ↦ ground (arith, e, slash_test dir, take_all m dir, take-append m dir rel)
  | inr e ↦ ground (
    arith,
    e,
    slash_test dir,
    take_all m dir,
    take-append m (dir ++ b'/' ∷ []) rel,
    take_all m (dir ++ b'/' ∷ []),
    length-append dir (b'/' ∷ []),
    append_assoc dir (b'/' ∷ []) rel,
  )
]

join_long :
    (dst dir rel : Str) (m : ℕ)
    → m ≤ length dir
    → ag_monitor_join_path dst (suc m) dir rel ≡ take m (joined dir rel)
unfolding ag_monitor_join_path joined
join_long dst dir rel m h =
    ground (arith, length-take m dir, take-append m dir rel, take-append m dir (b'/' ∷ rel))

-- A directory and a relative path are joined with exactly one slash between them, whether the
-- directory ends in one or not, and the result is cut to the size of its buffer, which is not 0.
pub ag_monitor_join_path_lem :
    (dst dir rel : Str) (dst_size : ℕ)
    → 0 < dst_size
    → ag_monitor_join_path dst dst_size dir rel ≡ take (dst_size - 1) (joined dir rel)
ag_monitor_join_path_lem dst dir rel zero h = absurd (omega arith)
ag_monitor_join_path_lem dst dir rel (suc m) h =
    simp unary_clauses (elim (Bool-cases (ltb (length dir) m)) [
      | inl e ↦ join_short dst dir rel m (ground (arith, e))
      | inr e ↦ join_long dst dir rel m (ground (arith, e))
    ])
