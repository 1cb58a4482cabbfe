-- ===== src/AgentGuard/Monitor/Tracee.antt =====
-- src/monitor.c: reading the memory of the traced process, a word at a time, and joining paths. What
-- PTRACE_PEEKDATA answers at an address is a parameter: the eight bytes of the word, the lowest
-- address first, and whether `errno` is set after the call.
pub mod Strings
pub mod Paths
use agent_guard_fast_path.Common.{
  ℕ, zero, suc, ◌+◌, ◌-◌, Bool, true, false, not, ◌&&◌, ◌||◌, List, [], ◌∷◌, ◌++◌, Str, ltb, leb,
  ◌==◌, if◌then◌else◌, length, get_or, take, drop, ℤ, pos, negsuc, u64,
}

pub record Peeked : Type 0 where
  pub bytes : List ℕ
  pub errno : Bool

-- `word < 0 && errno`
unfoldable pub peek_failed : Peeked → Bool
peek_failed w = leb 128 (get_or w.bytes 7 0) && w.errno

-- The loop over the bytes of a word, with room for `left` bytes: what it copies, and whether it met
-- the NUL.
unfoldable pub copy_word : List ℕ → ℕ → Str × Bool
copy_word [] left = ([], false)
copy_word (c ∷ cs) zero = ([], false)
copy_word (c ∷ cs) (suc left) =
    let (s, ended) = copy_word cs left in if c == 0 then ([], true) else (c ∷ s, ended)

-- The loop over the words, at the address `addr + i` with `left` for `maxlen - 1 - i`. Each round but
-- the last copies a byte at least, so that `left` is enough fuel.
unfoldable pub read_words : (ℕ → Peeked) → ℕ → ℕ → ℕ → ℤ × Str
read_words peek zero addr left = (pos 0, [])
read_words peek (suc fuel) addr left =
    let (s, ended) = copy_word (peek addr).bytes left in
    let (code, rest) = read_words peek fuel (u64 (addr + length s)) (left - length s) in
    if left == 0
    then (pos 0, [])
    else if peek_failed (peek addr)
    then (negsuc 0, [])
    else if ended
    then (pos 0, s)
    else (code, s ++ rest)

-- The result and the string in `buf`, for `maxlen` of at least 1.
unfoldable pub ag_monitor_read_string : (ℕ → Peeked) → ℕ → ℕ → ℤ × Str
ag_monitor_read_string peek addr maxlen = read_words peek (maxlen - 1) addr (maxlen - 1)

-- The loop over the words of a buffer whose rest is `buf`; fuel for its length.
unfoldable pub buffer_words : (ℕ → Peeked) → ℕ → ℕ → List ℕ → ℤ × List ℕ
buffer_words peek zero addr buf = (pos 0, buf)
buffer_words peek (suc fuel) addr [] = (pos 0, [])
buffer_words peek (suc fuel) addr (b ∷ buf) =
    let (code, rest) = buffer_words peek fuel (u64 (addr + 8)) (drop 8 (b ∷ buf)) in
    if peek_failed (peek addr)
    then (negsuc 0, b ∷ buf)
    else (code, take (length (take 8 (b ∷ buf))) (peek addr).bytes ++ rest)

-- `len` is the length of `buf`, whose bytes stay where the read fails.
unfoldable pub ag_monitor_read_buffer : (ℕ → Peeked) → ℕ → List ℕ → ℤ × List ℕ
ag_monitor_read_buffer peek addr buf = buffer_words peek (length buf) addr buf

-- The text of `dst`; nothing is written for a size of 0.
unfoldable pub ag_monitor_join_path : Str → ℕ → Str → Str → Str
ag_monitor_join_path dst dst_size dirpath relpath =
    if dst_size == 0
    then dst
    else (let dir = take (dst_size - 1) dirpath in
        let n = length dir in
        let base =
          if ltb (n + 1) dst_size && (n == 0 || not (get_or dir (n - 1) 0 == b'/'))
          then dir ++ b'/' ∷ []
          else dir in
        base ++ take (dst_size - 1 - length base) relpath)
