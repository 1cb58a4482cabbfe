-- ===== src/AgentGuard/Utils.antt =====
-- src/utils.c: the helpers of agentguard on strings and digests, and its JSON formatter. A string is
-- the list of its bytes before the NUL. The formatter's buffer is its text with the position `*pos`;
-- `none` stands for an access outside the buffer.
pub mod Formatter
mod Tests
use agent_guard_fast_path.Common.{
  ℕ, zero, suc, ◌+◌, ◌-◌, ◌*◌, ◌/◌, ◌%◌, Bool, true, false, not, ◌&&◌, Option, none, some, List, [],
  ◌∷◌, ◌++◌, Str, str_eq, ltb, leb, ◌==◌, if◌then◌else◌, is_empty, length, get_or, take, drop, ℤ,
  pos, negsuc,
}
use agent_guard_fast_path.Text.{hex_digit, codes, isspace, tolower}
use agent_guard_fast_path.Json.{starts_with}

unfoldable pub ag_strlcpy : Option Str → ℕ → Str
ag_strlcpy none dst_size = []
ag_strlcpy (some src) dst_size =
    take (if leb dst_size (length src) then dst_size - 1 else length src) src

unfoldable pub ag_str_startswith : Str → Str → Bool
ag_str_startswith str prefix = starts_with str prefix

unfoldable pub ag_str_endswith : Str → Str → Bool
ag_str_endswith str suffix =
    if ltb (length str) (length suffix)
    then false
    else str_eq (drop (length str - length suffix) str) suffix

unfoldable pub ag_str_tolower : Str → Str
ag_str_tolower [] = []
ag_str_tolower (x ∷ s) = tolower x ∷ ag_str_tolower s

unfoldable pub ag_str_replace_char : Str → ℕ → ℕ → Str
ag_str_replace_char [] from to = []
ag_str_replace_char (x ∷ s) from to = (if x == from then to else x) ∷ ag_str_replace_char s from to

-- `%02x` of each byte
unfoldable pub ag_hash_to_hex : List ℕ → Str
ag_hash_to_hex [] = []
ag_hash_to_hex (b ∷ hash) = hex_digit (b / 16) ∷ hex_digit (b % 16) ∷ ag_hash_to_hex hash

-- The digits of `%lu`, with fuel for their number.
unfoldable pub digits : ℕ → ℕ → Str → Str
digits zero n out = out
digits (suc fuel) n out =
    let rest = digits fuel (n / 10) ((b'0' + n % 10) ∷ out) in
    if ltb n 10 then (b'0' + n) ∷ out else rest

-- A `uint64_t` has 20 digits at most.
unfoldable pub show_lu : ℕ → Str
unfolding digits
show_lu n = digits 20 n []

-- `%ld` and `%d`
unfoldable pub show_ld : ℤ → Str
unfolding show_lu
show_ld (pos n) = show_lu n
show_ld (negsuc n) = b'-' ∷ show_lu (suc n)
