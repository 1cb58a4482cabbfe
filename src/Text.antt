-- ===== src/Text.antt =====
-- The string helpers of src/common.c. A `char *` that is not NULL is the list of its bytes before
-- the terminating NUL; the C locale is assumed for `tolower` and `isspace`. A writer to a stream
-- returns the bytes that it writes.
pub mod Laws
mod Tests
use Prim.Native.Char.{code}
use Prim.Native.String.{String}
use agent_guard_fast_path.Common.{
  ℕ, zero, suc, ◌+◌, ◌-◌, ◌/◌, ◌%◌, Bool, true, false, ◌&&◌, ◌||◌, List, [], ◌∷◌, ◌++◌, Str, ltb,
  leb, ◌==◌, if◌then◌else◌, is_empty, length, get_or, take,
}

-- The bytes of a string literal.
abbrev pub codes : String → Str
codes String.[] = []
codes (String.◌∷◌ c s) = code c ∷ codes s

-- `dst_size` bytes at `dst`, which hold the string `dst`.
unfoldable pub copy_trunc : Str → ℕ → Str → Str
copy_trunc dst dst_size src =
    if dst_size == 0
    then dst
    else take (if leb dst_size (length src) then dst_size - 1 else length src) src

abbrev pub is_eol : ℕ → Bool
is_eol c = c == b'\n' || c == b'\r'

-- The loop over `n`, which leaves the `n` first bytes.
trim_newline_from : ℕ → Str → Str
trim_newline_from zero s = []
trim_newline_from (suc n) s =
    let rest = trim_newline_from n s in if is_eol (get_or s n 0) then rest else take (suc n) s

unfoldable pub trim_newline : Str → Str
unfolding trim_newline_from
trim_newline s = trim_newline_from (length s) s

unfoldable pub tolower : ℕ → ℕ
tolower c = if leb b'A' c && leb c b'Z' then c + 32 else c

unfoldable pub str_ieq : Str → Str → Bool
unfolding tolower
str_ieq [] b = is_empty b
str_ieq (x ∷ a) [] = false
str_ieq (x ∷ a) (y ∷ b) = (tolower x == tolower y) && str_ieq a b

-- `strchr(s, c) != NULL` for a byte that is not NUL
unfoldable pub strchr : Str → ℕ → Bool
strchr [] c = false
strchr (x ∷ s) c = x == c || strchr s c

unfoldable pub contains_glob : Str → Bool
unfolding strchr
contains_glob s = strchr s b'*' || strchr s b'?' || strchr s b'['

unfoldable pub safe_str : Str → Str
safe_str s = if is_empty s then codes "-" else s

abbrev pub isspace : ℕ → Bool
isspace c = c == 32 || leb 9 c && leb c 13

unfoldable pub skip_ws : Str → Str
skip_ws [] = []
skip_ws (c ∷ p) = let rest = skip_ws p in if isspace c then rest else c ∷ p

-- A lower-case hexadecimal digit, as `%x` prints it.
abbrev pub hex_digit : ℕ → ℕ
hex_digit d = if ltb d 10 then d + b'0' else d - 10 + b'a'

-- One byte of a JSON string; `\u%04x` of a byte below 32.
unfoldable pub json_escape : ℕ → Str
json_escape c =
    if c == b'"'
    then b'\\' ∷ b'"' ∷ []
    else if c == b'\\'
    then b'\\' ∷ b'\\' ∷ []
    else if c == b'\n'
    then b'\\' ∷ b'n' ∷ []
    else if c == b'\r'
    then b'\\' ∷ b'r' ∷ []
    else if c == b'\t'
    then b'\\' ∷ b't' ∷ []
    else if ltb c 32
    then b'\\' ∷ b'u' ∷ b'0' ∷ b'0' ∷ hex_digit (c / 16) ∷ hex_digit (c % 16) ∷ []
    else c ∷ []

unfoldable pub json_write_body : Str → Str
unfolding json_escape
json_write_body [] = []
json_write_body (c ∷ s) = json_escape c ++ json_write_body s

unfoldable pub json_write_string : Str → Str
unfolding json_write_body
json_write_string s = b'"' ∷ (json_write_body s ++ (b'"' ∷ []))

html_escape : ℕ → Str
html_escape c =
    if c == b'&'
    then codes "&amp;"
    else if c == b'<'
    then codes "&lt;"
    else if c == b'>'
    then codes "&gt;"
    else if c == b'"'
    then codes "&quot;"
    else c ∷ []

pub html_write_escaped : Str → Str
unfolding html_escape
html_write_escaped [] = []
html_write_escaped (c ∷ s) = html_escape c ++ html_write_escaped s
