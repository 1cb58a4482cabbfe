-- ===== src/Text/Tests.antt =====
-- Runs of the string helpers, and their theorems at concrete strings.
use agent_guard_fast_path.Common.{◌≡◌, refl, true, [], ◌∷◌, All}
use agent_guard_fast_path.Text.{
  codes, copy_trunc, trim_newline, str_ieq, contains_glob, safe_str, skip_ws, json_write_string,
  html_write_escaped,
}
use agent_guard_fast_path.Text.Laws.{IsHtmlText, html_write_escaped-IsHtmlText}

runs :
    (copy_trunc [] 4 (codes "abcdef") ≡ codes "abc")
    × (trim_newline (codes "ab\r\n") ≡ codes "ab")
    × (str_ieq (codes "Time") (codes "tIME") ≡ true)
    × (contains_glob (codes "/etc/*.conf") ≡ true)
    × (safe_str [] ≡ codes "-")
    × (skip_ws (codes "  x ") ≡ codes "x ")
unfolding copy_trunc trim_newline str_ieq contains_glob safe_str skip_ws
runs = (refl, refl, refl, refl, refl, refl)

json_writes : json_write_string (27 ∷ codes "a\"b\n") ≡ codes "\"\\u001ba\\\"b\\n\""
unfolding json_write_string
json_writes = refl

html_writes : html_write_escaped (codes "<a&b>") ≡ codes "&lt;a&amp;b&gt;"
unfolding html_write_escaped
html_writes = refl

html_write_escaped-IsHtmlText_example :
    All IsHtmlText (html_write_escaped (codes "<script>\"x\"</script>"))
html_write_escaped-IsHtmlText_example =
    html_write_escaped-IsHtmlText (codes "<script>\"x\"</script>")
