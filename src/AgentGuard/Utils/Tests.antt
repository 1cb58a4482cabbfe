-- ===== src/AgentGuard/Utils/Tests.antt =====
-- An object with two members.
use agent_guard_fast_path.Common.{◌≡◌, ◌<◌, ◌+◌, arith, some, [], ◌∷◌, ◌++◌, pos, length}
use agent_guard_fast_path.Text.{codes}
use agent_guard_fast_path.AgentGuard.Utils.Formatter.{text_field, int_field, json_object, piece}
use agent_guard_fast_path.AgentGuard.Utils.{show_ld, show_lu, digits}
use agent_guard_fast_path.AgentGuard.Utils.Formatter.Layout.{commas, holding, json_object_lem}

short :
    length
        (commas (text_field (codes "tool") (codes "guard") ∷ int_field (codes "pid") (pos 7) ∷ []))
      + 2
    < 64
unfolding commas piece show_ld show_lu digits
short = omega arith

json_object_lem_example :
    json_object 64
      (text_field (codes "tool") (codes "guard") ∷ int_field (codes "pid") (pos 7) ∷ [])
    ≡ some (
        holding (
          b'{'
            ∷ commas
                (text_field (codes "tool") (codes "guard") ∷ int_field (codes "pid") (pos 7) ∷ [])
          ++ codes "}"))
json_object_lem_example =
    json_object_lem 64 (text_field (codes "tool") (codes "guard"))
      (int_field (codes "pid") (pos 7) ∷ []) short
