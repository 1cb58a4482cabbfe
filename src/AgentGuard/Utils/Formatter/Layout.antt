-- ===== src/AgentGuard/Utils/Formatter/Layout.antt =====
-- What the formatter writes when the object fits.
use agent_guard_fast_path.Common.{
  ℕ, ◌+◌, ◌-◌, ◌<◌, ◌≡◌, refl, sym, ap, ◌∙◌, some, List, [], ◌∷◌, ◌++◌, Str, length, get_or, take,
  arith, length-append, append_nil, append_assoc, take_all,
}
use agent_guard_fast_path.Text.{codes}
use agent_guard_fast_path.AgentGuard.Utils.Formatter.{
  Out, append, ag_json_begin_object, ag_json_end_object, Field, piece, ag_json_add, add_all,
  json_object,
}

-- The members of an object with a comma between two.
unfoldable pub commas : List Field → Str
commas [] = []
commas (f ∷ []) = piece f
commas (f ∷ g ∷ fs) = piece f ++ b',' ∷ commas (g ∷ fs)

-- The members with a comma behind each.
members : List Field → Str
members [] = []
members (f ∷ fs) = (piece f ++ b',' ∷ []) ++ members fs

abbrev pub holding : Str → Out
holding t = record { text = t; at = length t }

append_fits :
    (buflen : ℕ) (t s : Str)
    → length t + length s < buflen
    → append buflen (holding t) s ≡ some (holding (t ++ s))
unfolding append
append_fits buflen t s h =
    ground (arith, take_all (length t) t, take_all (buflen - length t - 1) s, length-append t s)

-- One more field, in room for it.
add_fits :
    (buflen : ℕ) (t : Str) (f : Field)
    → length t + length (piece f ++ b',' ∷ []) < buflen
    → ag_json_add buflen (holding t) f ≡ some (holding (t ++ (piece f ++ b',' ∷ [])))
unfolding ag_json_add
add_fits buflen t f h = append_fits buflen t (piece f ++ b',' ∷ []) h

add_all_fits :
    (buflen : ℕ) (t : Str) (fs : List Field)
    → length t + length (members fs) < buflen
    → add_all buflen (holding t) fs ≡ some (holding (t ++ members fs))
unfolding add_all members
add_all_fits buflen t [] h = ap (λ (s : Str). some (holding s)) (sym (append_nil t))
add_all_fits buflen t (f ∷ fs) h =
    rw
      (
        add_all,
        add_fits buflen t f (omega (arith, length-append (piece f ++ b',' ∷ []) (members fs))),
      )
      (add_all_fits buflen (t ++ (piece f ++ b',' ∷ [])) fs (
          omega (
            arith,
            length-append (piece f ++ b',' ∷ []) (members fs),
            length-append t (piece f ++ b',' ∷ []),
          ))
        ∙ ap (λ (s : Str). some (holding s)) (append_assoc t (piece f ++ b',' ∷ []) (members fs)))

-- What is in front of the closing brace.
members-commas : (f : Field) (fs : List Field) → members (f ∷ fs) ≡ commas (f ∷ fs) ++ b',' ∷ []
unfolding members commas
members-commas f [] = append_nil (piece f ++ b',' ∷ [])
members-commas f (g ∷ fs) =
    append_assoc (piece f) (b',' ∷ []) (members (g ∷ fs))
    ∙ ap (λ (s : Str). piece f ++ b',' ∷ s) (members-commas g fs)
    ∙ sym (append_assoc (piece f) (b',' ∷ commas (g ∷ fs)) (b',' ∷ []))

last_of : (t : Str) → get_or (t ++ b',' ∷ []) (length t) 0 ≡ b','
last_of [] = refl
last_of (x ∷ t) = last_of t

take_before : (t u : Str) → take (length t) (t ++ u) ≡ t
take_before [] u = refl
take_before (x ∷ t) u = ap (λ s. x ∷ s) (take_before t u)

-- The comma before the brace is overwritten.
end_fits :
    (buflen : ℕ) (t : Str)
    → length t + 1 < buflen
    → ag_json_end_object buflen (holding (t ++ b',' ∷ [])) ≡ some (holding (t ++ codes "}"))
unfolding ag_json_end_object append
end_fits buflen t h = ground (
  arith,
  length-append t (b',' ∷ []),
  length-append t (codes "}"),
  last_of t,
  take_before t (b',' ∷ []),
  take_all (buflen - length t - 1) (codes "}"),
)

begin_fits : (buflen : ℕ) → 1 < buflen → ag_json_begin_object buflen ≡ some (holding (codes "{"))
unfolding ag_json_begin_object
begin_fits buflen h = append_fits buflen [] (codes "{") h

-- An object with at least one member is written as its members between braces, with a comma between
-- two and none behind the last, in a buffer that is longer than the text by one byte at least; its
-- position is then the length of the text.
pub json_object_lem :
    (buflen : ℕ) (f : Field) (fs : List Field)
    → length (commas (f ∷ fs)) + 2 < buflen
    → json_object buflen (f ∷ fs) ≡ some (holding (b'{' ∷ commas (f ∷ fs) ++ codes "}"))
unfolding json_object
json_object_lem buflen f fs h =
    rw (json_object, begin_fits buflen (omega arith))
      (rw
        (add_all_fits buflen (codes "{") (f ∷ fs) (
          omega
            (arith, ap length (members-commas f fs), length-append (commas (f ∷ fs)) (b',' ∷ []))))
        (rw (members-commas f fs) (end_fits buflen (b'{' ∷ commas (f ∷ fs)) (omega arith))))
