-- ===== src/Text.antt =====
-- What the API uses of ECMAScript's strings: `trim`, `startsWith` with `slice`, and the order `<`.
-- Positions are not used; characters are code points.
use Prim.Native.Char.{Char, code}
use Prim.Native.Nat.{Ordering}
use Prim.Native.String.{String, [], ◌∷◌, compare}
use mathlib.Core.Bool.{Bool, true, false, ◌&&◌, ◌||◌}
use mathlib.Core.Option
use mathlib.Core.Option.{Option, none, some}
use manage_call_ai.Base.{str_eq, if◌then◌else◌, leb, ◌==◌}

-- WhiteSpace and LineTerminator of ECMA-262.
is_space : Char → Bool
is_space c =
    (leb 9 (code c) && leb (code c) 13)
    || (code c == 32
        || (code c == 160
            || (code c == 5760
                || ((leb 8192 (code c) && leb (code c) 8202)
                    || (code c == 8232
                        || (code c == 8233
                            || (code c == 8239
                                || (code c == 8287 || (code c == 12288 || code c == 65279)))))))))

trim_start : String → String
trim_start [] = []
trim_start (c ∷ s) = if is_space c then trim_start s else c ∷ s

trim_end : String → String
trim_end [] = []
trim_end (c ∷ s) = let rest = trim_end s in if is_space c && str_eq rest "" then [] else c ∷ rest

unfoldable pub trim : String → String
unfolding trim_start trim_end is_space
trim s = trim_end (trim_start s)

-- `s.startsWith(prefix) ? s.slice(prefix.length) : …`.
unfoldable pub strip_prefix : String → String → Option String
strip_prefix [] s = some s
strip_prefix (c ∷ p) [] = none
strip_prefix (c ∷ p) (d ∷ s) = if code c == code d then strip_prefix p s else none

unfoldable pub strip_suffix : String → String → Option String
strip_suffix suffix [] = if str_eq [] suffix then some [] else none
strip_suffix suffix (c ∷ s) =
    let rest = strip_suffix suffix s in
    if str_eq (c ∷ s) suffix then some [] else Option.map (λ r. c ∷ r) rest

-- LineTerminator, which `.` does not match.
unfoldable pub has_line_end : String → Bool
has_line_end [] = false
has_line_end (c ∷ s) =
    (code c == 10 || (code c == 13 || (code c == 8232 || code c == 8233))) || has_line_end s

-- `a < b` and `a >= b` of two strings.
abbrev pub text_lt : String → String → Bool
text_lt a b = elim (compare a b) [ Ordering.lt ↦ true | _ ↦ false ]

abbrev pub text_ge : String → String → Bool
text_ge a b = elim (compare a b) [ Ordering.lt ↦ false | _ ↦ true ]

-- `[0-9]` and `[A-Za-z]`.
unfoldable pub is_digit : Char → Bool
is_digit c = leb 48 (code c) && leb (code c) 57

unfoldable pub is_letter : Char → Bool
is_letter c = (leb 65 (code c) && leb (code c) 90) || (leb 97 (code c) && leb (code c) 122)
