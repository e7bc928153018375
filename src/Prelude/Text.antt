-- ===== src/Prelude/Text.antt =====
-- Python's text methods that the code calls, on ASCII text: `strip`, `casefold` and `lower`,
-- `startswith` with the rest of the text, `find`, `split`.
use Prim.Native.Char.{Char, code}
use Prim.Native.String
use Prim.Native.String.{String, [], ◌∷◌, char_at}
use Prim.Native.Nat.{ℕ, zero, suc, ◌-◌, ◌/◌, ◌%◌}
use mathlib.Core.Bool.{Bool, true, false, ◌&&◌, ◌||◌}
use mathlib.Core.Option.{Option, none, some}
use mathlib.Core.List.{List}
use specseed.Prelude.Tests.{leb, ◌==◌, if◌then◌else◌, str_eq}

-- str.isspace for an ASCII character: tab to carriage return, the separators 28 to 31, space
unfoldable pub is_space : Char → Bool
is_space c = (leb 9 (code c) && leb (code c) 13) || (leb 28 (code c) && leb (code c) 32)

unfoldable pub lstrip : String → String
unfolding is_space
lstrip [] = []
lstrip (c ∷ s) = if is_space c then lstrip s else c ∷ s

unfoldable pub rstrip : String → String
unfolding is_space str_eq
rstrip [] = []
rstrip (c ∷ s) = let r = rstrip s in if is_space c && str_eq r "" then [] else c ∷ r

unfoldable pub strip : String → String
unfolding lstrip rstrip
strip s = rstrip (lstrip s)

unfoldable pub lower : Char → Char
lower c =
    if leb 65 (code c) && leb (code c) 90
    then char_at "abcdefghijklmnopqrstuvwxyz" (code c - 65)
    else c

unfoldable pub casefold : String → String
unfolding lower
casefold [] = []
casefold (c ∷ s) = lower c ∷ casefold s

-- text[len(p):] if text starts with p
unfoldable pub strip_prefix : String → String → Option String
strip_prefix [] s = some s
strip_prefix (d ∷ p) [] = none
strip_prefix (d ∷ p) (c ∷ s) =
    let rest = strip_prefix p s in if code c == code d then rest else none

-- str.startswith
unfoldable pub starts_with : String → String → Bool
unfolding strip_prefix
starts_with p s = elim (strip_prefix p s) [ none ↦ false | some _ ↦ true ]

-- the text before and after the first place where the mark m stands (`find`)
unfoldable pub cut_at : String → String → Option (String × String)
unfolding strip_prefix
cut_at m [] = elim (strip_prefix m []) [ none ↦ none | some r ↦ some ([], r) ]
cut_at m (c ∷ s) =
    let later = cut_at m s in
    elim (strip_prefix m (c ∷ s)) [
      | none ↦ elim later [ none ↦ none | some (a, b) ↦ some (c ∷ a, b) ]
      | some r ↦ some ([], r)
    ]

unfoldable pub push_char : Char → List String → List String
push_char c List.[] = List.◌∷◌ (c ∷ []) List.[]
push_char c (List.◌∷◌ w ws) = List.◌∷◌ (c ∷ w) ws

unfoldable pub words : (Char → Bool) → String → List String
unfolding push_char
words sep [] = List.◌∷◌ "" List.[]
words sep (c ∷ s) = let rest = words sep s in if sep c then List.◌∷◌ "" rest else push_char c rest

unfoldable pub filled : List String → List String
filled List.[] = List.[]
filled (List.◌∷◌ w ws) = let rest = filled ws in if str_eq w "" then rest else List.◌∷◌ w rest

-- the pieces between separators that are not empty, as `[p for p in re.split(…, s) if p]`
unfoldable pub split_on : (Char → Bool) → String → List String
unfolding words push_char filled str_eq
split_on sep s = filled (words sep s)

-- does the text contain m (`m in text`)
unfoldable pub has_part : String → String → Bool
unfolding cut_at
has_part m s = elim (cut_at m s) [ none ↦ false | some _ ↦ true ]

-- the digits of n before a text, by fuel that is above their number
unfoldable pub decimal_on : ℕ → ℕ → String → String
decimal_on zero n acc = acc
decimal_on (suc fuel) n acc =
    let more = decimal_on fuel (n / 10) (char_at "0123456789" (n % 10) ∷ acc) in
    if leb n 9 then char_at "0123456789" n ∷ acc else more

-- str(n); a number has no more digits than its size and one
unfoldable pub decimal : ℕ → String
unfolding decimal_on
decimal n = decimal_on (suc n) n ""

-- the texts one behind the other: a template that is filled, `"".join`
unfoldable pub cat : List String → String
cat List.[] = ""
cat (List.◌∷◌ s List.[]) = s
cat (List.◌∷◌ s (List.◌∷◌ t ts)) = String.◌++◌ s (cat (List.◌∷◌ t ts))
