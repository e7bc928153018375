-- ===== src/Runners/Match.antt =====
-- executing/quota.py: the pieces of its regular expressions on ASCII text, case ignored. A match is
-- what it says and the text behind it. Where the code's pattern could go back, no other choice
-- matches: a keyword starts with no space, a unit with no digit, and `\b` wants the whole word.
use Prim.Native.Char.{Char, code}
use Prim.Native.String.{[], ◌∷◌}
use Prim.Native.Nat.{◌-◌, ◌*◌}
use specseed.Prelude.{
  ℕ, ◌+◌, String, Bool, true, false, ◌&&◌, ◌||◌, Option, none, some, leb, ◌==◌, if◌then◌else◌,
}
use specseed.Prelude.Text.{is_space, lower, lstrip}

infixl 5 ◌>>=◌ ◌>>◌
abbrev pub ◌>>=◌ : {A B : Type 0} → Option A → (A → Option B) → Option B
none >>= f = none
some a >>= f = f a

abbrev pub ◌>>◌ : {B : Type 0} → Option (Unit {0}) → Option B → Option B
m >> k = m >>= λ _. k

abbrev pub guard : Bool → Option (Unit {0})
guard true = some tt
guard false = none

-- `a|b`
abbrev pub or_else : {A : Type 0} → Option A → Option A → Option A
or_else none b = b
or_else (some a) b = some a

-- \d
unfoldable pub is_digit : Char → Bool
is_digit c = leb 48 (code c) && leb (code c) 57

-- \w
unfoldable pub is_word : Char → Bool
unfolding is_digit lower
is_word c = is_digit c || (code c == 95) || (leb 97 (code (lower c)) && leb (code (lower c)) 122)

unfoldable pub starts_word : String → Bool
unfolding is_word
starts_word [] = false
starts_word (c ∷ s) = is_word c

-- a literal piece: what it matched, and the rest
unfoldable pub literal : String → String → Option (String × String)
unfolding lower
literal [] s = some ([], s)
literal (d ∷ p) [] = none
literal (d ∷ p) (c ∷ s) =
    let rest = literal p s in
    if code (lower c) == code d then (do (m, r) ← rest; some (c ∷ m, r)) else none

-- \s+
unfoldable pub spaces : String → Option String
unfolding is_space lstrip
spaces [] = none
spaces (c ∷ s) = if is_space c then some (lstrip s) else none

-- \d*, after a number that is read already
unfoldable pub digits : ℕ → String → ℕ × String
unfolding is_digit
digits n [] = (n, [])
digits n (c ∷ s) =
    let more = digits (n * 10 + (code c - 48)) s in if is_digit c then more else (n, c ∷ s)

unfoldable pub starts_digit : String → Bool
unfolding is_digit
starts_digit [] = false
starts_digit (c ∷ s) = is_digit c

-- \d+
unfoldable pub number : String → Option (ℕ × String)
unfolding digits starts_digit
number s = if starts_digit s then some (digits 0 s) else none

-- the word characters that stand first
unfoldable pub word : String → String
unfolding is_word
word [] = []
word (c ∷ s) = let rest = word s in if is_word c then c ∷ rest else []

-- the first place where the piece matches; it is told the character before it
unfoldable pub search :
    {A : Type 0} → (Option Char → String → Option A) → Option Char → String → Option A
search m before [] = m before []
search m before (c ∷ s) = let later = search m (some c) s in or_else (m before (c ∷ s)) later
