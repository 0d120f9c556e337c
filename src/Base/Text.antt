-- ===== src/Base/Text.antt =====
-- `str.lower`, `str.upper` and `str.strip`, on ASCII text; other characters stay as they are.
use Prim.Native.Nat.{ℕ, suc, ◌-◌}
use Prim.Native.Char.{Char, code}
use Prim.Native.String.{String, [], ◌∷◌, ◌++◌, char_at}
use mathlib.Core.Path.{◌≡◌, refl}
use mathlib.Core.Bool.{Bool, ◌&&◌, ◌||◌}
use mathlib.Core.List.{List, map}
use verigate.Base.Tests.{leb, if◌then◌else◌}
use verigate.Base.Equality.{contains, string_eq}

-- the character that stands where `c` stands in an alphabet that begins at the number `first`
shift_char : String → ℕ → Char → Char
shift_char alphabet first c = char_at alphabet (code c - first)

lower_char : Char → Char
unfolding shift_char
lower_char c =
    if leb b'A' (code c) && leb (code c) b'Z'
    then shift_char "abcdefghijklmnopqrstuvwxyz" b'A' c
    else c

upper_char : Char → Char
unfolding shift_char
upper_char c =
    if leb b'a' (code c) && leb (code c) b'z'
    then shift_char "ABCDEFGHIJKLMNOPQRSTUVWXYZ" b'a' c
    else c

unfoldable pub lower : String → String
unfolding lower_char
lower [] = []
lower (c ∷ s) = lower_char c ∷ lower s

unfoldable pub upper : String → String
unfolding upper_char
upper [] = []
upper (c ∷ s) = upper_char c ∷ upper s

is_space : Char → Bool
is_space c = (leb 9 (code c) && leb (code c) 13) || (leb 28 (code c) && leb (code c) 32)

lstrip : String → String
unfolding is_space
lstrip [] = []
lstrip (c ∷ s) = let rest = lstrip s in if is_space c then rest else c ∷ s

-- `c` is dropped if it is a space and nothing is left behind it
keep_char : Char → String → String
unfolding is_space
keep_char c [] = if is_space c then [] else c ∷ []
keep_char c (d ∷ s) = c ∷ d ∷ s

rstrip : String → String
unfolding keep_char
rstrip [] = []
rstrip (c ∷ s) = keep_char c (rstrip s)

unfoldable pub strip : String → String
unfolding lstrip rstrip
strip s = rstrip (lstrip s)

-- `len(text)`
abbrev pub text_length : String → ℕ
text_length [] = 0
text_length (c ∷ s) = suc (text_length s)

-- `first + second`
abbrev pub text_append : String → String → String
text_append first second = first ++ second

-- `text.lower() in {x.lower() for x in xs}`
abbrev pub contains_lower : List String → String → Bool
contains_lower xs text = contains (map lower xs) (lower text)

-- `text.upper() in {x.upper() for x in xs}`
abbrev pub contains_upper : List String → String → Bool
contains_upper xs text = contains (map upper xs) (upper text)

lower_text : lower "Deploy-PROD 7" ≡ "deploy-prod 7"
unfolding lower
lower_text = refl

upper_text : upper "usdc" ≡ "USDC"
unfolding upper
upper_text = refl

strip_text : strip "  pay  rent " ≡ "pay  rent"
unfolding strip
strip_text = refl
