-- ===== src/Base/Text.antt =====
-- The functions of Go's `strings` and `unicode` packages that the code calls, over texts: lists of
-- code points. `codes` reads a literal.
pub mod Laws
use Prim.Native.Nat.{ℕ, ◌+◌, ◌-◌, ◌≤◌}
use Prim.Native.Char.{code}
use Prim.Native.String.{String}
use mathlib.Core.Bool.{Bool, true, false, ◌&&◌, ◌||◌, not}
use mathlib.Core.List.{List, [], ◌∷◌, ◌++◌, map}
use mathlib.Core.Path.{◌≡◌, refl}
use natsx.Base.Logic.{ltb, leb, ◌==◌, if◌then◌else◌}
use natsx.Base.Lists.{is_empty, any}
use natsx.Base.Maps.{text_eq}

abbrev pub Text : Type 0
Text = List ℕ

abbrev pub codes : String → Text
codes String.[] = []
codes (String.◌∷◌ c s) = code c ∷ codes s

-- `unicode.IsSpace`: the Latin-1 spaces, then the other code points with the property White_Space.
unfoldable pub is_space : ℕ → Bool
is_space c =
    leb 9 c && leb c 13
    || c == 0x20
    || c == 0x85
    || c == 0xA0
    || c == 0x1680
    || leb 0x2000 c && leb c 0x200A
    || c == 0x2028
    || c == 0x2029
    || c == 0x202F
    || c == 0x205F
    || c == 0x3000

-- `strings.TrimLeftFunc`
unfoldable pub trim_left : (ℕ → Bool) → Text → Text
trim_left p [] = []
trim_left p (c ∷ s) = if p c then trim_left p s else c ∷ s

-- `strings.TrimRightFunc`
unfoldable pub trim_right : (ℕ → Bool) → Text → Text
trim_right p [] = []
trim_right p (c ∷ s) = let rest = trim_right p s in if p c && is_empty rest then [] else c ∷ rest

unfoldable pub trim : (ℕ → Bool) → Text → Text
unfolding trim_left trim_right
trim p s = trim_right p (trim_left p s)

unfoldable pub trim_space : Text → Text
unfolding trim is_space
trim_space s = trim is_space s

unfoldable pub has_prefix : Text → Text → Bool
has_prefix s [] = true
has_prefix [] (_ ∷ _) = false
has_prefix (c ∷ s) (d ∷ t) = c == d && has_prefix s t

-- `strings.TrimSuffix` for a suffix of one code point
unfoldable pub trim_suffix : Text → ℕ → Text
trim_suffix [] d = []
trim_suffix (c ∷ s) d = if is_empty s && c == d then [] else c ∷ trim_suffix s d

-- `strings.HasSuffix`
unfoldable pub has_suffix : Text → Text → Bool
has_suffix [] t = is_empty t
has_suffix (c ∷ s) t = text_eq (c ∷ s) t || has_suffix s t

-- `strings.TrimPrefix`
unfoldable pub trim_prefix : Text → Text → Text
unfolding has_prefix
trim_prefix s [] = s
trim_prefix [] (_ ∷ _) = []
trim_prefix (c ∷ s) (d ∷ t) = if has_prefix (c ∷ s) (d ∷ t) then trim_prefix s t else c ∷ s

-- `strings.HasSuffix` for a suffix of one code point
unfoldable pub ends_with : ℕ → Text → Bool
ends_with d [] = false
ends_with d (c ∷ s) = c == d && is_empty s || ends_with d s

-- `strings.Contains`
unfoldable pub contains : Text → Text → Bool
unfolding has_prefix
contains [] sub = is_empty sub
contains (c ∷ s) sub = has_prefix (c ∷ s) sub || contains s sub

-- `strings.ContainsAny`, and `strings.Contains` for one code point
unfoldable pub contains_any : Text → Text → Bool
contains_any s chars = any (λ c. any (λ d. c == d) chars) s

abbrev pub push_front : ℕ → List Text → List Text
push_front c [] = (c ∷ []) ∷ []
push_front c (p ∷ ps) = (c ∷ p) ∷ ps

-- `strings.Split` at a separator of one code point
unfoldable pub split : Text → ℕ → List Text
split [] sep = [] ∷ []
split (c ∷ s) sep = let rest = split s sep in if c == sep then [] ∷ rest else push_front c rest

-- `strings.Join` with a separator of one code point
unfoldable pub join : List Text → ℕ → Text
join [] sep = []
join (p ∷ []) sep = p
join (p ∷ q ∷ ps) sep = p ++ sep ∷ join (q ∷ ps) sep

-- `strings.Fields`: the pieces between white space that are not empty.
abbrev pieces : Text → List Text
pieces [] = [] ∷ []
pieces (c ∷ s) = let rest = pieces s in if is_space c then [] ∷ rest else push_front c rest

abbrev keep_words : List Text → List Text
keep_words [] = []
keep_words (p ∷ ps) = let rest = keep_words ps in if is_empty p then rest else p ∷ rest

abbrev pub fields : Text → List Text
fields s = keep_words (pieces s)

-- Simple folding of the code points that fold to an ASCII letter: the capitals, the long s and the
-- Kelvin sign. Another code point is left as it is: no text that the code folds against holds one.
abbrev pub fold : ℕ → ℕ
fold c =
    if leb b'A' c && leb c b'Z'
    then c + 32
    else if c == 0x17F
    then b's'
    else if c == 0x212A
    then b'k'
    else c

-- `strings.ToUpper` where it gives an ASCII letter of the words that the code looks for: no other code
-- point has one of them as its capital.
abbrev pub upper : ℕ → ℕ
upper c = if leb b'a' c && leb c b'z' then c - 32 else c

unfoldable pub to_upper : Text → Text
to_upper s = map upper s

-- `strings.EqualFold`
unfoldable pub equal_fold : Text → Text → Bool
equal_fold s t = text_eq (map fold s) (map fold t)
