-- ===== src/Common/Texts.antt =====
-- Texts: what the source uses of Go's package `strings`, over the native `String`.
use Prim.Native.Char.{Char, code}
use Prim.Native.String.{String, ◌++◌ as str_append}
use mathlib.Core.Path.{◌≡◌, refl}
use mathlib.Core.Logic.{◌≢◌}
use mathlib.Core.Bool.{Bool, true, false, ◌||◌, ◌&&◌}
use mathlib.Core.List.{List, [], ◌∷◌}
use text.Mathlib.Text.{◌==◌ as str_eq}
use text.Mathlib.TextEquality.{eq_iff}
use native.Mathlib.Omega.{arith}
use kugelblitz.Common.Tests.{leb, ◌==◌, if◌then◌else◌}

infix 50 ◌=ˢ◌
abbrev pub ◌=ˢ◌ : String → String → Bool
a =ˢ b = str_eq a b

pub text_eq_refl : (s : String) → (s =ˢ s) ≡ true
text_eq_refl s = (eq_iff s s).1 refl

pub text_eq_sound : (s t : String) → (s =ˢ t) ≡ true → s ≡ t
text_eq_sound s t h = (eq_iff s t).0 h

pub text_eq_false : (s t : String) → s ≢ t → (s =ˢ t) ≡ false
text_eq_false s t h = ground (arith, eq_iff s t)

infixr 65 ◌+ˢ◌
abbrev pub ◌+ˢ◌ : String → String → String
a +ˢ b = str_append a b

abbrev pub is_empty : String → Bool
is_empty String.[] = true
is_empty (String.◌∷◌ c s) = false

-- unicode.IsSpace
unfoldable pub is_space : Char → Bool
is_space c =
    let n = code c in
    leb 9 n && leb n 13
    || n == 32
    || n == 133
    || n == 160
    || n == 5760
    || leb 8192 n && leb n 8202
    || n == 8232
    || n == 8233
    || n == 8239
    || n == 8287
    || n == 12288

unfoldable pub trim_left : String → String
trim_left String.[] = String.[]
trim_left (String.◌∷◌ c s) = let rest = trim_left s in if is_space c then rest else String.◌∷◌ c s

unfoldable pub trim_right : String → String
trim_right String.[] = String.[]
trim_right (String.◌∷◌ c s) =
    let rest = trim_right s in if is_space c && is_empty rest then String.[] else String.◌∷◌ c rest

-- strings.TrimSpace
unfoldable pub trim_space : String → String
unfolding trim_left trim_right
trim_space s = trim_left (trim_right s)

abbrev pub comma : Char → Bool
comma c = code c == 44

abbrev pub push : Char → List String → List String
push c [] = String.◌∷◌ c String.[] ∷ []
push c (w ∷ ws) = String.◌∷◌ c w ∷ ws

-- strings.Split(s, ",")
unfoldable pub split_comma : String → List String
split_comma String.[] = String.[] ∷ []
split_comma (String.◌∷◌ c s) =
    let rest = split_comma s in if comma c then String.[] ∷ rest else push c rest

-- strings.HasPrefix
unfoldable pub has_prefix : String → String → Bool
has_prefix s String.[] = true
has_prefix String.[] (String.◌∷◌ d p) = false
has_prefix (String.◌∷◌ c s) (String.◌∷◌ d p) =
    let rest = has_prefix s p in if code c == code d then rest else false

-- strings.Contains
unfoldable pub contains : String → String → Bool
unfolding has_prefix
contains String.[] t = is_empty t
contains (String.◌∷◌ c s) t =
    let rest = contains s t in if has_prefix (String.◌∷◌ c s) t then true else rest

unfoldable pub is_in : String → List String → Bool
is_in n [] = false
is_in n (x ∷ xs) = let rest = is_in n xs in if x =ˢ n then true else rest
