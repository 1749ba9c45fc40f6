-- ===== src/Strings.antt =====
-- What the code uses of the Go packages strings and unicode. A text is the sequence of its code
-- points (the inputs are valid UTF-8). The tables of unicode for letters, digits and lower case
-- are too large to write out and are a parameter.
pub mod Laws
use Prim.Native.Char.{Char, code}
use Prim.Native.String.{[], ◌∷◌}
use finsplitter.Base.{
  ℕ, ◌≡◌, ◌≤◌, ◌<◌, String, ◌==◌, Bool, true, false, ◌&&◌, ◌||◌, Option, none, some, eqb, leb,
  if◌then◌else◌, get_or,
}

-- unicode.IsSpace
abbrev pub is_space_code : ℕ → Bool
is_space_code n =
    (leb 9 n && leb n 13)
    || eqb n 32
    || eqb n 0x85
    || eqb n 0xa0
    || eqb n 0x1680
    || (leb 0x2000 n && leb n 0x200a)
    || eqb n 0x2028
    || eqb n 0x2029
    || eqb n 0x202f
    || eqb n 0x205f
    || eqb n 0x3000

unfoldable pub is_space : Char → Bool
is_space c = is_space_code (code c)

-- `test` for every leading code point, which are dropped
pub trim_left : (Char → Bool) → String → String
trim_left test [] = []
trim_left test (c ∷ s) = if test c then trim_left test s else c ∷ s

pub trim_right : (Char → Bool) → String → String
trim_right test [] = []
trim_right test (c ∷ s) =
    let rest = trim_right test s in if test c && rest == "" then [] else c ∷ rest

-- strings.TrimSpace
unfoldable pub trim_space : String → String
unfolding trim_left trim_right
trim_space s = trim_right is_space (trim_left is_space s)

-- strings.TrimRight(s, "/")
unfoldable pub trim_right_slash : String → String
unfolding trim_right
trim_right_slash s = trim_right (λ c. eqb (code c) b'/') s

-- what follows the prefix, if the text has it
unfoldable pub strip_prefix? : String → String → Option String
strip_prefix? s [] = some s
strip_prefix? [] (p ∷ ps) = none
strip_prefix? (c ∷ s) (p ∷ ps) = if eqb (code c) (code p) then strip_prefix? s ps else none

-- strings.HasPrefix
unfoldable pub has_prefix : String → String → Bool
unfolding strip_prefix?
has_prefix s p = elim (strip_prefix? s p) [ none ↦ false | some _ ↦ true ]

-- strings.TrimPrefix
unfoldable pub trim_prefix : String → String → String
unfolding strip_prefix?
trim_prefix s p = get_or (strip_prefix? s p) s

-- strings.Contains(s, t) for a text of the one code point `t`
unfoldable pub contains_char : String → ℕ → Bool
contains_char [] t = false
contains_char (c ∷ s) t = eqb (code c) t || contains_char s t

-- strings.Map with a function that drops nothing
unfoldable pub map_chars : (Char → Char) → String → String
map_chars f [] = []
map_chars f (c ∷ s) = f c ∷ map_chars f s

-- the code points that pass a test
unfoldable pub filter_chars : (Char → Bool) → String → String
filter_chars test [] = []
filter_chars test (c ∷ s) = if test c then c ∷ filter_chars test s else filter_chars test s

-- unicode.ToLower, IsLetter and IsDigit
pub record Unicode : Type 0 where
  pub to_lower : Char → Char
  pub is_letter : Char → Bool
  pub is_digit : Char → Bool

-- The lower case of a white space character is neither a letter nor a digit.
pub record HasSpaces (u : Unicode) : Type 0 where
  pub space_no_letter : (c : Char) → is_space c ≡ true → u.is_letter (u.to_lower c) ≡ false
  pub space_no_digit : (c : Char) → is_space c ≡ true → u.is_digit (u.to_lower c) ≡ false
