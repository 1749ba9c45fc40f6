-- ===== src/Accounts/Slug/Laws.antt =====
-- What a generated username consists of.
use Prim.Native.Char.{Char}
use finsplitter.Base.{String, ◌+++◌, ◌≡◌, sym, ap₂, ◌∙◌, true, false, arith}
use finsplitter.Strings.{Unicode, HasSpaces, is_space, trim_space, filter_chars, map_chars}
use finsplitter.Strings.Laws.{AllChars, AllChars-filter, filter_map-trim_space, filter_map-append}
use finsplitter.Accounts.Slug.{is_kept, slugify}

-- Every code point of the slug is a letter or a digit, whatever the name.
pub slugify-AllChars : (u : Unicode) (s : String) → AllChars (is_kept u) (slugify u s)
unfolding slugify
slugify-AllChars u s = AllChars-filter (is_kept u) (map_chars u.to_lower (trim_space s))

module _ (u : Unicode) (h : HasSpaces u) where
  space_dropped : (c : Char) → is_space c ≡ true → is_kept u (u.to_lower c) ≡ false
  space_dropped c e = ground (arith, h.space_no_letter c e, h.space_no_digit c e)

  slugify-untrimmed : (s : String) → slugify u s ≡ filter_chars (is_kept u) (map_chars u.to_lower s)
  unfolding slugify
  slugify-untrimmed s = filter_map-trim_space u.to_lower (is_kept u) space_dropped s

  -- The slug of a name in two parts is the slugs of the parts, joined: no character depends on its
  -- neighbours, and white space vanishes wherever it stands.
  pub slugify-append : (s t : String) → slugify u (s +++ t) ≡ slugify u s +++ slugify u t
  slugify-append s t =
      slugify-untrimmed (s +++ t)
      ∙ filter_map-append u.to_lower (is_kept u) s t
      ∙ sym (ap₂ ◌+++◌ (slugify-untrimmed s) (slugify-untrimmed t))
