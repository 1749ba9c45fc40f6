-- ===== src/Accounts/Slug.antt =====
-- slugify of internal/app/usecases/auth/register.go
pub mod Laws
use Prim.Native.Char.{Char}
use finsplitter.Base.{String, Bool, ◌||◌}
use finsplitter.Strings.{Unicode, trim_space, filter_chars, map_chars}

abbrev pub is_kept : Unicode → Char → Bool
is_kept u c = u.is_letter c || u.is_digit c

-- The loop writes each code point that passes the test to the builder.
unfoldable pub slugify : Unicode → String → String
slugify u s = filter_chars (is_kept u) (map_chars u.to_lower (trim_space s))
