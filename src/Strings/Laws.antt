-- ===== src/Strings/Laws.antt =====
-- Trimming, prefixes and filters.
use Prim.Native.Char.{Char, code}
use Prim.Native.String.{[], ◌∷◌}
use text.Mathlib.TextLemmas.{cons-append, nil-append, cons≢nil}
use finsplitter.Base.{
  ◌≡◌, refl, sym, ap, ◌∙◌, String, ◌+++◌, ◌==◌, Bool, true, false, ◌&&◌, some, eqb_iff, eq_iff,
  arith, Bool-cases, inl, inr, ◌↔◌,
}
use finsplitter.Strings.{
  trim_left, trim_right, trim_space, is_space, strip_prefix?, has_prefix, trim_prefix, filter_chars,
  map_chars,
}

-- every code point of the text passes the test
abbrev pub AllChars : (Char → Bool) → String → Type 0
AllChars test [] = Unit {0}
AllChars test (c ∷ s) = (test c ≡ true) × AllChars test s

pub strip_prefix?-append : (p t : String) → strip_prefix? (p +++ t) p ≡ some t
unfolding strip_prefix?
strip_prefix?-append [] t = rw nil-append
strip_prefix?-append (c ∷ p) t =
    rw (cons-append, (eqb_iff (code c) (code c)).1 refl) (strip_prefix?-append p t)

pub has_prefix-append : (p t : String) → has_prefix (p +++ t) p ≡ true
unfolding has_prefix
has_prefix-append p t = rw (has_prefix, strip_prefix?-append p t) refl

pub trim_prefix-append : (p t : String) → trim_prefix (p +++ t) p ≡ t
unfolding trim_prefix
trim_prefix-append p t = rw (trim_prefix, strip_prefix?-append p t) refl

module _ (test : Char → Bool) where
  AllChars-trim_left : (s : String) → AllChars test (trim_left test s) → AllChars test s
  unfolding trim_left
  AllChars-trim_left [] h = tt
  AllChars-trim_left (c ∷ s) h = elim (Bool-cases (test c)) [
    | inl dropped ↦ (dropped, AllChars-trim_left s (rw dropped at h))
    | inr kept ↦ rw kept at h
  ]

  trim_left-nil_of_AllChars : (s : String) → AllChars test s → trim_left test s ≡ ""
  unfolding trim_left
  trim_left-nil_of_AllChars [] h = refl
  trim_left-nil_of_AllChars (c ∷ s) (p, h) = rw p (trim_left-nil_of_AllChars s h)

  trim_right-eq-nil : (s : String) → trim_right test s ≡ "" → AllChars test s
  unfolding trim_right
  trim_right-eq-nil [] h = tt
  trim_right-eq-nil (c ∷ s) h = elim (Bool-cases (test c && trim_right test s == "")) [
    | inl dropped ↦
        (ground arith, trim_right-eq-nil s (ground (arith, eq_iff (trim_right test s) "")))
    | inr kept ↦ absurd (cons≢nil (rw kept at h))
  ]

-- strings.TrimSpace leaves nothing of a text exactly when all of it is white space.
pub trim_space-eq-nil_iff : (s : String) → (trim_space s ≡ "") ↔ AllChars is_space s
unfolding trim_space
trim_space-eq-nil_iff s = (
  λ h. AllChars-trim_left is_space s (trim_right-eq-nil is_space (trim_left is_space s) h),
  λ h. rw (trim_left-nil_of_AllChars is_space s h),
)

-- Where the filter drops what trimming drops, trimming first changes nothing.
module _ (test keep : Char → Bool) (drops : (c : Char) → test c ≡ true → keep c ≡ false) where
  filter-trim_left : (s : String) → filter_chars keep (trim_left test s) ≡ filter_chars keep s
  unfolding trim_left filter_chars
  filter-trim_left [] = refl
  filter-trim_left (c ∷ s) = elim (Bool-cases (test c)) [
    | inl dropped ↦ rw (dropped, drops c dropped) (filter-trim_left s)
    | inr kept ↦ rw kept
  ]

  filter-trim_right : (s : String) → filter_chars keep (trim_right test s) ≡ filter_chars keep s
  unfolding trim_right filter_chars
  filter-trim_right [] = refl
  filter-trim_right (c ∷ s) = elim (Bool-cases (test c && trim_right test s == "")) [
    | inl dropped ↦
        let nothing : filter_chars keep "" ≡ filter_chars keep s =
          ap (filter_chars keep) (sym ((eq_iff (trim_right test s) "").0 (ground arith)))
          ∙ filter-trim_right s in
        let is_test : test c ≡ true = ground arith in rw (dropped, drops c is_test) nothing
    | inr kept ↦ rw (kept, filter-trim_right s)
  ]

module _ (f : Char → Char) (keep : Char → Bool) where
  -- filtering the mapped text is filtering by the mapped test, then mapping
  pub filter-map_chars :
      (s : String)
      → filter_chars keep (map_chars f s) ≡ map_chars f (filter_chars (λ c. keep (f c)) s)
  unfolding filter_chars map_chars
  filter-map_chars [] = refl
  filter-map_chars (c ∷ s) = elim (Bool-cases (keep (f c))) [
    | inl kept ↦ rw kept (ap (λ t. f c ∷ t) (filter-map_chars s))
    | inr dropped ↦ rw dropped (filter-map_chars s)
  ]

  pub filter_map-trim_space :
      ((c : Char) → is_space c ≡ true → keep (f c) ≡ false)
      → (s : String)
      → filter_chars keep (map_chars f (trim_space s)) ≡ filter_chars keep (map_chars f s)
  unfolding trim_space
  filter_map-trim_space drops s =
      filter-map_chars (trim_space s)
      ∙ ap (map_chars f) (
          filter-trim_right is_space (λ c. keep (f c)) drops (trim_left is_space s)
          ∙ filter-trim_left is_space (λ c. keep (f c)) drops s)
      ∙ sym (filter-map_chars s)

  pub filter_map-append :
      (s t : String)
      → filter_chars keep (map_chars f (s +++ t))
        ≡ filter_chars keep (map_chars f s) +++ filter_chars keep (map_chars f t)
  unfolding filter_chars map_chars
  filter_map-append [] t = rw (nil-append, nil-append)
  filter_map-append (c ∷ s) t = elim (Bool-cases (keep (f c))) [
    | inl kept ↦ rw (cons-append, kept, cons-append) (ap (λ r. f c ∷ r) (filter_map-append s t))
    | inr dropped ↦ rw (cons-append, dropped) (filter_map-append s t)
  ]

pub AllChars-filter : (keep : Char → Bool) (s : String) → AllChars keep (filter_chars keep s)
unfolding filter_chars
AllChars-filter keep [] = tt
AllChars-filter keep (c ∷ s) = elim (Bool-cases (keep c)) [
  | inl kept ↦ rw kept (kept, AllChars-filter keep s)
  | inr dropped ↦ rw dropped (AllChars-filter keep s)
]
