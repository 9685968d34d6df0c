-- ===== src/Model/CsvItems.antt =====
-- model/scopes.go: what comes out of a comma-separated text is clean.
use Prim.Native.Char.{Char, code}
use foundryvtt_rest_api_rela.Base.{
  All, Bool, Bool-cases, List, String, [], arith, false, inl, inr, map, not, refl, select, true,
  ◌∷◌, ◌≡◌,
}
use foundryvtt_rest_api_rela.Model.Csv.{
  is_space, is_blank, is_comma, trim_left, keep_before, trim_right, trim_space, on_first, split,
  items,
}
use foundryvtt_rest_api_rela.Model.CsvLaws.{NoComma, starts_clean, IsClean}
use foundryvtt_rest_api_rela.Model.Scopes.{parse_scopes}

NoComma-first :
    (c : Char) (ss : List String)
    → is_comma (code c) ≡ false
    → All NoComma ss
    → All NoComma (on_first (λ t. String.◌∷◌ c t) ss)
NoComma-first c [] h hs = tt
NoComma-first c (s ∷ ss) h (x, hs) = ((h, x), hs)

split-NoComma : (s : String) → All NoComma (split s)
unfolding split
split-NoComma String.[] = (tt, tt)
split-NoComma (String.◌∷◌ c s) = elim (Bool-cases (is_comma (code c))) [
  | inl comma ↦ rw (comma) (tt, split-NoComma s)
  | inr plain ↦ rw (plain) (NoComma-first c (split s) plain (split-NoComma s))
]

trim_left-NoComma : (s : String) → NoComma s → NoComma (trim_left s)
unfolding trim_left
trim_left-NoComma String.[] h = tt
trim_left-NoComma (String.◌∷◌ c s) (h, hs) = elim (Bool-cases (is_space (code c))) [
  | inl space ↦ rw (space) (trim_left-NoComma s hs)
  | inr ink ↦ rw (ink) (h, hs)
]

keep_before-NoComma : (b : Bool) (w r : String) → NoComma w → NoComma (keep_before b w r)
keep_before-NoComma true w String.[] h = tt
keep_before-NoComma false w String.[] h = h
keep_before-NoComma b w (String.◌∷◌ c r) h = h

trim_right-NoComma : (s : String) → NoComma s → NoComma (trim_right s)
unfolding trim_right
trim_right-NoComma String.[] h = tt
trim_right-NoComma (String.◌∷◌ c s) (h, hs) =
    keep_before-NoComma (is_space (code c)) (String.◌∷◌ c (trim_right s)) (trim_right s)
      (h, trim_right-NoComma s hs)

trim_left-starts : (s : String) → is_blank (trim_left s) ≡ false → starts_clean (trim_left s) ≡ true
unfolding trim_left
trim_left-starts String.[] h = cc
trim_left-starts (String.◌∷◌ c s) h = elim (Bool-cases (is_space (code c))) [
  | inl space ↦ rw (space) (trim_left-starts s (ground (arith, h, space)))
  | inr ink ↦ ground (arith, ink)
]

trimmed_again :
    (b : Bool) (c : Char) (r : String)
    → b ≡ is_space (code c)
    → trim_right r ≡ r
    → trim_right (keep_before b (String.◌∷◌ c r) r) ≡ keep_before b (String.◌∷◌ c r) r
unfolding trim_right
trimmed_again true c String.[] e h = refl
trimmed_again false c String.[] e h = rw (← e) refl
trimmed_again b c (String.◌∷◌ d r) e h = rw (h) refl

trim_right-trim_right : (s : String) → trim_right (trim_right s) ≡ trim_right s
unfolding trim_right
trim_right-trim_right String.[] = refl
trim_right-trim_right (String.◌∷◌ c s) =
    trimmed_again (is_space (code c)) c (trim_right s) refl (trim_right-trim_right s)

tail_trimmed :
    (b : Bool) (c : Char) (s r : String)
    → b ≡ true
    → keep_before b (String.◌∷◌ c r) r ≡ String.◌∷◌ c s
    → r ≡ s
tail_trimmed b c s String.[] e h = cc
tail_trimmed b c s (String.◌∷◌ d r) e h = cc

trim_right-trim_left : (s : String) → trim_right s ≡ s → trim_right (trim_left s) ≡ trim_left s
unfolding trim_left trim_right
trim_right-trim_left String.[] h = refl
trim_right-trim_left (String.◌∷◌ c s) h = elim (Bool-cases (is_space (code c))) [
  | inl space ↦
      rw (space)
        (trim_right-trim_left s (tail_trimmed (is_space (code c)) c s (trim_right s) space h))
  | inr ink ↦ rw (ink) (h)
]

IsClean-items :
    (ss : List String)
    → All NoComma ss
    → All IsClean (select (λ s. not (is_blank s)) (map trim_space ss))
unfolding trim_space
IsClean-items [] h = tt
IsClean-items (s ∷ ss) (h, hs) = elim (Bool-cases (is_blank (trim_left (trim_right s)))) [
  | inl blank ↦ rw (blank) (IsClean-items ss hs)
  | inr text ↦ rw (text) (
    record {
      no_comma = trim_left-NoComma (trim_right s) (trim_right-NoComma s h);
      left = trim_left-starts (trim_right s) text;
      right = trim_right-trim_left (trim_right s) (trim_right-trim_right s);
    },
    IsClean-items ss hs,
  )
]

pub items-IsClean : (csv : String) → All IsClean (items csv)
unfolding items
items-IsClean csv = IsClean-items (split csv) (split-NoComma csv)

pub parse_scopes-IsClean : (csv : String) → All IsClean (parse_scopes csv)
unfolding parse_scopes
parse_scopes-IsClean csv = elim (Bool-cases (is_blank (trim_space csv))) [
  | inl blank ↦ rw (blank) tt
  | inr text ↦ rw (text) (items-IsClean (trim_space csv))
]
