-- ===== src/Model/CsvLaws.antt =====
-- model/scopes.go: a list of clean items comes back from its comma-separated text.
use Prim.Native.Char.{code}
use foundryvtt_rest_api_rela.Base.{
  All, Bool, List, String, [], ap, arith, false, map, not, refl, select, true, ◌∷◌, ◌≡◌,
}
use foundryvtt_rest_api_rela.Model.Csv.{
  is_space, is_comma, trim_left, keep_before, trim_right, trim_space, split, join, items, is_blank,
  append,
}
use foundryvtt_rest_api_rela.Model.Scopes.{parse_scopes, scopes_string}

-- A comma does not occur.
abbrev pub NoComma : String → Type 0
NoComma String.[] = Unit
NoComma (String.◌∷◌ c s) = (is_comma (code c) ≡ false) × NoComma s

-- Not empty, and without a space in front.
abbrev pub starts_clean : String → Bool
starts_clean String.[] = false
starts_clean (String.◌∷◌ c s) = not (is_space (code c))

-- Not empty, without a comma, and without spaces around it.
pub record IsClean (s : String) : Type 0 where
  pub no_comma : NoComma s
  pub left : starts_clean s ≡ true
  pub right : trim_right s ≡ s

split-append : (s t : String) → NoComma s → split (append s (append "," t)) ≡ s ∷ split t
unfolding split
split-append String.[] t h = refl
split-append (String.◌∷◌ c s) t (h, hs) = rw (split-append s t hs) (rw h refl)

split_single : (s : String) → NoComma s → split s ≡ s ∷ []
unfolding split
split_single String.[] h = refl
split_single (String.◌∷◌ c s) (h, hs) = rw (split_single s hs) (rw h refl)

split-join : (s : String) (ss : List String) → All IsClean (s ∷ ss) → split (join (s ∷ ss)) ≡ s ∷ ss
unfolding join
split-join s [] (h, hs) = split_single s h.no_comma
split-join s (t ∷ ss) (h, hs) =
    rw (split-append s (join (t ∷ ss)) h.no_comma, split-join t ss hs) refl

starts_clean-append : (s t : String) → starts_clean s ≡ true → starts_clean (append s t) ≡ true
starts_clean-append String.[] t h = cc
starts_clean-append (String.◌∷◌ c s) t h = h

starts_clean-join :
    (s : String) (ss : List String) → All IsClean (s ∷ ss) → starts_clean (join (s ∷ ss)) ≡ true
unfolding join
starts_clean-join s [] (h, hs) = h.left
starts_clean-join s (t ∷ ss) (h, hs) = starts_clean-append s _ h.left

keep_before-append :
    (b : Bool) (w s t : String) → starts_clean t ≡ true → keep_before b w (append s t) ≡ w
keep_before-append b w String.[] String.[] h = cc
keep_before-append b w String.[] (String.◌∷◌ c t) h = refl
keep_before-append b w (String.◌∷◌ c s) t h = refl

trim_right-append :
    (s t : String) → starts_clean t ≡ true → trim_right t ≡ t → trim_right (append s t) ≡ append s t
unfolding trim_right
trim_right-append String.[] t h e = e
trim_right-append (String.◌∷◌ c s) t h e =
    rw (trim_right-append s t h e)
      (keep_before-append (is_space (code c)) (String.◌∷◌ c (append s t)) s t h)

trim_right-join :
    (s : String) (ss : List String)
    → All IsClean (s ∷ ss)
    → trim_right (join (s ∷ ss)) ≡ join (s ∷ ss)
unfolding join
trim_right-join s [] (h, hs) = h.right
trim_right-join s (t ∷ ss) (h, hs) =
    let later =
      trim_right-append "," (join (t ∷ ss)) (starts_clean-join t ss hs) (trim_right-join t ss hs) in
    trim_right-append s (append "," (join (t ∷ ss))) refl later

trim_left_clean : (s : String) → starts_clean s ≡ true → trim_left s ≡ s
unfolding trim_left
trim_left_clean String.[] h = refl
trim_left_clean (String.◌∷◌ c s) h = ground (arith, h)

starts_clean-nonempty : (s : String) → starts_clean s ≡ true → is_blank s ≡ false
starts_clean-nonempty String.[] h = cc
starts_clean-nonempty (String.◌∷◌ c s) h = refl

trim_space_clean : (s : String) → starts_clean s ≡ true → trim_right s ≡ s → trim_space s ≡ s
unfolding trim_space
trim_space_clean s h e = rw e (trim_left_clean s h)

select_clean :
    (ss : List String) → All IsClean ss → select (λ s. not (is_blank s)) (map trim_space ss) ≡ ss
select_clean [] h = refl
select_clean (s ∷ ss) (h, hs) =
    rw (trim_space_clean s h.left h.right)
      (rw (starts_clean-nonempty s h.left) (ap (◌∷◌ s) (select_clean ss hs)))

-- A list of scopes that are not empty and have no commas and no spaces around them comes back from
-- the text that it is stored as.
pub parse_scopes-scopes_string :
    (ss : List String) → All IsClean ss → parse_scopes (scopes_string ss) ≡ ss
unfolding parse_scopes scopes_string items join
parse_scopes-scopes_string [] h = refl
parse_scopes-scopes_string (s ∷ ss) h =
    rw (trim_space_clean (join (s ∷ ss)) start (trim_right-join s ss h)) (
      rw (starts_clean-nonempty (join (s ∷ ss)) start)
        (rw (split-join s ss h) (select_clean (s ∷ ss) h)))
  where
    start : starts_clean (join (s ∷ ss)) ≡ true
    start = starts_clean-join s ss h
