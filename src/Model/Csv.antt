-- ===== src/Model/Csv.antt =====
-- What model/scopes.go and model/known_client.go use of the package strings: Split at commas, Join
-- with commas, and TrimSpace.
use Prim.Native.Char.{code}
use foundryvtt_rest_api_rela.Base.{
  Bool, List, String, [], eqb, false, if◌then◌else◌, leb, map, not, select, true, ℕ, ◌&&◌, ◌||◌,
  ◌∷◌,
}

-- `s == ""`, and `s + t`, by the text's characters.
abbrev pub is_blank : String → Bool
is_blank String.[] = true
is_blank (String.◌∷◌ c s) = false

abbrev pub append : String → String → String
append String.[] t = t
append (String.◌∷◌ c s) t = String.◌∷◌ c (append s t)

-- unicode.IsSpace.
abbrev pub is_space : ℕ → Bool
is_space c =
    (leb 9 c && leb c 13)
    || eqb c 32
    || eqb c 133
    || eqb c 160
    || eqb c 5760
    || (leb 8192 c && leb c 8202)
    || eqb c 8232
    || eqb c 8233
    || eqb c 8239
    || eqb c 8287
    || eqb c 12288

abbrev pub is_comma : ℕ → Bool
is_comma c = eqb c 44

unfoldable pub trim_left : String → String
trim_left String.[] = ""
trim_left (String.◌∷◌ c s) =
    let rest = trim_left s in if is_space (code c) then rest else String.◌∷◌ c s

-- Drops a character that is followed by spaces alone.
abbrev pub keep_before : Bool → String → String → String
keep_before space whole String.[] = if space then "" else whole
keep_before space whole (String.◌∷◌ c s) = whole

unfoldable pub trim_right : String → String
trim_right String.[] = ""
trim_right (String.◌∷◌ c s) =
    let rest = trim_right s in keep_before (is_space (code c)) (String.◌∷◌ c rest) rest

unfoldable pub trim_space : String → String
unfolding trim_left trim_right
trim_space s = trim_left (trim_right s)

abbrev pub on_first : (String → String) → List String → List String
on_first f [] = []
on_first f (s ∷ ss) = f s ∷ ss

-- strings.Split(s, ",")
unfoldable pub split : String → List String
split String.[] = "" ∷ []
split (String.◌∷◌ c s) =
    let rest = split s in
    if is_comma (code c) then "" ∷ rest else on_first (λ t. String.◌∷◌ c t) rest

-- strings.Join(ss, ",")
unfoldable pub join : List String → String
join [] = ""
join (s ∷ []) = s
join (s ∷ t ∷ ss) = append s (append "," (join (t ∷ ss)))

-- The trimmed items that are not empty.
unfoldable pub items : String → List String
unfolding split trim_space
items csv = select (λ s. not (is_blank s)) (map trim_space (split csv))
