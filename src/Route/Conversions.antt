-- ===== src/Route/Conversions.antt =====
-- handler/helpers/params.go: what the sources give and what the values are converted to, described
-- without the code.
use foundryvtt_rest_api_rela.Base.{
  All, Bool, ap, Bool-cases, List, Option, Option-cases, String, [], arith, codes, false,
  if◌then◌else◌, inl, inr, lookup, nat_eq, none, refl, some, str_iff, string_eq, true, ◌∙◌, ◌∷◌,
  ◌≡◌, ◌⊎◌, ◌≢◌,
}
use foundryvtt_rest_api_rela.Base.Json.{Value, Items, Members}
use foundryvtt_rest_api_rela.Route.Params.{
  ParamDef, Input, Parsers, first_of, coerce_if, value, Source, from_body, from_query, from_params,
  ParamType, type_string, type_number, type_boolean, type_array, type_object, filled, read, non_nil,
  coerce_type, is_lowered,
}

-- What a source gives: a text that is not empty, or a value of the body that is not null.
abbrev pub Gives : Input → String → Source → Value → Type 0
Gives r name from_query v = (r.query name ≢ "") × (v ≡ Value.str (r.query name))
Gives r name from_params v = (r.url_param name ≢ "") × (v ≡ Value.str (r.url_param name))
Gives r name from_body v = (lookup name r.body ≡ some v) × (v ≢ Value.null)

abbrev pub IsSilent : Input → String → Source → Type 0
IsSilent r name from_query = r.query name ≡ ""
IsSilent r name from_params = r.url_param name ≡ ""
IsSilent r name from_body = (lookup name r.body ≡ none) ⊎ (lookup name r.body ≡ some Value.null)

-- The value of the first source that gives one.
abbrev pub GivesFirst : Input → String → List Source → Value → Type 0
GivesFirst r name [] v = ⊥
GivesFirst r name (s ∷ rest) v = Gives r name s v ⊎ (IsSilent r name s × GivesFirst r name rest v)

-- The conversions: what a value of each kind may be written as.
abbrev pub Converts : Parsers → Option ParamType → Value → Value → Type 0
Converts parse none v w = w ≡ v
Converts parse (some type_string) v w = (s : String) × (v ≡ Value.str s) × (w ≡ Value.str s)
Converts parse (some type_number) v w =
    ((n : String) × (v ≡ Value.num n) × (w ≡ Value.num n))
    ⊎ ((s n : String) × (v ≡ Value.str s) × (parse.parse_float s ≡ some n) × (w ≡ Value.num n))
Converts parse (some type_boolean) v w =
    ((b : Bool) × (v ≡ Value.bool b) × (w ≡ Value.bool b))
    ⊎ ((s : String) × (b : Bool) × (v ≡ Value.str s)
        × (w ≡ Value.bool b)
        × (is_lowered (codes s) (codes (if b then "true" else "false")) ≡ true))
Converts parse (some type_array) v w =
    ((xs : Items) × (v ≡ Value.arr xs) × (w ≡ Value.arr xs))
    ⊎ ((s : String) × (xs : Items) × (v ≡ Value.str s)
        × (parse.parse_array s ≡ some xs)
        × (w ≡ Value.arr xs))
Converts parse (some type_object) v w = (o : Members) × (v ≡ Value.obj o) × (w ≡ Value.obj o)

-- What a definition makes of a parameter that was `old`.
abbrev pub Outcome : Parsers → Input → ParamDef → Option Value → Option Value → Type 0
Outcome parse r d old new =
    (All (IsSilent r d.name) d.from × (new ≡ old))
    ⊎ ((v w : Value) × GivesFirst r d.name d.from v × Converts parse d.kind v w × (new ≡ some w))

blank-filled : (s : String) → filled s ≡ none → s ≡ ""
blank-filled s h = (str_iff s "").0 (ground (arith, h))

given-filled : (s : String) (v : Value) → filled s ≡ some v → (s ≢ "") × (v ≡ Value.str s)
given-filled s v h = (λ e. ground (arith, h, str_iff s "", e), ground (arith, h))

nil_null : (v : Value) → non_nil v ≡ none → v ≡ Value.null
nil_null (Value.str s) h = absurd (ground (arith, h))
nil_null (Value.num n) h = absurd (ground (arith, h))
nil_null (Value.bool b) h = absurd (ground (arith, h))
nil_null (Value.arr xs) h = absurd (ground (arith, h))
nil_null (Value.obj o) h = absurd (ground (arith, h))
nil_null Value.null h = refl

non_null : (u v : Value) → non_nil u ≡ some v → (u ≡ v) × (v ≢ Value.null)
non_null (Value.str s) v h = (ground (arith, h), λ e. ground (arith, h, e))
non_null (Value.num n) v h = (ground (arith, h), λ e. ground (arith, h, e))
non_null (Value.bool b) v h = (ground (arith, h), λ e. ground (arith, h, e))
non_null (Value.arr xs) v h = (ground (arith, h), λ e. ground (arith, h, e))
non_null (Value.obj o) v h = (ground (arith, h), λ e. ground (arith, h, e))
non_null Value.null v h = absurd (ground (arith, h))

read-IsSilent : (r : Input) (name : String) (s : Source) → read r name s ≡ none → IsSilent r name s
unfolding read
read-IsSilent r name from_query h = blank-filled (r.query name) h
read-IsSilent r name from_params h = blank-filled (r.url_param name) h
read-IsSilent r name from_body h = elim (Option-cases (lookup name r.body)) [
  | inl nothing ↦ inl nothing
  | inr (v, there) ↦ inr (there ∙ ap some (nil_null v (ground (arith, h, there))))
]

read-Gives :
    (r : Input) (name : String) (s : Source) (v : Value) → read r name s ≡ some v → Gives r name s v
unfolding read
read-Gives r name from_query v h = given-filled (r.query name) v h
read-Gives r name from_params v h = given-filled (r.url_param name) v h
read-Gives r name from_body v h = elim (Option-cases (lookup name r.body)) [
  | inl nothing ↦ absurd (ground (arith, h, nothing))
  | inr (u, there) ↦
      let (kept, full) = non_null u v (ground (arith, h, there)) in (there ∙ ap some kept, full)
]

pub first_of-IsSilent :
    (r : Input) (name : String) (ss : List Source)
    → first_of r name ss ≡ none
    → All (IsSilent r name) ss
unfolding first_of
first_of-IsSilent r name [] h = tt
first_of-IsSilent r name (s ∷ rest) h = elim (Option-cases (read r name s)) [
  | inl nothing ↦
      (read-IsSilent r name s nothing, first_of-IsSilent r name rest (ground (arith, h, nothing)))
  | inr (v, given) ↦ absurd (ground (arith, h, given))
]

pub first_of-GivesFirst :
    (r : Input) (name : String) (ss : List Source) (v : Value)
    → first_of r name ss ≡ some v
    → GivesFirst r name ss v
unfolding first_of
first_of-GivesFirst r name [] v h = absurd (ground (arith, h))
first_of-GivesFirst r name (s ∷ rest) v h = elim (Option-cases (read r name s)) [
  | inl nothing ↦ inr (
    read-IsSilent r name s nothing,
    first_of-GivesFirst r name rest v (ground (arith, h, nothing)),
  )
  | inr (u, given) ↦ inl (read-Gives r name s v (ground (arith, h, given)))
]

pub coerce_if-Converts :
    (parse : Parsers) (name : String) (k : Option ParamType) (v w : Value)
    → coerce_if parse name v k ≡ value w
    → Converts parse k v w
unfolding coerce_type
coerce_if-Converts parse name none v w h = ground (arith, h)
coerce_if-Converts parse name (some type_string) (Value.str s) w h = (s, refl, ground (arith, h))
coerce_if-Converts parse name (some type_string) (Value.num n) w h = absurd (ground (arith, h))
coerce_if-Converts parse name (some type_string) (Value.bool b) w h = absurd (ground (arith, h))
coerce_if-Converts parse name (some type_string) (Value.arr xs) w h = absurd (ground (arith, h))
coerce_if-Converts parse name (some type_string) (Value.obj o) w h = absurd (ground (arith, h))
coerce_if-Converts parse name (some type_string) Value.null w h = absurd (ground (arith, h))
coerce_if-Converts parse name (some type_number) (Value.str s) w h =
    elim (Option-cases (parse.parse_float s)) [
      | inl bad ↦ absurd (ground (arith, h, bad))
      | inr (n, good) ↦ inr (s, n, refl, good, ground (arith, h, good))
    ]
coerce_if-Converts parse name (some type_number) (Value.num n) w h =
    inl (n, refl, ground (arith, h))
coerce_if-Converts parse name (some type_number) (Value.bool b) w h = absurd (ground (arith, h))
coerce_if-Converts parse name (some type_number) (Value.arr xs) w h = absurd (ground (arith, h))
coerce_if-Converts parse name (some type_number) (Value.obj o) w h = absurd (ground (arith, h))
coerce_if-Converts parse name (some type_number) Value.null w h = absurd (ground (arith, h))
coerce_if-Converts parse name (some type_boolean) (Value.str s) w h =
    elim (Bool-cases (is_lowered (codes s) (codes "true"))) [
      | inl affirmed ↦ inr (s, true, refl, ground (arith, h, affirmed), affirmed)
      | inr other ↦ elim (Bool-cases (is_lowered (codes s) (codes "false"))) [
        | inl denied ↦ inr (s, false, refl, ground (arith, h, other, denied), denied)
        | inr neither ↦ absurd (ground (arith, h, other, neither))
      ]
    ]
coerce_if-Converts parse name (some type_boolean) (Value.num n) w h = absurd (ground (arith, h))
coerce_if-Converts parse name (some type_boolean) (Value.bool b) w h =
    inl (b, refl, ground (arith, h))
coerce_if-Converts parse name (some type_boolean) (Value.arr xs) w h = absurd (ground (arith, h))
coerce_if-Converts parse name (some type_boolean) (Value.obj o) w h = absurd (ground (arith, h))
coerce_if-Converts parse name (some type_boolean) Value.null w h = absurd (ground (arith, h))
coerce_if-Converts parse name (some type_array) (Value.str s) w h =
    elim (Option-cases (parse.parse_array s)) [
      | inl bad ↦ absurd (ground (arith, h, bad))
      | inr (xs, good) ↦ inr (s, xs, refl, good, ground (arith, h, good))
    ]
coerce_if-Converts parse name (some type_array) (Value.num n) w h = absurd (ground (arith, h))
coerce_if-Converts parse name (some type_array) (Value.bool b) w h = absurd (ground (arith, h))
coerce_if-Converts parse name (some type_array) (Value.arr xs) w h =
    inl (xs, refl, ground (arith, h))
coerce_if-Converts parse name (some type_array) (Value.obj o) w h = absurd (ground (arith, h))
coerce_if-Converts parse name (some type_array) Value.null w h = absurd (ground (arith, h))
coerce_if-Converts parse name (some type_object) (Value.str s) w h = absurd (ground (arith, h))
coerce_if-Converts parse name (some type_object) (Value.num n) w h = absurd (ground (arith, h))
coerce_if-Converts parse name (some type_object) (Value.bool b) w h = absurd (ground (arith, h))
coerce_if-Converts parse name (some type_object) (Value.arr xs) w h = absurd (ground (arith, h))
coerce_if-Converts parse name (some type_object) (Value.obj o) w h = (o, refl, ground (arith, h))
coerce_if-Converts parse name (some type_object) Value.null w h = absurd (ground (arith, h))
