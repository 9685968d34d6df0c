-- ===== src/Route/ParamLaws.antt =====
-- handler/helpers/params.go: which parameters a request gives.
use foundryvtt_rest_api_rela.Base.{
  All, List, Option-cases, String, [], arith, beq_self, contains, false, inl, inr, insert, lookup,
  lookup-insert, nat_eq, none, refl, some, string_eq, subst, sym, ◌++◌, ◌==◌, ◌∙◌, ◌∷◌, ◌≡◌, ◌⊎◌,
}
use foundryvtt_rest_api_rela.Base.Json.{Value}
use foundryvtt_rest_api_rela.Route.Params.{
  Coerced, ParamDef, Params, Input, Parsers, first_of, coerce_if, value, invalid, params,
  extract_each, extract_params,
}
use foundryvtt_rest_api_rela.Route.Conversions.{
  IsSilent, GivesFirst, Converts, Outcome, first_of-IsSilent, first_of-GivesFirst,
  coerce_if-Converts,
}

abbrev pub names : List ParamDef → List String
names [] = []
names (d ∷ ds) = d.name ∷ names ds

-- One round of the loop: the parameters go on with the value of the definition.
data Round (parse : Parsers) (r : Input) (d : ParamDef) (ds : List ParamDef) (p q : Params)
    : Type 0 where
  goes :
      (p' : Params)
      → ((k : String) → (d.name == k) ≡ false → lookup k p' ≡ lookup k p)
      → Outcome parse r d (lookup d.name p) (lookup d.name p')
      → extract_each parse r ds p' ≡ params q
      → Round parse r d ds p q

Coerced-cases : (c : Coerced) → ((w : Value) × (c ≡ value w)) ⊎ ((e : String) × (c ≡ invalid e))
Coerced-cases (value w) = inl (w, refl)
Coerced-cases (invalid e) = inr (e, refl)

round :
    (parse : Parsers) (r : Input) (d : ParamDef) (ds : List ParamDef) (p q : Params)
    → extract_each parse r (d ∷ ds) p ≡ params q
    → Round parse r d ds p q
unfolding extract_each
round parse r d ds p q h = elim (Option-cases (first_of r d.name d.from)) [
  | inl nothing ↦
      goes p (λ k other. refl) (inl (first_of-IsSilent r d.name d.from nothing, refl))
        (ground (arith, h, nothing))
  | inr (v, given) ↦ elim (Coerced-cases (coerce_if parse d.name v d.kind)) [
    | inr (e, bad) ↦ absurd (ground (arith, h, given, bad))
    | inl (w, good) ↦
        goes (insert d.name w p) (λ k other. ground (arith, lookup-insert d.name k w p, other))
          (inr (
            v,
            w,
            first_of-GivesFirst r d.name d.from v given,
            coerce_if-Converts parse d.name d.kind v w good,
            ground (arith, lookup-insert d.name d.name w p, beq_self d.name),
          ))
          (ground (arith, h, given, good))
  ]
]

-- A parameter that no definition names stays.
others_stay :
    (parse : Parsers) (r : Input) (ds : List ParamDef) (p q : Params) (k : String)
    → contains k (names ds) ≡ false
    → extract_each parse r ds p ≡ params q
    → lookup k q ≡ lookup k p
unfolding extract_each contains
others_stay parse r [] p q k out h = ground (arith, h)
others_stay parse r (d ∷ ds) p q k out h = elim (round parse r d ds p q h) [
  | goes p' rest this more ↦
      others_stay parse r ds p' q k (ground (arith, out)) more ∙ rest k (ground (arith, out))
]

reads :
    (parse : Parsers) (r : Input) (before after : List ParamDef) (d : ParamDef) (p q : Params)
    → contains d.name (names before) ≡ false
    → contains d.name (names after) ≡ false
    → extract_each parse r (before ++ d ∷ after) p ≡ params q
    → Outcome parse r d (lookup d.name p) (lookup d.name q)
unfolding contains
reads parse r [] after d p q out out' h = elim (round parse r d after p q h) [
  | goes p' rest this more ↦
      subst (Outcome parse r d (lookup d.name p))
        (sym (others_stay parse r after p' q d.name out' more)) this
]
reads parse r (c ∷ before) after d p q out out' h =
    elim (round parse r c (before ++ d ∷ after) p q h) [
      | goes p' rest this more ↦
          subst (λ old. Outcome parse r d old (lookup d.name q)) (rest d.name (ground (arith, out)))
            (reads parse r before after d p' q (ground (arith, out)) out' more)
    ]

-- If the extraction succeeds, then each parameter whose name has one definition is the value of the
-- first source of that definition that gives one, converted to the kind that it asks for: a text to
-- a number or an array where it parses as one, to a boolean where it is "true" or "false" in any
-- case, and every other value only if it has the kind already; where no kind is asked for, every
-- value as it is. Where no source gives a value, the parameter is absent.
pub extract_params_lem :
    (parse : Parsers) (r : Input) (before after : List ParamDef) (d : ParamDef) (p : Params)
    → contains d.name (names before) ≡ false
    → contains d.name (names after) ≡ false
    → extract_params parse r (before ++ d ∷ after) ≡ params p
    → (All (IsSilent r d.name) d.from × (lookup d.name p ≡ none))
      ⊎ ((v w : Value) × GivesFirst r d.name d.from v
          × Converts parse d.kind v w
          × (lookup d.name p ≡ some w))
unfolding lookup
extract_params_lem parse r before after d p out out' h =
    reads parse r before after d [] p out out' h

-- No parameter has a name without a definition.
pub extract_params-only :
    (parse : Parsers) (r : Input) (ds : List ParamDef) (p : Params) (k : String)
    → contains k (names ds) ≡ false
    → extract_params parse r ds ≡ params p
    → lookup k p ≡ none
unfolding lookup
extract_params-only parse r ds p k out h = others_stay parse r ds [] p k out h
