-- ===== src/Approval/Pairing/Offers.antt =====
-- handler/connection_tokens.go: what each search for an earlier row of a pairing world finds.
use foundryvtt_rest_api_rela.Base.{
  Bool, Bool-cases, ap, Option, Option-cases, String, arith, eqb, false, find_row, find_row-holds,
  inl, inr, nat_eq, none, refl, some, str_iff, string_eq, subst, sym, true, ℕ, ◌&&◌, ◌==◌, ◌≡◌, ◌⊎◌,
}
use foundryvtt_rest_api_rela.Model.Csv.{trim_space}
use foundryvtt_rest_api_rela.Approval.Worlds.{
  World, PairTables, equals_text, find_world, is_client, is_world, has_fingerprint, is_world_at,
}
use foundryvtt_rest_api_rela.Approval.Pairing.{
  Faults, Body, origin_consistent, reused, by_existing, by_fingerprint, by_world,
}

-- The origin that a row stores, empty if there is none.
abbrev pub stored : Option String → String
stored none = ""
stored (some url) = trim_space url

-- A row fits an origin if one of the two is unknown or both are the same.
abbrev pub Fits : String → World → Type 0
Fits origin w = (origin ≡ "") ⊎ (stored w.public_url ≡ "") ⊎ (stored w.public_url ≡ origin)

abbrev pub IsAt : String → World → Type 0
IsAt origin w = w.public_url ≡ some origin

-- The first row that is looked for is the user's, is acceptable, and has the client id.
pub record Offer (user_id : ℕ) (key : String) (p : World → Bool) (Q : World → Type 0)
    (t : PairTables) (client_id : String) : Type 0 where
  pub asked : (key == "") ≡ false
  pub id : ℕ
  pub world : World
  pub first : find_row p t.worlds ≡ some (id, world)
  pub owned : world.client.user_id ≡ user_id
  pub acceptable : Q world
  pub named : world.client.client_id ≡ client_id
  pub given : (client_id == "") ≡ false

-- Nothing is looked for, or the first row, if there is one, is not acceptable or has no client id.
abbrev pub Declined : String → (World → Bool) → (World → Type 0) → PairTables → Type 0
Declined key p Q t =
    ((key == "") ≡ true)
    ⊎ ((id : ℕ) (w : World)
        → find_row p t.worlds ≡ some (id, w)
        → Q w
        → (w.client.client_id == "") ≡ true)

abbrev pub Result : ℕ → String → (World → Bool) → (World → Type 0) → PairTables → String → Type 0
Result user_id key p Q t x = (((x == "") ≡ true) × Declined key p Q t) ⊎ Offer user_id key p Q t x

consistent-Fits : (w : World) (origin : String) → origin_consistent w origin ≡ true → Fits origin w
unfolding origin_consistent
consistent-Fits w origin h = elim (Bool-cases (origin == "")) [
  | inl anywhere ↦ inl ((str_iff origin "").0 anywhere)
  | inr somewhere ↦ elim (Option-cases w.public_url) [
    | inl unknown ↦ inr (inl (ground (arith, unknown)))
    | inr (url, known) ↦ elim (Bool-cases (trim_space url == "")) [
      | inl blank ↦ inr (inl (ground (arith, known, str_iff (trim_space url) "", blank)))
      | inr here ↦
          inr (inr (ground (arith, known, str_iff (trim_space url) origin, h, somewhere, here)))
    ]
  ]
]

Fits-consistent : (w : World) (origin : String) → Fits origin w → origin_consistent w origin ≡ true
unfolding origin_consistent
Fits-consistent w origin (inl anywhere) = ground (arith, str_iff origin "", anywhere)
Fits-consistent w origin (inr fits) = elim (Option-cases w.public_url) [
  | inl unknown ↦ ground (arith, unknown)
  | inr (url, known) ↦
      ground (arith, known, fits, str_iff (trim_space url) "", str_iff (trim_space url) origin)
]

module _ (user_id : ℕ) (origin key : String) (t : PairTables) (asked : (key == "") ≡ false) where
  reused-Result :
      (p : World → Bool)
      → ((w : World) → p w ≡ true → w.client.user_id ≡ user_id)
      → Result user_id key p (Fits origin) t (reused (find_world false p t.worlds) origin)
  unfolding reused find_world
  reused-Result p own = elim (Option-cases (find_row p t.worlds)) [
    | inl nothing ↦ inl (
      (str_iff _ "").1 (ground (arith, nothing)),
      inr (λ id w h q. absurd (ground (arith, h, nothing))),
    )
    | inr ((id, w), found) ↦ elim (Bool-cases (origin_consistent w origin)) [
      | inr other ↦ inl (
        (str_iff _ "").1 (ground (arith, found, other)),
        inr (λ j v h q. absurd (ground (arith, h, found, other, Fits-consistent v origin q))),
      )
      | inl fits ↦
          let same : reused (find_world false p t.worlds) origin ≡ w.client.client_id =
            ground (arith, found, fits) in
          elim (Bool-cases (w.client.client_id == "")) [
            | inl blank ↦ inl (
              subst (λ x. (x == "") ≡ true) (sym same) blank,
              inr (λ j v h q. ground (arith, h, found, blank)),
            )
            | inr named ↦ inr (record {
              asked = asked;
              id = id;
              world = w;
              first = found;
              owned = own w (find_row-holds p t.worlds id w found);
              acceptable = consistent-Fits w origin fits;
              named = sym same;
              given = subst (λ x. (x == "") ≡ false) (sym same) named;
            })
          ]
    ]
  ]

owner : (u v : ℕ) (rest : Bool) → (eqb u v && rest) ≡ true → u ≡ v
owner u v rest h = ground (arith, h)

equals_text-some : (o : Option String) (s : String) → equals_text o s ≡ true → o ≡ some s
equals_text-some none s h = absurd (ground (arith, h))
equals_text-some (some u) s h = ap some ((str_iff u s).0 h)

-- What a pairing by the world's id looks for: a row at the origin, if the origin is known, and without
-- one a row anywhere.
abbrev pub NoneAt : ℕ → Body → PairTables → Type 0
NoneAt user_id b t =
    ((b.server_origin == "") ≡ true)
    ⊎ (find_row (is_world_at user_id b.world_id b.server_origin) t.worlds ≡ none)

abbrev pub OfferAt : ℕ → Body → PairTables → String → Type 0
OfferAt user_id b t x =
    ((b.server_origin == "") ≡ false)
    × Offer user_id b.world_id (is_world_at user_id b.world_id b.server_origin)
        (IsAt b.server_origin) t x

abbrev pub OfferAnywhere : ℕ → Body → PairTables → String → Type 0
OfferAnywhere user_id b t x =
    NoneAt user_id b t
    × Offer user_id b.world_id (is_world user_id b.world_id) (Fits b.server_origin) t x

-- A row at the origin without a client id ends the search.
abbrev pub NoWorld : ℕ → Body → PairTables → Type 0
NoWorld user_id b t =
    ((id : ℕ) × (w : World) × (find_row (is_world_at user_id b.world_id b.server_origin) t.worlds
        ≡ some (id, w))
      × ((w.client.client_id == "") ≡ true))
    ⊎ Declined b.world_id (is_world user_id b.world_id) (Fits b.server_origin) t

abbrev pub WorldResult : ℕ → Body → PairTables → String → Type 0
WorldResult user_id b t x =
    (((x == "") ≡ true) × NoWorld user_id b t) ⊎ OfferAt user_id b t x ⊎ OfferAnywhere user_id b t x

module _ (f : Faults) (user_id : ℕ) (b : Body) (t : PairTables) (up : f.finds_world ≡ false) where
  pub existing-Result :
      Result user_id b.existing_client_id
        (is_client user_id b.existing_client_id)
        (Fits b.server_origin)
        t
        (by_existing f user_id b t)
  unfolding by_existing
  existing-Result = elim (Bool-cases (b.existing_client_id == "")) [
    | inl blank ↦ inl ((str_iff _ "").1 (ground (arith, blank)), inl blank)
    | inr asked ↦
        let p = is_client user_id b.existing_client_id in
        let same : by_existing f user_id b t
            ≡ reused (find_world false p t.worlds) b.server_origin =
          rw (asked, up) refl in
        subst (Result user_id b.existing_client_id p (Fits b.server_origin) t) (sym same) (
          reused-Result user_id b.server_origin b.existing_client_id t asked p
            (λ w h. owner _ user_id _ h))
  ]

  pub fingerprint-Result :
      Result user_id b.server_fingerprint
        (has_fingerprint user_id b.server_fingerprint)
        (Fits b.server_origin)
        t
        (by_fingerprint f user_id b t)
  unfolding by_fingerprint
  fingerprint-Result = elim (Bool-cases (b.server_fingerprint == "")) [
    | inl blank ↦ inl ((str_iff _ "").1 (ground (arith, blank)), inl blank)
    | inr asked ↦
        let p = has_fingerprint user_id b.server_fingerprint in
        let same : by_fingerprint f user_id b t
            ≡ reused (find_world false p t.worlds) b.server_origin =
          rw (asked, up) refl in
        subst (Result user_id b.server_fingerprint p (Fits b.server_origin) t) (sym same) (
          reused-Result user_id b.server_origin b.server_fingerprint t asked p
            (λ w h. owner _ user_id _ h))
  ]

  anywhere-Result :
      (x : String)
      → (b.world_id == "") ≡ false
      → NoneAt user_id b t
      → x ≡ reused (find_world false (is_world user_id b.world_id) t.worlds) b.server_origin
      → WorldResult user_id b t x
  anywhere-Result x asked nowhere same =
      elim (reused-Result user_id b.server_origin b.world_id t asked (is_world user_id b.world_id)
        (λ w h. owner _ user_id _ h)) [
          | inl (blank, declined) ↦
              inl (subst (λ y. (y == "") ≡ true) (sym same) blank, inr declined)
          | inr offer ↦ inr (
              inr (
                nowhere,
                subst
                    (Offer user_id b.world_id (is_world user_id b.world_id) (Fits b.server_origin)
                      t)
                    (sym same) offer,
              ))
        ]

  pub world-Result : WorldResult user_id b t (by_world f user_id b t)
  unfolding by_world
  world-Result = elim (Bool-cases (b.world_id == "")) [
    | inl blank ↦ inl ((str_iff _ "").1 (ground (arith, blank)), inr (inl blank))
    | inr asked ↦ elim (Bool-cases (b.server_origin == "")) [
      | inl anywhere ↦ anywhere-Result _ asked (inl anywhere) (rw (asked, anywhere, up) refl)
      | inr somewhere ↦
          elim (Option-cases (find_row (is_world_at user_id b.world_id b.server_origin) t.worlds)) [
            | inl nothing ↦
                anywhere-Result _ asked (inr nothing)
                  (unfold find_world in rw (asked, somewhere, up, nothing) refl)
            | inr ((id, w), found) ↦
                let p = is_world_at user_id b.world_id b.server_origin in
                let same : by_world f user_id b t ≡ w.client.client_id =
                  unfold find_world in rw (asked, somewhere, up, found) refl in
                let holds : p w ≡ true = find_row-holds p t.worlds id w found in
                elim (Bool-cases (w.client.client_id == "")) [
                  | inl blank ↦
                      inl
                        (subst (λ y. (y == "") ≡ true) (sym same) blank, inl (id, w, found, blank))
                  | inr named ↦ inr (
                      inl (
                        somewhere,
                        record {
                          asked = asked;
                          id = id;
                          world = w;
                          first = found;
                          owned = ground (arith, holds);
                          acceptable =
                              equals_text-some w.public_url b.server_origin (ground (arith, holds));
                          named = sym same;
                          given = subst (λ y. (y == "") ≡ false) (sym same) named;
                        },
                      ))
                ]
          ]
    ]
  ]
