-- ===== src/Approval/Keys/Grants.antt =====
-- handler/key_request.go: what an approval grants.
use foundryvtt_rest_api_rela.Base.{
  All, Bool-cases, List, Option, Option-cases, String, [], arith, contains, eqb_iff, false, inl,
  inr, insert, lookup, lookup-insert, ltb, nat_eq, none, refl, some, str_iff, string_eq, subst, suc,
  true, ℕ, ◌==◌, ◌∷◌, ◌≡◌, ◌≤◌,
}
use foundryvtt_rest_api_rela.Access.Cache.{ApiKey}
use foundryvtt_rest_api_rela.Model.Scopes.{parse_scopes, has_scope}
use foundryvtt_rest_api_rela.Model.CsvLaws.{IsClean, parse_scopes-scopes_string}
use foundryvtt_rest_api_rela.Model.CsvItems.{parse_scopes-IsClean}
use foundryvtt_rest_api_rela.Approval.Status.{is_pending}
use foundryvtt_rest_api_rela.Approval.KeyStores.{KeyRequest, KeyTables, Faults, find_by_code}
use foundryvtt_rest_api_rela.Approval.Keys.{
  Reply, error, granted, Approval, chosen_scopes, first_ungranted, granted_key, approved_row, grant,
  approve_key,
}

-- The key `n` of the user, for the row that the code finds.
pub record Grant (f : Faults) (user_id : ℕ) (code : String) (b : Approval) (now : ℕ) (t : KeyTables)
    (n : ℕ) (t' : KeyTables) : Type 0 where
  pub id : ℕ
  pub row : KeyRequest
  pub found : find_by_code f code t ≡ some (id, row)
  pub was_pending : is_pending row.status ≡ true
  pub in_time : now ≤ row.expires_at
  pub key : ApiKey
  pub stored : lookup n t'.keys ≡ some key
  pub owned : key.user_id ≡ user_id
  pub as_chosen : parse_scopes key.scopes ≡ chosen_scopes b row
  pub requested :
      All (λ s. has_scope (parse_scopes row.requested_scopes) s ≡ true) (parse_scopes key.scopes)
  pub row' : KeyRequest
  pub stays : lookup id t'.requests ≡ some row'
  pub linked : row'.approved_key_id ≡ some n

first_ungranted-All :
    (requested ss : List String)
    → first_ungranted requested ss ≡ none
    → All (λ s. has_scope requested s ≡ true) ss
unfolding first_ungranted
first_ungranted-All requested [] h = tt
first_ungranted-All requested (s ∷ ss) h = elim (Bool-cases (has_scope requested s)) [
  | inl granted_one ↦
      (granted_one, first_ungranted-All requested ss (ground (arith, granted_one, h)))
  | inr outside ↦ absurd (ground (arith, outside, h))
]

member_of {ℓ} :
    (P : String → Type ℓ) (s : String) (xs : List String) → contains s xs ≡ true → All P xs → P s
unfolding contains
member_of P s [] h a = cc
member_of P s (x ∷ xs) h (p, ps) = elim (Bool-cases (x == s)) [
  | inl same ↦ subst P ((str_iff x s).0 same) p
  | inr other ↦ member_of P s xs (ground (arith, other, h)) ps
]

chosen-IsClean :
    (csv : String) (ss : List String)
    → All (λ s. has_scope (parse_scopes csv) s ≡ true) ss
    → All IsClean ss
chosen-IsClean csv [] h = tt
chosen-IsClean csv (s ∷ ss) (h, hs) =
    (member_of IsClean s (parse_scopes csv) h (parse_scopes-IsClean csv), chosen-IsClean csv ss hs)

-- Every result that grants a key comes with what holds then.
data Granted (f : Faults) (user_id : ℕ) (code : String) (b : Approval) (now : ℕ) (t : KeyTables)
    (result : Reply × KeyTables) : Type 0 where
  if_granted :
      ((n : ℕ) (scopes : List String) (xc : Option String) (t' : KeyTables)
        → result ≡ (granted n scopes xc, t')
        → Grant f user_id code b now t n t')
      → Granted f user_id code b now t result

module _ (f : Faults) (user_id : ℕ) (code : String) (b : Approval) (now : ℕ) (t : KeyTables) where
  no_grant :
      (status : ℕ) (text : String) (t' : KeyTables)
      → Granted f user_id code b now t (error status text, t')
  no_grant status text t' = if_granted (λ n scopes xc u e. absurd (ground (arith, e)))

  granting :
      (id : ℕ) (r : KeyRequest) (key_str fresh : String)
      → find_by_code f code t ≡ some (id, r)
      → is_pending r.status ≡ true
      → ltb r.expires_at now ≡ false
      → first_ungranted (parse_scopes r.requested_scopes) (chosen_scopes b r) ≡ none
      → Granted f user_id code b now t (grant f user_id key_str fresh id r (chosen_scopes b r) b t)
  unfolding grant
  granting id r key_str fresh found open_yet due within = elim (Bool-cases f.creates_key) [
    | inl down ↦ simp (down) (no_grant _ _ _)
    | inr up ↦ simp (up) (elim (Bool-cases f.updates) [
      | inl lost ↦ simp (lost) (no_grant _ _ _)
      | inr recorded ↦
          simp (recorded) (
            if_granted (λ n scopes xc u e. moved_grant n u (ground (arith, e)) (ground (arith, e))))
    ])
  ]
    where
      key : ApiKey
      key = granted_key user_id key_str (chosen_scopes b r) b t.next_key

      all : All (λ s. has_scope (parse_scopes r.requested_scopes) s ≡ true) (chosen_scopes b r)
      all = first_ungranted-All (parse_scopes r.requested_scopes) (chosen_scopes b r) within

      back : parse_scopes key.scopes ≡ chosen_scopes b r
      back =
          unfold granted_key in
          parse_scopes-scopes_string (chosen_scopes b r)
            (chosen-IsClean r.requested_scopes (chosen_scopes b r) all)

      t' : KeyTables
      t' = record t {
        requests = insert id (approved_row t.next_key user_id fresh r) t.requests;
        keys = insert t.next_key key t.keys;
        next_key = suc t.next_key;
      }

      new_grant : Grant f user_id code b now t t.next_key t'
      new_grant = record {
        id = id;
        row = r;
        found = found;
        was_pending = open_yet;
        in_time = ground (arith, due);
        key = key;
        stored =
            ground (
              arith,
              lookup-insert t.next_key t.next_key key t.keys,
              eqb_iff t.next_key t.next_key,
            );
        owned = unfold granted_key in refl;
        as_chosen = back;
        requested = rw (back) all;
        row' = approved_row t.next_key user_id fresh r;
        stays = ground (
          arith,
          lookup-insert id id (approved_row t.next_key user_id fresh r) t.requests,
          eqb_iff id id,
        );
        linked = unfold approved_row in refl;
      }

      moved_grant :
          (n : ℕ) (u : KeyTables) → n ≡ t.next_key → u ≡ t' → Grant f user_id code b now t n u
      moved_grant n u p q = rw (p, q) new_grant

  approve_key-Granted :
      (key_str : Option String) (fresh : String)
      → Granted f user_id code b now t (approve_key f user_id code b key_str fresh now t)
  unfolding approve_key
  approve_key-Granted key_str fresh = elim (Option-cases (find_by_code f code t)) [
    | inl missing ↦ rw (missing, approve_key) (no_grant _ _ t)
    | inr ((id, r), found) ↦
        rw (found, approve_key)
          (elim (Bool-cases (is_pending r.status)) [
            | inr other ↦ rw (other) (no_grant _ _ _)
            | inl open_yet ↦ rw (open_yet) (elim (Bool-cases (ltb r.expires_at now)) [
              | inl late ↦ rw (late) (no_grant _ _ _)
              | inr due ↦
                  rw (due)
                    (elim (Option-cases
                      (first_ungranted (parse_scopes r.requested_scopes) (chosen_scopes b r))) [
                        | inr (s, outside) ↦ rw (outside) (no_grant _ _ _)
                        | inl within ↦ rw (within) (elim (Option-cases key_str) [
                          | inl no_key ↦ rw (no_key) (no_grant _ _ _)
                          | inr (key, made) ↦
                              rw (made) (granting id r key fresh found open_yet due within)
                        ])
                      ])
            ])
          ])
  ]

  -- If an approval answers with a key, the code's request was pending and in time, the key with that
  -- id belongs to the approving user, its scopes are the chosen ones (the requested ones if none is
  -- chosen), every one of them was requested, and the request is linked to the key.
  pub approve_key_lem :
      (key_str : Option String) (fresh : String) (n : ℕ) (scopes : List String) (xc : Option String)
      (t' : KeyTables)
      → approve_key f user_id code b key_str fresh now t ≡ (granted n scopes xc, t')
      → Grant f user_id code b now t n t'
  approve_key_lem key_str fresh n scopes xc t' h = elim (approve_key-Granted key_str fresh) [
    | if_granted all ↦ all n scopes xc t' h
  ]
