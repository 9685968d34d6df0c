-- ===== src/Ws/Manager/Groups.antt =====
-- manager.go, `tokenGroups`: the client ids under each API key. A group is a `map[string]bool` that
-- holds only `true`; a nil or missing group reads as empty.
use foundryvtt_rest_api_rela.Base.{
  Bool, Dict, List, Option, Option-cases, String, [], add_member, arith, contains,
  contains-add_member, contains-remove_member, delete, false, if◌then◌else◌, inl, inr, insert,
  lookup, lookup-delete, lookup-insert, nat_eq, none, not, remove_member, some, str_iff, string_eq,
  true, ◌&&◌, ◌==◌, ◌||◌, ◌∷◌, ◌≡◌,
}

abbrev pub Groups : Type 0
Groups = Dict String (List String)

abbrev pub members_or_nil : Option (List String) → List String
members_or_nil none = []
members_or_nil (some ids) = ids

unfoldable pub members : String → Groups → List String
members token g = members_or_nil (lookup token g)

abbrev pub in_group : String → String → Groups → Bool
in_group token id g = contains id (members token g)

unfoldable pub join : String → String → Groups → Groups
unfolding members
join token id g = insert token (add_member id (members token g)) g

abbrev is_empty : List String → Bool
is_empty [] = true
is_empty (_ ∷ _) = false

-- An emptied group is deleted.
unfoldable pub leave : String → String → Groups → Groups
leave token id g = elim (lookup token g) [
  | none ↦ g
  | some ids ↦
      let ids' = remove_member id ids in
      if is_empty ids' then delete token g else insert token ids' g
]

abbrev pub both : String → String → String → String → Bool
both token id token' id' = (token == token') && (id == id')

pub in_group-join :
    (token id token' id' : String) (g : Groups)
    → in_group token' id' (join token id g) ≡ (both token id token' id' || in_group token' id' g)
unfolding join members
in_group-join token id token' id' g = ground (
  arith,
  str_iff token token',
  lookup-insert token token' (add_member id (members_or_nil (lookup token g))) g,
  contains-add_member id id' (members_or_nil (lookup token g)),
)

pub in_group-leave :
    (token id token' id' : String) (g : Groups)
    → in_group token' id' (leave token id g)
      ≡ (not (both token id token' id') && in_group token' id' g)
unfolding leave members contains
in_group-leave token id token' id' g = elim (Option-cases (lookup token g)) [
  | inl missing ↦ rw (missing, leave) (ground (arith, missing, str_iff token token'))
  | inr (ids, found) ↦
      rw (found, leave)
        (ground (
          arith,
          found,
          str_iff token token',
          lookup-delete token token' g,
          lookup-insert token token' (remove_member id ids) g,
          contains-remove_member id id' ids,
        ))
]
