-- ===== src/Model/Scopes.antt =====
-- model/scopes.go: lists of scopes; and the cross-world permissions of model/known_client.go. A nil
-- slice reads as the empty list.
use foundryvtt_rest_api_rela.Base.{
  Bool, List, Option, String, [], any, contains, if◌then◌else◌, nat_eq, none, not, some, string_eq,
  ℕ, ◌&&◌, ◌==◌, ◌||◌,
}
use foundryvtt_rest_api_rela.Model.Csv.{trim_space, join, items, is_blank}

unfoldable pub parse_scopes : String → List String
parse_scopes csv = if is_blank (trim_space csv) then [] else items (trim_space csv)

unfoldable pub scopes_string : List String → String
scopes_string scopes = join scopes

abbrev pub has_scope : List String → String → Bool
has_scope scopes required = contains required scopes

-- The permissions of a world, `none` where the column is NULL.
pub record KnownClient : Type 0 where
  pub id : ℕ
  pub user_id : ℕ
  pub client_id : String
  pub auto_start_on_remote_request : Bool
  pub allowed_target_clients : Option String
  pub remote_scopes : Option String
  pub remote_requests_per_hour : ℕ

abbrev pub column_items : Option String → List String
column_items none = []
column_items (some csv) = items csv

unfoldable pub get_allowed_targets : KnownClient → List String
get_allowed_targets c = column_items c.allowed_target_clients

unfoldable pub get_remote_scopes : KnownClient → List String
get_remote_scopes c = column_items c.remote_scopes

unfoldable pub can_target : KnownClient → String → Bool
unfolding get_allowed_targets
can_target c client_id =
    not (client_id == "") && any (λ t. t == "*" || t == client_id) (get_allowed_targets c)

unfoldable pub has_remote_scope : KnownClient → String → Bool
unfolding get_remote_scopes
has_remote_scope c scope = not (scope == "") && any (λ g. g == scope) (get_remote_scopes c)
