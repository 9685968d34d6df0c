-- ===== src/Approval/Pairing/Choice.antt =====
-- handler/connection_tokens.go: which client id a pairing world gets.
use foundryvtt_rest_api_rela.Base.{String, false, nat_eq, none, some, string_eq, ◌==◌, ◌≡◌, ◌⊎◌}
use foundryvtt_rest_api_rela.Approval.Worlds.{PairingCode, PairTables, is_client, has_fingerprint}
use foundryvtt_rest_api_rela.Approval.Pairing.{Body, is_add_browser}
use foundryvtt_rest_api_rela.Approval.Pairing.Offers.{
  Fits, Offer, Declined, OfferAt, OfferAnywhere, NoWorld,
}

abbrev pub IsFree : PairingCode → Type 0
IsFree c = (c.client_id ≡ none) ⊎ (c.client_id ≡ some "")

-- The searches in their order: each is made only where the ones before gave nothing.
pub data IsChoice (c : PairingCode) (b : Body) (fresh : String) (t : PairTables) (x : String)
    : Type 0 where
  bound : (x == "") ≡ false → c.client_id ≡ some x → IsChoice c b fresh t x
  by_id :
      IsFree c
      → Offer c.user_id b.existing_client_id
          (is_client c.user_id b.existing_client_id)
          (Fits b.server_origin)
          t
          x
      → IsChoice c b fresh t x
  by_print :
      IsFree c
      → Declined b.existing_client_id
          (is_client c.user_id b.existing_client_id)
          (Fits b.server_origin)
          t
      → Offer c.user_id b.server_fingerprint
          (has_fingerprint c.user_id b.server_fingerprint)
          (Fits b.server_origin)
          t
          x
      → IsChoice c b fresh t x
  by_place :
      IsFree c
      → Declined b.existing_client_id
          (is_client c.user_id b.existing_client_id)
          (Fits b.server_origin)
          t
      → Declined b.server_fingerprint
          (has_fingerprint c.user_id b.server_fingerprint)
          (Fits b.server_origin)
          t
      → OfferAt c.user_id b t x ⊎ OfferAnywhere c.user_id b t x
      → IsChoice c b fresh t x
  is_new :
      IsFree c
      → Declined b.existing_client_id
          (is_client c.user_id b.existing_client_id)
          (Fits b.server_origin)
          t
      → Declined b.server_fingerprint
          (has_fingerprint c.user_id b.server_fingerprint)
          (Fits b.server_origin)
          t
      → NoWorld c.user_id b t
      → x ≡ fresh
      → IsChoice c b fresh t x

-- What the code is bound to.
abbrev Binding : PairingCode → Type 0
Binding c =
    ((is_add_browser c ≡ false) × IsFree c)
    ⊎ ((id : String) × ((id == "") ≡ false) × (c.client_id ≡ some id))
