-- ===== src/Approval/Status.antt =====
-- model/key_request.go and model/pair_request.go: the status of a request and its life.
use foundryvtt_rest_api_rela.Base.{Bool, false, true}

pub data Status : Type 0 where
  pending approved denied exchanged expired : Status

abbrev pub is_pending : Status → Bool
is_pending pending = true
is_pending _ = false

abbrev pub is_approved : Status → Bool
is_approved approved = true
is_approved _ = false

-- The life of a request: a pending one may be approved, denied or expire, and an approved one may
-- be exchanged. Nothing leaves the other states.
pub data Move : Status → Status → Type 0 where
  stays : (s : Status) → Move s s
  approves : Move pending approved
  denies : Move pending denied
  expires : Move pending expired
  exchanges : Move approved exchanged
