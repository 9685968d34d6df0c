-- ===== src/Usage/BatcherTests.antt =====
-- notification_batcher.go at concrete inputs.
use foundryvtt_rest_api_rela.Base.{
  List, [], false, lookup, nat_eq, none, refl, some, string_eq, true, ◌+◌, ◌∷◌, ◌≡◌,
}
use foundryvtt_rest_api_rela.Usage.Batcher.{
  key_eq, BatchKey, RemoteRequestBatcher, new_remote_request_batcher,
}
use foundryvtt_rest_api_rela.Usage.BatcherLaws.{
  total_of, summarised, Call, adds, fires, run, requests, told-run,
}

key : BatchKey
key = record { user_id = 7; source_token_id = 4; target_client = "world_b" }

transfer : List Call
transfer =
    adds key "create" "Firefox" true 100
    ∷ adds key "create" "Firefox" false 200
    ∷ fires key
    ∷ adds key "get" "Firefox" true 900
    ∷ []

fresh : RemoteRequestBatcher
fresh = new_remote_request_batcher 0

batches : RemoteRequestBatcher
batches = elim (run transfer fresh) [ none ↦ fresh | some b ↦ b ]

nothing_panics : run transfer fresh ≡ some batches
unfolding transfer batches
nothing_panics = refl

told-run_example :
    summarised key batches.dispatched + total_of (lookup ⦃e = key_eq⦄ key batches.pending)
    ≡ requests key transfer
unfolding fresh
told-run_example = told-run key transfer 0 batches nothing_panics
