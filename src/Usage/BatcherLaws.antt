-- ===== src/Usage/BatcherLaws.antt =====
-- notification_batcher.go: every remote request is summarised once.
use foundryvtt_rest_api_rela.Base.{
  Bool, List, Option, Option-cases, String, [], arith, if◌then◌else◌, inl, inr, lookup,
  lookup-delete, lookup-insert, nat_eq, none, refl, some, string_eq, suc, true, ℕ, ◌++◌, ◌+◌, ◌==◌,
  ◌∙◌, ◌∷◌, ◌≡◌,
}
use foundryvtt_rest_api_rela.Usage.Batcher.{
  BatchKey, key_eq, BatchEntry, RemoteRequestBatcher, new_entry, add_event, flush_batch,
  same_key_iff, new_remote_request_batcher, set_user_window, entry_or, raised, keys, flush_each,
  shutdown,
}

-- The requests that the summaries of a key speak of, and those that still wait.
abbrev pub total_of : Option BatchEntry → ℕ
total_of none = 0
total_of (some e) = e.total_count

unfoldable pub summarised : BatchKey → List (BatchKey × BatchEntry) → ℕ
summarised key [] = 0
summarised key ((k, e) ∷ ds) =
    if k == key then e.total_count + summarised key ds else summarised key ds

abbrev pub told : BatchKey → RemoteRequestBatcher → ℕ
told key b = summarised key b.dispatched + total_of (lookup key b.pending)

summarised-append :
    (key k : BatchKey) (e : BatchEntry) (ds : List (BatchKey × BatchEntry))
    → summarised key (ds ++ (k, e) ∷ [])
      ≡ summarised key ds + (if k == key then e.total_count else 0)
unfolding summarised
summarised-append key k e [] = ground arith
summarised-append key k e ((j, f) ∷ ds) = ground (arith, summarised-append key k e ds)

told-flush_batch :
    (key k : BatchKey) (b : RemoteRequestBatcher) → told key (flush_batch k b) ≡ told key b
unfolding flush_batch
told-flush_batch key k b = elim (Option-cases (lookup k b.pending)) [
  | inl missing ↦ rw (missing, flush_batch) refl
  | inr (e, found) ↦
      rw (found, flush_batch)
        (ground (
          arith,
          found,
          same_key_iff k key,
          summarised-append key k e b.dispatched,
          lookup-delete k key b.pending,
        ))
]

told-add_event :
    (key k : BatchKey) (action token_name : String) (success : Bool) (now : ℕ)
    (b : RemoteRequestBatcher)
    → told key (add_event k action token_name success now b)
      ≡ told key b + (if k == key then 1 else 0)
unfolding add_event new_entry
told-add_event key k action token_name success now b = ground (
  arith,
  same_key_iff k key,
  lookup-insert k key
      (raised action success now (entry_or (new_entry k token_name now b) (lookup k b.pending)))
      b.pending,
)

told-flush_each :
    (key : BatchKey) (ks : List BatchKey) (b : RemoteRequestBatcher)
    → told key (flush_each ks b) ≡ told key b
unfolding flush_each
told-flush_each key [] b = refl
told-flush_each key (k ∷ ks) b = told-flush_each key ks (flush_batch k b) ∙ told-flush_batch key k b

told-shutdown :
    (key : BatchKey) (b b' : RemoteRequestBatcher) → shutdown b ≡ some b' → told key b' ≡ told key b
unfolding shutdown
told-shutdown key b b' h =
    ground (arith, h, told-flush_each key (keys b.pending) (record b { closed = true }))

-- What happens to the batcher: `fires` is a timer.
pub data Call : Type 0 where
  adds : BatchKey → String → String → Bool → ℕ → Call
  fires : BatchKey → Call
  sets_window : ℕ → ℕ → Call
  shuts_down : Call

-- `none` is a panic.
abbrev pub step : Call → RemoteRequestBatcher → Option RemoteRequestBatcher
step (adds key action token_name success now) b =
    some (add_event key action token_name success now b)
step (fires key) b = some (flush_batch key b)
step (sets_window user_id d) b = some (set_user_window user_id d b)
step shuts_down b = shutdown b

abbrev pub run : List Call → RemoteRequestBatcher → Option RemoteRequestBatcher
run [] b = some b
run (c ∷ cs) b = elim (step c b) [ none ↦ none | some b' ↦ run cs b' ]

-- The requests of a key among the calls.
abbrev pub requests : BatchKey → List Call → ℕ
requests key [] = 0
requests key (adds k action token_name success now ∷ cs) =
    if k == key then suc (requests key cs) else requests key cs
requests key (fires k ∷ cs) = requests key cs
requests key (sets_window user_id d ∷ cs) = requests key cs
requests key (shuts_down ∷ cs) = requests key cs

told_from :
    (key : BatchKey) (cs : List Call) (b b' : RemoteRequestBatcher)
    → run cs b ≡ some b'
    → told key b' ≡ told key b + requests key cs
unfolding set_user_window
told_from key [] b b' h = ground (arith, h)
told_from key (adds k action token_name success now ∷ cs) b b' h = ground (
  arith,
  told-add_event key k action token_name success now b,
  told_from key cs (add_event k action token_name success now b) b' h,
)
told_from key (fires k ∷ cs) b b' h =
    told_from key cs (flush_batch k b) b' h ∙ ground (arith, told-flush_batch key k b)
told_from key (sets_window user_id d ∷ cs) b b' h =
    told_from key cs (set_user_window user_id d b) b' h
told_from key (shuts_down ∷ cs) b b' h = elim (Option-cases (shutdown b)) [
  | inl panics ↦ absurd (ground (arith, panics, h))
  | inr (closed, e) ↦
      told_from key cs closed b' (ground (arith, e, h))
      ∙ ground (arith, told-shutdown key b closed e)
]

-- However requests, timers, changes of a user's window and a shutdown follow each other, as long as
-- nothing panics, the requests of a key that summaries have spoken of and those that still wait for
-- one are together the requests that have been added for the key: none is told twice or forgotten.
pub told-run :
    (key : BatchKey) (cs : List Call) (window : ℕ) (b : RemoteRequestBatcher)
    → run cs (new_remote_request_batcher window) ≡ some b
    → summarised key b.dispatched + total_of (lookup key b.pending) ≡ requests key cs
unfolding new_remote_request_batcher summarised lookup
told-run key cs window b h = omega (arith, told_from key cs (new_remote_request_batcher window) b h)
