-- ===== src/Approval/Keys/Effects.antt =====
-- handler/key_request.go: what a call does to the tables, as a relation that forgets codes, messages
-- and the order of the checks.
use foundryvtt_rest_api_rela.Base.{
  Bool-cases, Distinct, List, Option, Option-cases, String, arith, false, find_row-lookup, inl, inr,
  insert, lookup, ltb, nat_eq, none, refl, some, string_eq, suc, true, ℕ, ◌&&◌, ◌==◌, ◌||◌, ◌≡◌,
}
use foundryvtt_rest_api_rela.Model.Catalogue.{validate_scopes}
use foundryvtt_rest_api_rela.Model.Scopes.{parse_scopes}
use foundryvtt_rest_api_rela.Approval.Urls.{Net}
use foundryvtt_rest_api_rela.Access.Cache.{ApiKey}
use foundryvtt_rest_api_rela.Approval.Status.{
  Status, pending, approved, denied, exchanged, expired, is_pending, is_approved,
}
use foundryvtt_rest_api_rela.Approval.KeyStores.{
  KeyRequest, KeyTables, Faults, find_by_code, find_by_exchange_code, find_key, update_row,
  cleanup_expired, has_text, create_row,
}
use foundryvtt_rest_api_rela.Approval.Keys.{
  Reply, error, created, status_is, retrieved, api_key, granted, message, reply_to_poll,
  approved_row, NewRequest, request_key, hand_out, key_status, exchange_key, Approval, approve_key,
  deny_key, url_error, is_empty, new_row, chosen_scopes, first_ungranted, granted_key, grant, Call,
  asks, polls, trades, approving, denying, cleaning, step,
}

-- The key that a reply carries.
abbrev pub key_in : Reply → Option ApiKey
key_in (error code text) = none
key_in (created code until) = none
key_in (status_is code s) = none
key_in retrieved = none
key_in (api_key k) = some k
key_in (granted id scopes code) = none
key_in (message text) = none

pub data Effect (f : Faults) (t : KeyTables) (reply : Reply) (t' : KeyTables) : Type 0 where
  nothing : key_in reply ≡ none → t' ≡ t → Effect f t reply t'
  asked :
      (row : KeyRequest)
      → key_in reply ≡ none
      → row.status ≡ pending
      → t' ≡ record t {
        requests = insert t.next_request row t.requests;
        next_request = suc t.next_request;
      }
      → Effect f t reply t'
  handed :
      (id : ℕ) (r : KeyRequest) (k : ApiKey)
      → key_in reply ≡ some k
      → lookup id t.requests ≡ some r
      → r.status ≡ approved
      → find_key f r.approved_key_id t ≡ some k
      → t' ≡ update_row f id (record r { status = exchanged }) t
      → Effect f t reply t'
  keyed :
      (k : ApiKey)
      → key_in reply ≡ none
      → f.updates ≡ true
      → k.id ≡ t.next_key
      → t' ≡ record t { keys = insert t.next_key k t.keys; next_key = suc t.next_key }
      → Effect f t reply t'
  accepted :
      (id user_id : ℕ) (r : KeyRequest) (fresh : String) (k : ApiKey)
      → key_in reply ≡ none
      → lookup id t.requests ≡ some r
      → r.status ≡ pending
      → k.id ≡ t.next_key
      → t' ≡ record t {
        requests = insert id (approved_row t.next_key user_id fresh r) t.requests;
        keys = insert t.next_key k t.keys;
        next_key = suc t.next_key;
      }
      → Effect f t reply t'
  refused :
      (id : ℕ) (r : KeyRequest)
      → key_in reply ≡ none
      → lookup id t.requests ≡ some r
      → r.status ≡ pending
      → t' ≡ record t { requests = insert id (record r { status = denied }) t.requests }
      → Effect f t reply t'
  cleaned : (now : ℕ) → key_in reply ≡ none → t' ≡ cleanup_expired now t → Effect f t reply t'

pub pending_lem : (s : Status) → is_pending s ≡ true → s ≡ pending
pending_lem s h = ground arith

approved_lem : (s : Status) → is_approved s ≡ true → s ≡ approved
approved_lem s h = ground arith

module _ (f : Faults) (t : KeyTables) where
  -- The row that a code finds.
  found_by_code :
      (code : String) (id : ℕ) (r : KeyRequest)
      → Distinct t.requests
      → find_by_code f code t ≡ some (id, r)
      → lookup id t.requests ≡ some r
  unfolding find_by_code
  found_by_code code id r d h =
      find_row-lookup (λ q. q.code == code) t.requests id r d (ground (arith, h))

  found_by_exchange_code :
      (code : String) (id : ℕ) (r : KeyRequest)
      → Distinct t.requests
      → find_by_exchange_code f code t ≡ some (id, r)
      → lookup id t.requests ≡ some r
  unfolding find_by_exchange_code
  found_by_exchange_code code id r d h =
      find_row-lookup (λ q. has_text code q.exchange_code) t.requests id r d (ground (arith, h))

  given :
      (id : ℕ) (r : KeyRequest) (k : ApiKey)
      → lookup id t.requests ≡ some r
      → r.status ≡ approved
      → find_key f r.approved_key_id t ≡ some k
      → Effect f t (hand_out f id r k t).0 (hand_out f id r k t).1
  unfolding hand_out
  given id r k there h found = handed id r k refl there h found refl

  polled :
      (now id : ℕ) (r : KeyRequest) (s : Status)
      → lookup id t.requests ≡ some r
      → r.status ≡ s
      → let (reply, t') = reply_to_poll f now id r s t in Effect f t reply t'
  polled now id r pending there h = nothing refl refl
  polled now id r approved there h = elim (Option-cases (find_key f r.approved_key_id t)) [
    | inl missing ↦ rw (missing, reply_to_poll) (nothing refl refl)
    | inr (k, found) ↦ rw (found, reply_to_poll) (given id r k there h found)
  ]
  polled now id r denied there h = nothing refl refl
  polled now id r exchanged there h = nothing refl refl
  polled now id r expired there h = nothing refl refl

  updated :
      (id : ℕ) (row : KeyRequest)
      → f.updates ≡ false
      → update_row f id row t ≡ record t { requests = insert id row t.requests }
  unfolding update_row
  updated id row up = simp (up)

  granting :
      (user_id id : ℕ) (key_str fresh : String) (r : KeyRequest) (scopes : List String)
      (b : Approval)
      → lookup id t.requests ≡ some r
      → r.status ≡ pending
      → let (reply, t') = grant f user_id key_str fresh id r scopes b t in Effect f t reply t'
  unfolding grant granted_key
  granting user_id id key_str fresh r scopes b there open_yet = elim (Bool-cases f.creates_key) [
    | inl down ↦ simp (down) (nothing refl refl)
    | inr up ↦ simp (up) (elim (Bool-cases f.updates) [
      | inl lost ↦
          simp (lost) (keyed (granted_key user_id key_str scopes b t.next_key) refl lost refl refl)
      | inr recorded ↦ simp (recorded) (
          accepted id user_id r fresh (granted_key user_id key_str scopes b t.next_key) refl there
            open_yet refl refl)
    ])
  ]

  creating :
      (row : KeyRequest) (t' : KeyTables)
      → create_row f row t ≡ some t'
      → t' ≡ record t {
        requests = insert t.next_request row t.requests;
        next_request = suc t.next_request;
      }
  unfolding create_row
  creating row t' h = ground (arith, h)

  key_status-Effect :
      (code : String) (now : ℕ)
      → Distinct t.requests
      → let (reply, t') = key_status f code now t in Effect f t reply t'
  unfolding key_status
  key_status-Effect code now d = elim (Option-cases (find_by_code f code t)) [
    | inl missing ↦ rw (missing, key_status) (nothing refl refl)
    | inr ((id, r), found) ↦
        rw (found, key_status)
          (elim (Bool-cases (ltb r.expires_at now && is_pending r.status)) [
            | inl late ↦ rw (late) (nothing refl refl)
            | inr due ↦ rw (due) (polled now id r r.status (found_by_code code id r d found) refl)
          ])
  ]

  exchange_key-Effect :
      (code : String)
      → Distinct t.requests
      → let (reply, t') = exchange_key f code t in Effect f t reply t'
  unfolding exchange_key
  exchange_key-Effect code d = elim (Bool-cases (code == "")) [
    | inl blank ↦ rw (blank) (nothing refl refl)
    | inr some_code ↦ rw (some_code) (elim (Option-cases (find_by_exchange_code f code t)) [
      | inl missing ↦ rw (missing) (nothing refl refl)
      | inr ((id, r), found) ↦ rw (found) (elim (Bool-cases (is_approved r.status)) [
        | inr other ↦ rw (other) (nothing refl refl)
        | inl ready ↦ rw (ready) (elim (Option-cases (find_key f r.approved_key_id t)) [
          | inl gone ↦ rw (gone) (nothing refl refl)
          | inr (k, key) ↦ rw (key) (
              given id r k (found_by_exchange_code code id r d found) (approved_lem r.status ready)
                key)
        ])
      ])
    ])
  ]

  request_key-Effect :
      (net : Net) (body : Option NewRequest) (code : Option String) (now : ℕ)
      → let (reply, t') = request_key net f body code now t in Effect f t reply t'
  unfolding request_key new_row
  request_key-Effect net none code now = nothing refl refl
  request_key-Effect net (some b) code now =
      elim (Bool-cases (b.app_name == "" || is_empty b.scopes)) [
        | inl missing ↦ rw (missing) (nothing refl refl)
        | inr filled_in ↦ rw (filled_in) (elim (Bool-cases (validate_scopes b.scopes == "")) [
          | inr invalid ↦ rw (invalid) (nothing refl refl)
          | inl valid ↦ rw (valid) (elim (Option-cases code) [
            | inl no_code ↦ rw (no_code) (nothing refl refl)
            | inr (c, made) ↦
                rw (made) (elim (Option-cases (url_error net "Invalid appUrl: " b.app_url)) [
                  | inr (e, bad) ↦ rw (bad) (nothing refl refl)
                  | inl good ↦
                      rw (good)
                        (elim (Option-cases
                          (url_error net "Invalid callbackUrl: " b.callback_url)) [
                            | inr (e, bad) ↦ rw (bad) (nothing refl refl)
                            | inl fine ↦
                                rw (fine) (elim (Option-cases (create_row f (new_row b c now) t)) [
                                  | inl taken ↦ rw (taken) (nothing refl refl)
                                  | inr (t', done) ↦ rw (done) (
                                      asked (new_row b c now) refl refl
                                        (creating (new_row b c now) t' done))
                                ])
                          ])
                ])
          ])
        ])
      ]

  approve_key-Effect :
      (user_id : ℕ) (code : String) (b : Approval) (key_str : Option String) (fresh : String)
      (now : ℕ)
      → Distinct t.requests
      → let (reply, t') = approve_key f user_id code b key_str fresh now t in Effect f t reply t'
  unfolding approve_key
  approve_key-Effect user_id code b key_str fresh now d =
      elim (Option-cases (find_by_code f code t)) [
        | inl missing ↦ rw (missing, approve_key) (nothing refl refl)
        | inr ((id, r), found) ↦
            rw (found, approve_key)
              (elim (Bool-cases (is_pending r.status)) [
                | inr other ↦ rw (other) (nothing refl refl)
                | inl open_yet ↦ rw (open_yet) (elim (Bool-cases (ltb r.expires_at now)) [
                  | inl late ↦ rw (late) (nothing refl refl)
                  | inr due ↦
                      rw (due)
                        (elim (Option-cases
                          (first_ungranted (parse_scopes r.requested_scopes) (chosen_scopes b r))) [
                            | inr (s, outside) ↦ rw (outside) (nothing refl refl)
                            | inl within ↦ rw (within) (elim (Option-cases key_str) [
                              | inl no_key ↦ rw (no_key) (nothing refl refl)
                              | inr (key, made) ↦ rw (made) (
                                  granting user_id id key fresh r (chosen_scopes b r) b
                                    (found_by_code code id r d found)
                                    (pending_lem r.status open_yet))
                            ])
                          ])
                ])
              ])
      ]

  deny_key-Effect :
      (code : String)
      → Distinct t.requests
      → let (reply, t') = deny_key f code t in Effect f t reply t'
  unfolding deny_key
  deny_key-Effect code d = elim (Option-cases (find_by_code f code t)) [
    | inl missing ↦ rw (missing, deny_key) (nothing refl refl)
    | inr ((id, r), found) ↦
        rw (found, deny_key)
          (elim (Bool-cases (is_pending r.status)) [
            | inr other ↦ rw (other) (nothing refl refl)
            | inl open_yet ↦ rw (open_yet) (elim (Bool-cases f.updates) [
              | inl down ↦ simp (down) (nothing refl refl)
              | inr up ↦ simp (up) (
                  refused id r refl (found_by_code code id r d found)
                    (pending_lem r.status open_yet) (updated id (record r { status = denied }) up))
            ])
          ])
  ]

-- A call under the given faults does to the tables what the relation allows.
pub step-Effect :
    (f : Faults) (c : Call) (t : KeyTables)
    → Distinct t.requests
    → let (reply, t') = step f c t in Effect f t reply t'
unfolding step
step-Effect f (asks net b code now) t d = request_key-Effect f t net b code now
step-Effect f (polls code now) t d = key_status-Effect f t code now d
step-Effect f (trades code) t d = exchange_key-Effect f t code d
step-Effect f (approving user code b key fresh now) t d =
    approve_key-Effect f t user code b key fresh now d
step-Effect f (denying code) t d = deny_key-Effect f t code d
step-Effect f (cleaning now) t d = cleaned now refl refl
