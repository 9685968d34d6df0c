-- ===== src/Approval/Keys/Race.antt =====
-- handler/key_request.go: what requests that overlap do. The row is updated by its id alone, whatever
-- its status is by then. `update_row` also writes back the columns that were read, which the handlers
-- here do not change but for the status and the approval.
use foundryvtt_rest_api_rela.Base.{
  Bool-cases, ap, inl, inr, subst, sym, ◌∙◌, Option, String, arith, eqb_iff, insert, lookup,
  lookup-insert, ltb, nat_eq, none, refl, some, false, true, ℕ, ◌≡◌, string_eq,
}
use foundryvtt_rest_api_rela.Access.Cache.{ApiKey}
use foundryvtt_rest_api_rela.Model.Scopes.{parse_scopes}
use foundryvtt_rest_api_rela.Approval.Status.{denied, exchanged, pending, approved, is_pending}
use foundryvtt_rest_api_rela.Approval.KeyStores.{
  KeyRequest, KeyTables, Faults, find_key, update_row,
}
use foundryvtt_rest_api_rela.Approval.Keys.{
  api_key, message, hand_out, answer_poll, answer_denial, answer_approval, Approval,
  first_ungranted, chosen_scopes, grant, approved_row, reply_to_poll, reply_to_poll,
}

polled_key :
    (f : Faults) (now id : ℕ) (r : KeyRequest) (k : ApiKey) (t : KeyTables)
    → r.status ≡ approved
    → find_key f r.approved_key_id t ≡ some k
    → answer_poll f now (some (id, r)) t ≡ hand_out f id r k t
polled_key f now id r k t s found =
    let over : is_pending r.status ≡ false = ap is_pending s in
    let hands : reply_to_poll f now id r r.status t ≡ hand_out f id r k t =
      subst (λ x. reply_to_poll f now id r x t ≡ hand_out f id r k t) (sym s)
        (rw (found, reply_to_poll) refl) in
    elim (Bool-cases (ltb r.expires_at now)) [
      | inl late ↦ rw (late, over) hands
      | inr due ↦ rw (due) hands
    ]

found_still :
    (f g : Faults) (id : ℕ) (row : KeyRequest) (n : Option ℕ) (t : KeyTables)
    → g.finds_key ≡ f.finds_key
    → find_key g n (update_row f id row t) ≡ find_key f n t
unfolding find_key update_row
found_still f g id row n t same = ground (arith, same)

denied_row :
    (f : Faults) (id : ℕ) (r : KeyRequest) (t : KeyTables)
    → r.status ≡ pending
    → f.updates ≡ false
    → answer_denial f (some (id, r)) t ≡ (
      message "Key request denied",
      record t { requests = insert id (record r { status = denied }) t.requests },
    )
unfolding update_row
denied_row f id r t s up = rw (s, up) refl

granted_row :
    (g : Faults) (id user_id now : ℕ) (r : KeyRequest) (b : Approval) (key_str fresh : String)
    (t : KeyTables)
    → r.status ≡ pending
    → g.updates ≡ false
    → g.creates_key ≡ false
    → ltb r.expires_at now ≡ false
    → first_ungranted (parse_scopes r.requested_scopes) (chosen_scopes b r) ≡ none
    → (answer_approval g user_id b (some key_str) fresh now (some (id, r)) t).1.requests
      ≡ insert id (approved_row t.next_key user_id fresh r) t.requests
unfolding grant
granted_row g id user_id now r b key_str fresh t s up makes due within =
    let open_yet : is_pending r.status ≡ true = ap is_pending s in
    rw (open_yet, due, within) (rw (makes, up) refl)

-- Two polls that both read a row while it is approved both get its key, where the key is found.
pub both_polls_get_the_key :
    (f g : Faults) (now now' id : ℕ) (r : KeyRequest) (k : ApiKey) (t : KeyTables)
    → r.status ≡ approved
    → find_key f r.approved_key_id t ≡ some k
    → g.finds_key ≡ f.finds_key
    → let (first, t') = answer_poll f now (some (id, r)) t in
      let (second, t'') = answer_poll g now' (some (id, r)) t' in
      (first ≡ api_key k) × (second ≡ api_key k)
unfolding hand_out
both_polls_get_the_key f g now now' id r k t s found same =
    let first = polled_key f now id r k t s found in
    (
      ap (λ p. p.0) first,
      ap (λ p. p.0)
          (polled_key g now' id r k (answer_poll f now (some (id, r)) t).1 s (
            subst (λ p. find_key g r.approved_key_id p.1 ≡ some k) (sym first)
              (found_still f g id (record r { status = exchanged }) r.approved_key_id t same
                ∙ found))),
    )

-- An approval that reads a pending row and writes after a denial of the same row was answered
-- overrides the denial: the row is approved then, with a key.
pub approval_overrides_denial :
    (f g : Faults) (id user_id now : ℕ) (r : KeyRequest) (b : Approval) (key_str fresh : String)
    (t : KeyTables)
    → r.status ≡ pending
    → f.updates ≡ false
    → g.updates ≡ false
    → g.creates_key ≡ false
    → ltb r.expires_at now ≡ false
    → first_ungranted (parse_scopes r.requested_scopes) (chosen_scopes b r) ≡ none
    → let (denial, t') = answer_denial f (some (id, r)) t in
      let t'' = (answer_approval g user_id b (some key_str) fresh now (some (id, r)) t').1 in
      (denial ≡ message "Key request denied")
      × ((row : KeyRequest) × (lookup id t''.requests ≡ some row)
          × (row.status ≡ approved)
          × (row.approved_key_id ≡ some t.next_key))
unfolding approved_row
approval_overrides_denial f g id user_id now r b key_str fresh t s up up' makes due within =
    let denial = denied_row f id r t s up in
    let t1 : KeyTables = record t {
      requests = insert id (record r { status = denied }) t.requests;
    } in
    let row = approved_row t.next_key user_id fresh r in
    (
      ap (λ p. p.0) denial,
      (
        row,
        subst
            (λ p.
              lookup id
                (answer_approval g user_id b (some key_str) fresh now (some (id, r)) p.1).1.requests
              ≡ some row)
            (sym denial)
            (rw (granted_row g id user_id now r b key_str fresh t1 s up' makes due within)
              (ground (arith, lookup-insert id id row t1.requests, eqb_iff id id))),
        refl,
        refl,
      ),
    )
