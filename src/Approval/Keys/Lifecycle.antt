-- ===== src/Approval/Keys/Lifecycle.antt =====
-- handler/key_request.go: each request lives through the states that the flow foresees, if no handlers
-- overlap.
use foundryvtt_rest_api_rela.Base.{
  Bool-cases, List, [], arith, eqb, eqb_iff, inl, inr, insert, lookup, lookup-insert,
  lookup-map_rows, ltb, nat_eq, refl, some, string_eq, subst, sym, ℕ, ◌&&◌, ◌∙◌, ◌∷◌, ◌≡◌,
}
use foundryvtt_rest_api_rela.Approval.Status.{
  Status, Move, stays, approves, denies, expires, exchanges, pending, approved, denied, expired,
  is_pending, exchanged,
}
use foundryvtt_rest_api_rela.Approval.KeyStores.{
  KeyRequest, KeyTables, Faults, expire_if_due, update_row, cleanup_expired,
}
use foundryvtt_rest_api_rela.Approval.Keys.{Reply, approved_row, Call, step}
use foundryvtt_rest_api_rela.Approval.Keys.Effects.{
  Effect, nothing, asked, handed, keyed, accepted, refused, cleaned, pending_lem, step-Effect,
}
use foundryvtt_rest_api_rela.Approval.Keys.Inv.{Inv, Effect-Inv}

-- The row is still there, asks for the same, and its status made a move.
pub record Lives (i : ℕ) (r : KeyRequest) (t' : KeyTables) : Type 0 where
  pub row : KeyRequest
  pub there : lookup i t'.requests ≡ some row
  pub same_code : row.code ≡ r.code
  pub same_scopes : row.requested_scopes ≡ r.requested_scopes
  pub move : Move r.status row.status

same : (i : ℕ) (r : KeyRequest) (t' : KeyTables) → lookup i t'.requests ≡ some r → Lives i r t'
same i r t' h = record {
  row = r;
  there = h;
  same_code = refl;
  same_scopes = refl;
  move = stays r.status;
}

-- A write of the row `row` where `old` stood.
written :
    (i id : ℕ) (r old row : KeyRequest) (t : KeyTables)
    → lookup i t.requests ≡ some r
    → lookup id t.requests ≡ some old
    → row.code ≡ old.code
    → row.requested_scopes ≡ old.requested_scopes
    → Move old.status row.status
    → (t' : KeyTables) → t'.requests ≡ insert id row t.requests
    → Lives i r t'
written i id r old row t there stood code scopes m t' e = elim (Bool-cases (eqb id i)) [
  | inl this ↦
      let is_old : r ≡ old = ground (arith, there, stood, this, eqb_iff id i) in
      record {
        row = row;
        there = ground (arith, e, lookup-insert id i row t.requests, this);
        same_code = ground (arith, code, is_old);
        same_scopes = ground (arith, scopes, is_old);
        move = subst (λ o. Move o.status row.status) (sym is_old) m;
      }
  | inr other ↦ same i r t' (ground (arith, e, lookup-insert id i row t.requests, other, there))
]

moved : (s u : Status) (r row : Status) → r ≡ s → row ≡ u → Move s u → Move r row
moved s u r row p q m = rw (p, q) m

expiring : (now : ℕ) (r : KeyRequest) → Move r.status (expire_if_due now r).status
expiring now r = elim (Bool-cases (is_pending r.status && ltb r.expires_at now)) [
  | inl due ↦
      moved pending expired r.status _ (pending_lem r.status (ground (arith, due)))
        (ground (arith, due)) expires
  | inr kept_so ↦ subst (λ s. Move r.status s) (ground (arith, kept_so)) (stays r.status)
]

pub Effect-Lives :
    (i : ℕ) (r : KeyRequest) (f : Faults) (t : KeyTables) (reply : Reply) (t' : KeyTables)
    → Inv t
    → lookup i t.requests ≡ some r
    → Effect f t reply t'
    → Lives i r t'
unfolding approved_row update_row cleanup_expired
Effect-Lives i r f t reply t' v there (nothing q e) = same i r t' (ground (arith, e, there))
Effect-Lives i r f t reply t' v there (asked row q p e) = same i r t' (
    ground (
      arith,
      e,
      lookup-insert t.next_request i row t.requests,
      there,
      v.unused t.next_request (omega arith),
      eqb_iff t.next_request i,
    ))
Effect-Lives i r f t reply t' v there (handed id old k q stood s found e) =
    elim (Bool-cases f.updates) [
      | inl down ↦ same i r t' (ground (arith, e, down, there))
      | inr up ↦
          written i id r old (record old { status = exchanged }) t there stood refl refl
            (moved approved exchanged _ _ s refl exchanges) t' (ground (arith, e, up))
    ]
Effect-Lives i r f t reply t' v there (keyed k q lost h e) = same i r t' (ground (arith, e, there))
Effect-Lives i r f t reply t' v there (accepted id user_id old fresh k q stood s h e) =
    written i id r old (approved_row t.next_key user_id fresh old) t there stood refl refl
      (moved pending approved _ _ s refl approves) t' (ground (arith, e))
Effect-Lives i r f t reply t' v there (refused id old q stood s e) =
    written i id r old (record old { status = denied }) t there stood refl refl
      (moved pending denied _ _ s refl denies) t' (ground (arith, e))
Effect-Lives i r f t reply t' v there (cleaned now q e) = record {
  row = expire_if_due now r;
  there = ground (arith, e, lookup-map_rows (expire_if_due now) i r t.requests there);
  same_code = ground arith;
  same_scopes = ground arith;
  move = expiring now r;
}

-- A sequence of moves.
pub data Life (s : Status) : Status → Type 0 where
  here : Life s s
  next : {u w : Status} → Life s u → Move u w → Life s w

append : {s u : Status} (w : Status) → Life u w → Life s u → Life s w
append w here l = l
append w (next m l) k = next (append _ m k) l

-- The calls one after another, each under its faults.
unfoldable pub run : List (Faults × Call) → KeyTables → KeyTables
run [] t = t
run ((f, c) ∷ cs) t = run cs (step f c t).1

-- Whatever calls are made, each finished before the next begins, and whatever fails: a request that
-- stands in well-formed tables stays there with its code and the scopes that it asks for, and its
-- status takes only the steps of the flow: pending to approved, denied or expired, and approved to
-- exchanged.
pub run-Life :
    (i : ℕ) (cs : List (Faults × Call)) (r : KeyRequest) (t : KeyTables)
    → Inv t
    → lookup i t.requests ≡ some r
    → (row : KeyRequest) × (lookup i (run cs t).requests ≡ some row)
      × (row.code ≡ r.code)
      × (row.requested_scopes ≡ r.requested_scopes)
      × Life r.status row.status
unfolding run
run-Life i [] r t v there = (r, there, refl, refl, here)
run-Life i ((f, c) ∷ cs) r t v there =
    let (reply, t') = step f c t in
    let effect : Effect f t reply t' = step-Effect f c t v.distinct in
    let l : Lives i r t' = Effect-Lives i r f t reply t' v there effect in
    let (row, found, code, scopes, life) =
      run-Life i cs l.row t' (Effect-Inv f t reply t' effect v) l.there in
    (
      row,
      found,
      code ∙ l.same_code,
      scopes ∙ l.same_scopes,
      append row.status life (next here l.move),
    )
