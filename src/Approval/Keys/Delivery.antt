-- ===== src/Approval/Keys/Delivery.antt =====
-- handler/key_request.go: a key is handed out once, if no handlers overlap.
use foundryvtt_rest_api_rela.Base.{
  All, Bool, Bool-cases, List, Option, Option-cases, String, [], arith, count_rows,
  count_rows-insert_new, count_rows-insert_old, count_rows-map_rows-le, eqb, eqb_iff, false,
  if◌then◌else◌, inl, inr, insert, lookup, ltb, nat_eq, none, one_if, refl, some, string_eq, suc, ℕ,
  ◌&&◌, ◌+◌, ◌<◌, ◌∙◌, ◌∷◌, ◌≡◌, ◌≤◌,
}
use foundryvtt_rest_api_rela.Approval.Status.{is_approved, pending, approved, denied, exchanged}
use foundryvtt_rest_api_rela.Access.Cache.{ApiKey}
use foundryvtt_rest_api_rela.Approval.KeyStores.{
  KeyRequest, KeyTables, Faults, expire_if_due, cleanup_expired, find_key, update_row, no_tables,
}
use foundryvtt_rest_api_rela.Approval.Keys.{Reply, approved_row, Call, step}
use foundryvtt_rest_api_rela.Approval.Keys.Effects.{
  Effect, key_in, nothing, asked, handed, keyed, accepted, refused, cleaned, step-Effect,
}
use foundryvtt_rest_api_rela.Approval.Keys.Inv.{Inv, Effect-Inv, no_tables-Inv}

abbrev is_number : ℕ → Option ℕ → Bool
is_number n none = false
is_number n (some m) = eqb m n

-- A row that stands ready to hand out the key `n`.
abbrev ready : ℕ → KeyRequest → Bool
ready n r = is_approved r.status && is_number n r.approved_key_id

tickets : ℕ → KeyTables → ℕ
tickets n t = count_rows (ready n) t.requests

-- The rows ready for the key, and one more while the key is yet to be made.
chances : ℕ → KeyTables → ℕ
chances n t = tickets n t + (if ltb n t.next_key then 0 else 1)

abbrev is_key : ℕ → Option ApiKey → Bool
is_key n none = false
is_key n (some k) = eqb k.id n

-- Whether a reply carries the key with the id `n`.
abbrev pub hands : ℕ → Reply → Bool
hands n reply = is_key n (key_in reply)

written-tickets :
    (n id : ℕ) (r row : KeyRequest) (t : KeyTables)
    → lookup id t.requests ≡ some r
    → count_rows (ready n) (insert id row t.requests) + one_if (ready n r)
      ≡ tickets n t + one_if (ready n row)
unfolding tickets
written-tickets n id r row t there = count_rows-insert_old (ready n) id row r t.requests there

cleaned-tickets : (n now : ℕ) (t : KeyTables) → chances n (cleanup_expired now t) ≤ chances n t
unfolding chances tickets cleanup_expired
cleaned-tickets n now t =
    ground
      (arith, count_rows-map_rows-le (ready n) (expire_if_due now) t.requests (λ r. ground arith))

-- The key that a row hands out counts as the row's ticket.
carried :
    (n : ℕ) (f : Faults) (t : KeyTables) (r : KeyRequest) (k : ApiKey)
    → Inv t
    → 0 < n
    → r.status ≡ approved
    → find_key f r.approved_key_id t ≡ some k
    → one_if (eqb k.id n) ≤ one_if (ready n r)
unfolding find_key
carried n f t r k v pos s found = elim (Bool-cases f.finds_key) [
  | inl down ↦ ground (arith, down, found, pos)
  | inr up ↦ elim (Option-cases r.approved_key_id) [
    | inl no_key ↦ ground (arith, no_key, v.own_id 0 k (ground (arith, up, found, no_key)), pos)
    | inr (m, key) ↦ ground (arith, key, v.own_id m k (ground (arith, up, found, key)), pos, s)
  ]
]

asked-chances :
    (n : ℕ) (t : KeyTables) (row : KeyRequest)
    → Inv t
    → row.status ≡ pending
    → chances n (record t {
      requests = insert t.next_request row t.requests;
      next_request = suc t.next_request;
    })
      ≤ chances n t
unfolding chances tickets
asked-chances n t row v p = ground (
  arith,
  count_rows-insert_new (ready n) t.next_request row t.requests
      (v.unused t.next_request (omega arith)),
  p,
)

-- Writing a row whose ticket is spent.
spent-chances :
    (n id h : ℕ) (r row : KeyRequest) (t : KeyTables)
    → lookup id t.requests ≡ some r
    → is_approved row.status ≡ false
    → h ≤ one_if (ready n r)
    → h + chances n (record t { requests = insert id row t.requests }) ≤ chances n t
unfolding chances tickets
spent-chances n id h r row t there s le = ground (arith, written-tickets n id r row t there, s, le)

accepted-chances :
    (n id user_id : ℕ) (r : KeyRequest) (fresh : String) (k : ApiKey) (t : KeyTables)
    → lookup id t.requests ≡ some r
    → r.status ≡ pending
    → chances n (record t {
      requests = insert id (approved_row t.next_key user_id fresh r) t.requests;
      keys = insert t.next_key k t.keys;
      next_key = suc t.next_key;
    })
      ≤ chances n t
unfolding chances tickets approved_row
accepted-chances n id user_id r fresh k t there s = ground (
  arith,
  written-tickets n id r (approved_row t.next_key user_id fresh r) t there,
  s,
  eqb_iff t.next_key n,
)

quiet :
    (n : ℕ) (reply : Reply) (t t' u : KeyTables)
    → key_in reply ≡ none
    → t' ≡ u
    → chances n u ≤ chances n t
    → one_if (hands n reply) + chances n t' ≤ chances n t
quiet n reply t t' u q e le = rw (e, q) (omega (arith, le))

updated :
    (f : Faults) (id : ℕ) (row : KeyRequest) (t : KeyTables)
    → f.updates ≡ false
    → update_row f id row t ≡ record t { requests = insert id row t.requests }
unfolding update_row
updated f id row t up = simp (up)

Effect-chances :
    (n : ℕ) (f : Faults) (t : KeyTables) (reply : Reply) (t' : KeyTables)
    → Effect f t reply t'
    → Inv t
    → 0 < n
    → f.updates ≡ false
    → one_if (hands n reply) + chances n t' ≤ chances n t
Effect-chances n f t reply t' (nothing q e) v pos up = quiet n reply t t' t q e (omega arith)
Effect-chances n f t reply t' (asked row q p e) v pos up =
    quiet n reply t t' _ q e (asked-chances n t row v p)
Effect-chances n f t reply t' (handed id r k q there s found e) v pos up =
    rw (e ∙ updated f id (record r { status = exchanged }) t up, q)
      (spent-chances n id (one_if (eqb k.id n)) r (record r { status = exchanged }) t there refl
        (carried n f t r k v pos s found))
Effect-chances n f t reply t' (keyed k q lost h e) v pos up = absurd (ground (arith, lost, up))
Effect-chances n f t reply t' (accepted id user_id r fresh k q there s h e) v pos up =
    quiet n reply t t' _ q e (accepted-chances n id user_id r fresh k t there s)
Effect-chances n f t reply t' (refused id r q there s e) v pos up = quiet n reply t t' _ q e (
    omega (arith, spent-chances n id 0 r (record r { status = denied }) t there refl (omega arith)))
Effect-chances n f t reply t' (cleaned now q e) v pos up =
    quiet n reply t t' _ q e (cleaned-tickets n now t)

-- How many of the replies to the calls, each under its faults, carry the key with the id `n`.
unfoldable pub times_handed : ℕ → List (Faults × Call) → KeyTables → ℕ
times_handed n [] t = 0
times_handed n ((f, c) ∷ cs) t = one_if (hands n (step f c t).0) + times_handed n cs (step f c t).1

times_handed-chances :
    (n : ℕ) (cs : List (Faults × Call)) (t : KeyTables)
    → Inv t
    → 0 < n
    → All (λ c. c.0.updates ≡ false) cs
    → times_handed n cs t ≤ chances n t
unfolding times_handed
times_handed-chances n [] t v pos ups = omega arith
times_handed-chances n ((f, c) ∷ cs) t v pos (up, ups) =
    let (reply, t') = step f c t in
    let effect : Effect f t reply t' = step-Effect f c t v.distinct in
    omega (
      arith,
      Effect-chances n f t reply t' effect v pos up,
      times_handed-chances n cs t' (Effect-Inv f t reply t' effect v) pos ups,
    )

-- Whatever calls the routes and the cleanup make from empty tables, if each is finished before the
-- next begins, an API key (its id is not 0) is handed out at most once, by the status poll or the
-- exchange, provided that no update of a request fails; other failures of the database may occur at
-- any call.
pub key_handed_once :
    (n : ℕ) (cs : List (Faults × Call))
    → 0 < n
    → All (λ c. c.0.updates ≡ false) cs
    → times_handed n cs no_tables ≤ 1
unfolding no_tables chances tickets count_rows
key_handed_once n cs pos ups =
    ground (arith, times_handed-chances n cs no_tables no_tables-Inv pos ups)
