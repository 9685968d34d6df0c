-- ===== src/Approval/Keys/Inv.antt =====
-- handler/key_request.go: the tables stay well-formed.
use foundryvtt_rest_api_rela.Base.{
  Bool-cases, Dict, Distinct, Distinct-insert, Distinct-map_rows, arith, eqb_iff, inl, inr, insert,
  lookup, lookup-insert, lookup-map_rows-none, nat_eq, none, refl, some, string_eq, subst, suc, sym,
  ℕ, ◌≡◌, ◌≤◌,
}
use foundryvtt_rest_api_rela.Approval.Status.{denied, exchanged}
use foundryvtt_rest_api_rela.Access.Cache.{ApiKey}
use foundryvtt_rest_api_rela.Approval.KeyStores.{
  KeyRequest, KeyTables, Faults, update_row, expire_if_due, cleanup_expired, no_tables,
}
use foundryvtt_rest_api_rela.Approval.Keys.{Reply, approved_row}
use foundryvtt_rest_api_rela.Approval.Keys.Effects.{
  Effect, nothing, asked, handed, keyed, accepted, refused, cleaned,
}

-- Rows have ids of their own, below the next one, and a key stands under its own id.
pub record Inv (t : KeyTables) : Type 0 where
  pub distinct : Distinct t.requests
  pub unused : (i : ℕ) → t.next_request ≤ i → lookup i t.requests ≡ none
  pub own_id : (n : ℕ) (k : ApiKey) → lookup n t.keys ≡ some k → k.id ≡ n

insert-unused :
    (i id next : ℕ) (r row : KeyRequest) (m : Dict ℕ KeyRequest)
    → ((j : ℕ) → next ≤ j → lookup j m ≡ none)
    → lookup id m ≡ some r
    → next ≤ i
    → lookup i (insert id row m) ≡ none
insert-unused i id next r row m u there h =
    ground (arith, lookup-insert id i row m, u i, eqb_iff id i)

-- Writing an existing row.
written-Inv :
    (t : KeyTables) (id : ℕ) (r row : KeyRequest)
    → Inv t
    → lookup id t.requests ≡ some r
    → Inv (record t { requests = insert id row t.requests })
written-Inv t id r row v there = record {
  distinct = Distinct-insert id row t.requests v.distinct;
  unused = λ i h. insert-unused i id t.next_request r row t.requests v.unused there h;
  own_id = v.own_id;
}

own_id-insert :
    (t : KeyTables) (k : ApiKey)
    → Inv t
    → k.id ≡ t.next_key
    → (n : ℕ) (j : ApiKey) → lookup n (insert t.next_key k t.keys) ≡ some j
    → j.id ≡ n
own_id-insert t k v h n j there =
    ground
      (arith, lookup-insert t.next_key n k t.keys, v.own_id n j, eqb_iff t.next_key n, there, h)

keyed-Inv :
    (t : KeyTables) (k : ApiKey)
    → Inv t
    → k.id ≡ t.next_key
    → Inv (record t { keys = insert t.next_key k t.keys; next_key = suc t.next_key })
keyed-Inv t k v h = record {
  distinct = v.distinct;
  unused = v.unused;
  own_id = own_id-insert t k v h;
}

asked-Inv :
    (t : KeyTables) (row : KeyRequest)
    → Inv t
    → Inv (record t {
      requests = insert t.next_request row t.requests;
      next_request = suc t.next_request;
    })
asked-Inv t row v = record {
  distinct = Distinct-insert t.next_request row t.requests v.distinct;
  unused = λ i h. ground (
    arith,
    lookup-insert t.next_request i row t.requests,
    v.unused i,
    eqb_iff t.next_request i,
    h,
  );
  own_id = v.own_id;
}

cleaned-Inv : (t : KeyTables) (now : ℕ) → Inv t → Inv (cleanup_expired now t)
unfolding cleanup_expired
cleaned-Inv t now v = record {
  distinct = Distinct-map_rows (expire_if_due now) t.requests v.distinct;
  unused = λ i h. lookup-map_rows-none (expire_if_due now) i t.requests (v.unused i h);
  own_id = v.own_id;
}

updated-Inv :
    (f : Faults) (t : KeyTables) (id : ℕ) (r row : KeyRequest)
    → Inv t
    → lookup id t.requests ≡ some r
    → Inv (update_row f id row t)
unfolding update_row
updated-Inv f t id r row v there = elim (Bool-cases f.updates) [
  | inl down ↦ simp (down) v
  | inr up ↦ simp (up) (written-Inv t id r row v there)
]

pub Effect-Inv :
    (f : Faults) (t : KeyTables) (reply : Reply) (t' : KeyTables)
    → Effect f t reply t'
    → Inv t
    → Inv t'
Effect-Inv f t reply t' (nothing q e) v = subst Inv (sym e) v
Effect-Inv f t reply t' (asked row q p e) v = subst Inv (sym e) (asked-Inv t row v)
Effect-Inv f t reply t' (handed id r k q there s found e) v =
    subst Inv (sym e) (updated-Inv f t id r (record r { status = exchanged }) v there)
Effect-Inv f t reply t' (keyed k q lost h e) v = subst Inv (sym e) (keyed-Inv t k v h)
Effect-Inv f t reply t' (accepted id user_id r fresh k q there s h e) v = subst Inv (sym e) (
    written-Inv (record t { keys = insert t.next_key k t.keys; next_key = suc t.next_key }) id r
      (approved_row t.next_key user_id fresh r) (keyed-Inv t k v h) there)
Effect-Inv f t reply t' (refused id r q there s e) v =
    subst Inv (sym e) (written-Inv t id r (record r { status = denied }) v there)
Effect-Inv f t reply t' (cleaned now q e) v = subst Inv (sym e) (cleaned-Inv t now v)

pub no_tables-Inv : Inv no_tables
unfolding no_tables lookup
no_tables-Inv = record { distinct = tt; unused = λ i h. refl; own_id = λ n k h. cc h }
