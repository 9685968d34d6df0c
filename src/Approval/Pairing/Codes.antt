-- ===== src/Approval/Pairing/Codes.antt =====
-- handler/connection_tokens.go: how often a pairing code makes a token.
use foundryvtt_rest_api_rela.Base.{
  Bool-cases, Dict, Distinct, Distinct-insert, Option, Option-cases, String, arith, eqb, eqb_iff,
  false, find_row, find_row-holds, find_row-lookup, inl, inr, insert, lookup, lookup-insert, ltb,
  nat_eq, not, refl, some, str_iff, string_eq, suc, sym, true, ℕ, ◌&&◌, ◌==◌, ◌∙◌, ◌≡◌, ◌≢◌,
}
use foundryvtt_rest_api_rela.Approval.Worlds.{World, PairingCode, PairTables, upsert}
use foundryvtt_rest_api_rela.Approval.Pairing.{
  Faults, Body, Reply, paired, mark_used, choose_client_id, apply_settings, add_token, complete,
  claimed, claim, world_of, record_world, pair, error, find_code, is_add_browser, Claim, refused,
}

-- No two rows have one id or one code.
pub record IsUnique (m : Dict ℕ PairingCode) : Type 0 where
  pub distinct : Distinct m
  pub one_code :
      (i j : ℕ) (c d : PairingCode)
      → lookup i m ≡ some c
      → lookup j m ≡ some d
      → c.code ≡ d.code
      → i ≡ j

settings-codes :
    (f : Faults) (c : PairingCode) (client_id : String) (t : PairTables)
    → let t' = apply_settings f c client_id t in
      (t'.codes ≡ t.codes) × (t'.tokens ≡ t.tokens) × (t'.next_token ≡ t.next_token)
unfolding apply_settings
settings-codes f c client_id t = ground arith

upsert-codes :
    (w : World) (t : PairTables)
    → let t' = upsert w t in
      (t'.codes ≡ t.codes) × (t'.tokens ≡ t.tokens) × (t'.next_token ≡ t.next_token)
unfolding upsert
upsert-codes w t = ground arith

recorded-codes :
    (f : Faults) (c : PairingCode) (b : Body) (client_id : String) (t : PairTables)
    → let t' = record_world f c b client_id t in
      (t'.codes ≡ t.codes) × (t'.tokens ≡ t.tokens) × (t'.next_token ≡ t.next_token)
unfolding record_world
recorded-codes f c b client_id t =
    let w = world_of c b client_id t.next_world in
    ground (
      arith,
      settings-codes f c client_id t,
      settings-codes f c client_id (upsert w t),
      upsert-codes w t,
    )

-- What comes of a completion in which nothing fails.
pub record Completed (id : ℕ) (c : PairingCode) (raw hash client_id : String) (t : PairTables)
    (result : Reply × PairTables) : Type 0 where
  pub reply : result.0 ≡ paired raw client_id
  pub codes : result.1.codes ≡ (mark_used id t).codes
  pub tokens :
      result.1.tokens
      ≡ insert t.next_token
          (record { user_id = c.user_id; token_hash = hash; client_id = client_id })
          t.tokens
  pub next : result.1.next_token ≡ suc t.next_token

mark_used-tokens :
    (id : ℕ) (t : PairTables)
    → ((mark_used id t).tokens ≡ t.tokens) × ((mark_used id t).next_token ≡ t.next_token)
unfolding mark_used
mark_used-tokens id t = ground arith

pub complete_lem :
    (f : Faults) (id : ℕ) (c : PairingCode) (b : Body) (raw hash fresh : String) (t : PairTables)
    → f.marks ≡ false
    → f.creates_token ≡ false
    → Completed id c raw hash
        (choose_client_id f c b fresh (mark_used id t))
        t
        (complete f id c b (some (raw, hash)) fresh t)
unfolding complete add_token
complete_lem f id c b raw hash fresh t marks creates =
    simp (marks, creates)
      (record {
        reply = refl;
        codes = same.0;
        tokens = same.1 ∙ tokens;
        next = ground (arith, same.2, marked.1);
      })
  where
    t1 : PairTables
    t1 = mark_used id t

    client_id : String
    client_id = choose_client_id f c b fresh t1

    same :
        let t2 = add_token c.user_id hash client_id t1 in
        let t' = record_world f c b client_id t2 in
        (t'.codes ≡ t2.codes) × (t'.tokens ≡ t2.tokens) × (t'.next_token ≡ t2.next_token)
    same = recorded-codes f c b client_id (add_token c.user_id hash client_id t1)

    marked : (t1.tokens ≡ t.tokens) × (t1.next_token ≡ t.next_token)
    marked = mark_used-tokens id t

    tokens :
        insert t1.next_token
          (record { user_id = c.user_id; token_hash = hash; client_id = client_id })
          t1.tokens
        ≡ insert t.next_token
            (record { user_id = c.user_id; token_hash = hash; client_id = client_id })
            t.tokens
    tokens = rw (marked.0, marked.1) refl

-- What the checks say of the code.
data Fact (b : Body) (t : PairTables) (cl : Claim) : Type 0 where
  refuses : (status : ℕ) (text : String) → cl ≡ refused (error status text) → Fact b t cl
  claims :
      (id : ℕ) (c : PairingCode)
      → cl ≡ claimed id c
      → lookup id t.codes ≡ some c
      → c.code ≡ b.code
      → c.used ≡ false
      → Fact b t cl

found_code :
    (f : Faults) (code : String) (now id : ℕ) (c : PairingCode) (t : PairTables)
    → Distinct t.codes
    → find_code f code now t ≡ some (id, c)
    → (lookup id t.codes ≡ some c) × (c.code ≡ code)
unfolding find_code
found_code f code now id c t d h =
    let valid = λ (x : PairingCode). x.code == code && ltb now x.expires_at in
    let row : find_row valid t.codes ≡ some (id, c) = ground (arith, h) in
    (
      find_row-lookup valid t.codes id c d row,
      (str_iff c.code code).0 (ground (arith, find_row-holds valid t.codes id c row)),
    )

claim-Fact :
    (f : Faults) (b : Body) (now later : ℕ) (t : PairTables)
    → Distinct t.codes
    → Fact b t (claim f b now later t)
unfolding claim
claim-Fact f b now later t d = elim (Bool-cases (b.code == "")) [
  | inl blank ↦ rw (blank) (refuses _ _ refl)
  | inr written ↦ rw (written) (elim (Option-cases (find_code f b.code now t)) [
    | inl nothing ↦ rw (nothing) (refuses _ _ refl)
    | inr ((id, c), found) ↦ rw (found) (elim (Bool-cases c.used) [
      | inl spent ↦ simp (spent) (refuses _ _ refl)
      | inr unspent ↦ simp (unspent) (elim (Bool-cases (ltb c.expires_at later)) [
        | inl late ↦ rw (late) (refuses _ _ refl)
        | inr due ↦ rw (due) (elim (Bool-cases (not (is_add_browser c) && b.world_id == "")) [
          | inl nowhere ↦ rw (nowhere) (refuses _ _ refl)
          | inr placed ↦
              let (there, code) = found_code f b.code now id c t d found in
              rw (placed) (claims id c refl there code unspent)
        ])
      ])
    ])
  ])
]

-- A code that stands used in the table is refused.
used_refused :
    (g : Faults) (b : Body) (now later id : ℕ) (c : PairingCode) (t t' : PairTables)
    → IsUnique t.codes
    → lookup id t.codes ≡ some c
    → t'.codes ≡ insert id (record c { used = true }) t.codes
    → b.code ≡ c.code
    → (status : ℕ) × (text : String) × (claim g b now later t' ≡ refused (error status text))
used_refused g b now later id c t t' u there marked same = elim (claim-Fact g b now later t' d) [
  | refuses status text e ↦ (status, text, e)
  | claims j x e found code unspent ↦ absurd (elim (Bool-cases (eqb id j)) [
    | inl this ↦
        ground (
          arith,
          marked,
          found,
          lookup-insert id j (record c { used = true }) t.codes,
          this,
          unspent,
        )
    | inr other ↦
        let there' : lookup j t.codes ≡ some x =
          ground
            (arith, marked, found, lookup-insert id j (record c { used = true }) t.codes, other) in
        ground (arith, other, u.one_code id j c x there there' (sym (code ∙ same)), eqb_iff id j)
  ])
]
  where
    d : Distinct t'.codes
    d = rw (marked) (Distinct-insert id (record c { used = true }) t.codes u.distinct)

-- After a pairing with a code, no request with that code is answered with a token, at whatever time
-- and whatever fails, as long as the codes and ids in the table are unique.
pub pair_once :
    (f g : Faults) (a b : Body) (now later now' later' : ℕ) (raw hash fresh client_id : String)
    (token' : Option (String × String)) (fresh' raw' client_id' : String) (t t' : PairTables)
    → IsUnique t.codes
    → f.marks ≡ false
    → f.creates_token ≡ false
    → pair f a (some (raw, hash)) fresh now later t ≡ (paired raw client_id, t')
    → b.code ≡ a.code
    → (pair g b token' fresh' now' later' t').0 ≢ paired raw' client_id'
unfolding pair mark_used
pair_once f g a b now later now' later' raw hash fresh client_id token' fresh' raw' client_id' t t'
      u marks creates h same =
    elim (claim-Fact f a now later t u.distinct) [
      | refuses status text e ↦ λ h'. absurd (ground (arith, h, e))
      | claims id c e there code unspent ↦ λ h'.
          let done = complete_lem f id c a raw hash fresh t marks creates in
          let codes : t'.codes ≡ insert id (record c { used = true }) t.codes =
            ground (arith, h, e, done.codes, there) in
          let (status, text, refused_again) =
            used_refused g b now' later' id c t t' u there codes (same ∙ sym code) in
          ground (arith, h', refused_again)
    ]
