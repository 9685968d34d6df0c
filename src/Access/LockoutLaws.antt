-- ===== src/Access/LockoutLaws.antt =====
-- middleware/admin_ratelimit.go: when an account is locked.
use foundryvtt_rest_api_rela.Base.{
  List, Option-cases, String, [], arith, beq_self, false, if◌then◌else◌, inl, inr, insert, leb,
  length, lookup, lookup-insert, ltb, nat_eq, none, refl, some, string_eq, subst, suc, sym, ℕ, ◌&&◌,
  ◌+◌, ◌<◌, ◌==◌, ◌∷◌, ◌≡◌,
}
use foundryvtt_rest_api_rela.Access.Lockout.{
  LockoutState, AdminLockoutTracker, state_or_new, failed_again, record_failure, is_before,
  is_locked, locked_until_of, fail_at,
}

-- The last of the instants, or the first argument.
abbrev pub last_of : ℕ → List ℕ → ℕ
last_of t [] = t
last_of t (u ∷ us) = last_of u us

-- An account after that many failures, the last of them at `last`.
abbrev reached : AdminLockoutTracker → ℕ → ℕ → LockoutState
reached t n last = record {
  failures = n;
  locked_until = if leb t.threshold n then some (last + t.lock_window) else none;
}

one_more :
    (now n last : ℕ) (t : AdminLockoutTracker)
    → failed_again now t (reached t n last) ≡ reached t (n + 1) now
one_more now n last t = ground arith

module _ (to_lower : String → String) where
  record_failure_lem :
      (email : String) (now : ℕ) (st : LockoutState) (t : AdminLockoutTracker)
      → 0 < t.threshold
      → state_or_new (lookup (to_lower email) t.state) ≡ st
      → record_failure to_lower email now t
        ≡ record t { state = insert (to_lower email) (failed_again now t st) t.state }
  unfolding record_failure
  record_failure_lem email now st t positive h = ground (arith, positive, h)

  fail_at_lem :
      (email : String) (ts : List ℕ) (n last : ℕ) (t : AdminLockoutTracker)
      → 0 < t.threshold
      → state_or_new (lookup (to_lower email) t.state) ≡ reached t n last
      → state_or_new (lookup (to_lower email) (fail_at to_lower email ts t).state)
        ≡ reached t (n + length ts) (last_of last ts)
  unfolding fail_at
  fail_at_lem email [] n last t positive h = ground (arith, h)
  fail_at_lem email (now ∷ ts) n last t positive h =
      subst
        (λ s.
          state_or_new (lookup (to_lower email) (fail_at to_lower email ts s).state)
          ≡ reached t (n + length (now ∷ ts)) (last_of last (now ∷ ts)))
        (sym step) (ground (arith, fail_at_lem email ts (n + 1) now t' positive there))
    where
      t' : AdminLockoutTracker
      t' = record t { state = insert (to_lower email) (reached t (n + 1) now) t.state }

      step : record_failure to_lower email now t ≡ t'
      step =
          rw (record_failure_lem email now (reached t n last) t positive h, one_more now n last t)
            refl

      there : state_or_new (lookup (to_lower email) t'.state) ≡ reached t' (n + 1) now
      there = ground (
        arith,
        lookup-insert (to_lower email) (to_lower email) (reached t (n + 1) now) t.state,
        beq_self (to_lower email),
      )

  same_rules :
      (email : String) (ts : List ℕ) (t : AdminLockoutTracker)
      → ((fail_at to_lower email ts t).threshold ≡ t.threshold)
        × ((fail_at to_lower email ts t).lock_window ≡ t.lock_window)
  unfolding fail_at record_failure
  same_rules email [] t = (refl, refl)
  same_rules email (now ∷ ts) t =
      ground (arith, same_rules email ts (record_failure to_lower email now t))

  is_locked_lem :
      (email : String) (now : ℕ) (t : AdminLockoutTracker)
      → 0 < t.threshold
      → (is_locked to_lower email now t).0
        ≡ is_before now (state_or_new (lookup (to_lower email) t.state)).locked_until
  unfolding is_locked
  is_locked_lem email now t positive = elim (Option-cases (lookup (to_lower email) t.state)) [
    | inl missing ↦ ground (arith, missing, positive)
    | inr (st, found) ↦ ground (arith, found, positive)
  ]

  -- An account without failures so far is locked, after failures at the given instants, exactly if
  -- they are as many as the threshold and the window from the last of them is not over.
  pub is_locked-fail_at :
      (email : String) (ts : List ℕ) (first now : ℕ) (t : AdminLockoutTracker)
      → 0 < t.threshold
      → lookup (to_lower email) t.state ≡ none
      → (is_locked to_lower email now (fail_at to_lower email (first ∷ ts) t)).0
        ≡ (leb t.threshold (suc (length ts)) && ltb now (last_of first ts + t.lock_window))
  is_locked-fail_at email ts first now t positive h =
      let (rule, window) = same_rules email (first ∷ ts) t in
      let none_yet : state_or_new (lookup (to_lower email) t.state) ≡ reached t 0 0 =
        ground (arith, h, positive) in
      ground (
        arith,
        rule,
        window,
        positive,
        is_locked_lem email now (fail_at to_lower email (first ∷ ts) t),
        fail_at_lem email (first ∷ ts) 0 0 t positive none_yet,
      )

  -- A failure of one account changes neither whether another one is locked, nor until when.
  pub record_failure_other :
      (email other : String) (now later : ℕ) (t : AdminLockoutTracker)
      → (to_lower email == to_lower other) ≡ false
      → ((is_locked to_lower other later (record_failure to_lower email now t)).0
          ≡ (is_locked to_lower other later t).0)
        × (locked_until_of to_lower other (record_failure to_lower email now t)
            ≡ locked_until_of to_lower other t)
  unfolding record_failure is_locked locked_until_of
  record_failure_other email other now later t apart =
      elim (Option-cases (lookup (to_lower other) t.state)) [
        | inl missing ↦ ground (arith, untouched, missing, apart)
        | inr (st, found) ↦ ground (arith, untouched, found, apart)
      ]
    where
      after : LockoutState
      after = failed_again now t (state_or_new (lookup (to_lower email) t.state))

      untouched : lookup (to_lower other) (insert (to_lower email) after t.state) ≡ (
          if to_lower email == to_lower other then some after else lookup (to_lower other) t.state)
      untouched = lookup-insert (to_lower email) (to_lower other) after t.state
