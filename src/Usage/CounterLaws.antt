-- ===== src/Usage/CounterLaws.antt =====
-- counter.go: no request is counted twice, and none is lost unless the database refuses a write.
use foundryvtt_rest_api_rela.Base.{
  Bool, Dict, Distinct, Distinct-insert, List, [], arith, count_of, eqb, eqb_iff, if◌then◌else◌,
  lookup, lookup-insert, nat_eq, string_eq, suc, true, update, ℕ, ◌+◌, ◌∷◌, ◌≡◌, ◌≤◌,
}
use foundryvtt_rest_api_rela.Usage.Counter.{
  RequestCounter, add, write_all, flush, Call, adds, flushes, run, new_counter,
}

-- The additions of a user among the calls.
abbrev pub additions : ℕ → List Call → ℕ
additions user_id [] = 0
additions user_id (adds id ∷ ks) =
    if eqb id user_id then suc (additions user_id ks) else additions user_id ks
additions user_id (flushes accepts ∷ ks) = additions user_id ks

-- Every write of every flush among the calls is taken.
abbrev pub AllTaken : List Call → Type 0
AllTaken [] = Unit
AllTaken (adds id ∷ ks) = AllTaken ks
AllTaken (flushes accepts ∷ ks) = ((id count : ℕ) → accepts id count ≡ true) × AllTaken ks

-- What a user has been counted: in the database, or still in memory.
abbrev pub counted : ℕ → RequestCounter → ℕ
counted user_id c = c.rows user_id + count_of (lookup user_id c.pending)

write_all_at_most :
    (accepts : ℕ → ℕ → Bool) (user_id : ℕ) (snapshot : Dict ℕ ℕ) (rows : ℕ → ℕ)
    → Distinct snapshot
    → write_all accepts snapshot rows user_id ≤ rows user_id + count_of (lookup user_id snapshot)
unfolding write_all lookup
write_all_at_most accepts user_id [] rows d = omega arith
write_all_at_most accepts user_id ((id, count) ∷ snapshot) rows d = ground (
  arith,
  d.0,
  write_all_at_most accepts user_id snapshot
      (if accepts id count then update rows id (rows id + count) else rows) d.1,
)

write_all_exact :
    (accepts : ℕ → ℕ → Bool) (user_id : ℕ) (snapshot : Dict ℕ ℕ) (rows : ℕ → ℕ)
    → Distinct snapshot
    → ((id count : ℕ) → accepts id count ≡ true)
    → write_all accepts snapshot rows user_id ≡ rows user_id + count_of (lookup user_id snapshot)
unfolding write_all lookup
write_all_exact accepts user_id [] rows d h = omega arith
write_all_exact accepts user_id ((id, count) ∷ snapshot) rows d h = rw (h id count) (
    ground (
      arith,
      d.0,
      write_all_exact accepts user_id snapshot (update rows id (rows id + count)) d.1 h,
    ))

counted-add :
    (user_id id : ℕ) (c : RequestCounter)
    → counted user_id (add id c)
      ≡ (if eqb id user_id then suc (counted user_id c) else counted user_id c)
unfolding add
counted-add user_id id c = ground (
  arith,
  eqb_iff id user_id,
  lookup-insert id user_id (count_of (lookup id c.pending) + 1) c.pending,
)

counted_from :
    (user_id : ℕ) (ks : List Call) (c : RequestCounter)
    → Distinct c.pending
    → counted user_id (run ks c) ≤ counted user_id c + additions user_id ks
unfolding run flush add lookup
counted_from user_id [] c d = omega arith
counted_from user_id (adds id ∷ ks) c d = ground (
  arith,
  counted-add user_id id c,
  counted_from user_id ks (add id c)
      (Distinct-insert id (count_of (lookup id c.pending) + 1) c.pending d),
)
counted_from user_id (flushes accepts ∷ ks) c d = ground (
  arith,
  write_all_at_most accepts user_id c.pending c.rows d,
  counted_from user_id ks (flush accepts c) tt,
)

counted_exactly_from :
    (user_id : ℕ) (ks : List Call) (c : RequestCounter)
    → Distinct c.pending
    → AllTaken ks
    → counted user_id (run ks c) ≡ counted user_id c + additions user_id ks
unfolding run flush add lookup
counted_exactly_from user_id [] c d h = omega arith
counted_exactly_from user_id (adds id ∷ ks) c d h = ground (
  arith,
  counted-add user_id id c,
  counted_exactly_from user_id ks (add id c)
      (Distinct-insert id (count_of (lookup id c.pending) + 1) c.pending d) h,
)
counted_exactly_from user_id (flushes accepts ∷ ks) c d (h, hs) = ground (
  arith,
  write_all_exact accepts user_id c.pending c.rows d h,
  counted_exactly_from user_id ks (flush accepts c) tt hs,
)

-- However additions and flushes follow each other, the count of a user in the database and in
-- memory is never more than it was at first and the user's additions together, and exactly that if
-- the database takes every write.
pub counted-run :
    (user_id : ℕ) (ks : List Call) (rows : ℕ → ℕ)
    → (counted user_id (run ks (new_counter rows)) ≤ rows user_id + additions user_id ks)
      × (AllTaken ks
          → counted user_id (run ks (new_counter rows)) ≡ rows user_id + additions user_id ks)
unfolding new_counter lookup
counted-run user_id ks rows = (
  omega (arith, counted_from user_id ks (new_counter rows) tt),
  λ h. omega (arith, counted_exactly_from user_id ks (new_counter rows) tt h),
)
