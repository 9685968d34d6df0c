-- ===== src/Metrics/Window.antt =====
-- rolling.go: what the sum of a ring's buckets counts.
use foundryvtt_rest_api_rela.Base.{
  Bool-cases, List, [], arith, eqb, inl, inr, leb, min, refl, subst, suc, sym, update, zero, ℕ, ◌+◌,
  ◌-◌, ◌<◌, ◌∙◌, ◌∷◌, ◌≡◌, ◌≤◌,
}
use foundryvtt_rest_api_rela.Metrics.Ring.{Ring, roll, advance, sum, new_ring, count_request}
use foundryvtt_rest_api_rela.Metrics.RingLaws.{
  number, in_window, Holds, sum-update, number_none, All-le, All-map, roll-Holds,
}

sum_zero : (n : ℕ) → sum n (λ _. 0) ≡ 0
unfolding sum
sum_zero zero = refl
sum_zero (suc n) = omega (arith, sum_zero n)

-- A clock that does not pass the cursor changes nothing.
advance_not : (size current : ℕ) (r : Ring) → current ≤ r.last → advance size current r ≡ r
unfolding advance
advance_not size current r h = ground (arith, h)

advance_far :
    (size current : ℕ) (r : Ring)
    → r.last < current
    → size ≤ current - r.last
    → advance size current r
      ≡ record { buckets = λ _. 0; index = (roll size size r).index; last = current }
unfolding advance
advance_far size current r h far =
    let all : min (current - r.last) size ≡ size = ground (arith, far) in
    rw all (ground (arith, h, far))

advance_near :
    (size current : ℕ) (r : Ring)
    → r.last < current
    → current - r.last < size
    → advance size current r
      ≡ record (roll size (current - r.last) r) { last = r.last + (current - r.last) }
unfolding advance
advance_near size current r h near =
    let all : min (current - r.last) size ≡ current - r.last = ground (arith, near) in
    let end : r.last + (current - r.last) ≡ current = omega (arith, h) in
    rw (all, end) (ground (arith, h, near))

far-Holds :
    (size current : ℕ) (log : List ℕ) (r : Ring)
    → Holds size log r
    → r.last < current
    → size ≤ current - r.last
    → Holds size log (record { buckets = λ _. 0; index = (roll size size r).index; last = current })
far-Holds size current log r v h far = record {
  cursor = (roll-Holds size size log r v).cursor;
  past = All-le r.last current log (omega (arith, h)) v.past;
  by_age = λ age k. ground (
    arith,
    number_none (λ x. eqb (x + age) current) log
        (All-map log (λ x old. ground (arith, h, far, k, old)) v.past),
  );
  total = ground (
    arith,
    sum_zero size,
    number_none (in_window size current) log
        (All-map log (λ x old. ground (arith, h, far, old)) v.past),
  );
}

advance-Holds :
    (size current : ℕ) (log : List ℕ) (r : Ring)
    → Holds size log r
    → Holds size log (advance size current r)
advance-Holds size current log r v = elim (Bool-cases (leb current r.last)) [
  | inl early ↦ subst (Holds size log) (sym (advance_not size current r (ground (arith, early)))) v
  | inr later ↦ elim (Bool-cases (leb size (current - r.last))) [
    | inl far ↦
        let h : r.last < current = ground (arith, later) in
        let k : size ≤ current - r.last = ground (arith, far) in
        subst (Holds size log) (sym (advance_far size current r h k))
          (far-Holds size current log r v h k)
    | inr near ↦
        let h : r.last < current = ground (arith, later) in
        let k : current - r.last < size = ground (arith, near) in
        subst (Holds size log) (sym (advance_near size current r h k))
          (roll-Holds size (current - r.last) log r v)
  ]
]

advance_lands :
    (size current : ℕ) (r : Ring) → r.last ≤ current → (advance size current r).last ≡ current
unfolding advance
advance_lands size current r h = ground (arith, h)

raised-Holds :
    (size : ℕ) (log : List ℕ) (r : Ring)
    → Holds size log r
    → Holds size
        (r.last ∷ log)
        (record r { buckets = update r.buckets r.index (r.buckets r.index + 1) })
unfolding number
raised-Holds size log r v = record {
  cursor = v.cursor;
  past = (omega arith, v.past);
  by_age = λ age h. ground (arith, v.by_age age h, v.by_age 0 (omega (arith, h)), v.cursor);
  total = ground (
    arith,
    v.total,
    v.cursor,
    sum-update size r.index (r.buckets r.index + 1) r.buckets v.cursor,
  );
}

count_request-Holds :
    (size current : ℕ) (log : List ℕ) (r : Ring)
    → Holds size log r
    → r.last ≤ current
    → Holds size (current ∷ log) (count_request size current r)
unfolding count_request
count_request-Holds size current log r v h =
    subst (λ unit. Holds size (unit ∷ log) (count_request size current r))
      (advance_lands size current r h)
      (raised-Holds size log (advance size current r) (advance-Holds size current log r v))

new_ring-Holds : (size start : ℕ) → 0 < size → Holds size [] (new_ring start)
unfolding new_ring number
new_ring-Holds size start h = record {
  cursor = h;
  past = tt;
  by_age = λ age k. refl;
  total = sum_zero size;
}

-- A ring after requests in the given units.
unfoldable pub count_requests : ℕ → List ℕ → Ring → Ring
count_requests size [] r = r
count_requests size (u ∷ us) r = count_requests size us (count_request size u r)

-- No unit is before the one in front of it.
abbrev pub Ascending : ℕ → List ℕ → Type 0
Ascending last [] = Unit
Ascending last (u ∷ us) = (last ≤ u) × Ascending u us

-- The unit of the last request, or the first argument.
abbrev pub last_unit : ℕ → List ℕ → ℕ
last_unit u [] = u
last_unit u (v ∷ vs) = last_unit v vs

count_request-last :
    (size current : ℕ) (r : Ring) → r.last ≤ current → (count_request size current r).last ≡ current
unfolding count_request
count_request-last size current r h = advance_lands size current r h

window_from :
    (size : ℕ) (us log : List ℕ) (r : Ring)
    → Holds size log r
    → Ascending r.last us
    → sum size (count_requests size us r).buckets
      ≡ number (in_window size (last_unit r.last us)) us
        + number (in_window size (last_unit r.last us)) log
unfolding count_requests number
window_from size [] log r v up = omega (arith, v.total)
window_from size (u ∷ us) log r v (h, up) =
    let there = count_request-last size u r h in
    let later =
      window_from size us (u ∷ log) (count_request size u r) (count_request-Holds size u log r v h)
        (subst (λ last. Ascending last us) (sym there) up) in
    ground (arith, there, later)

-- While the clock does not go back, the sum of a ring's buckets is the number of the requests in the
-- last `size` units before the latest request, its own unit included.
pub sum-count_requests :
    (size start : ℕ) (us : List ℕ)
    → 0 < size
    → Ascending start us
    → sum size (count_requests size us (new_ring start)).buckets
      ≡ number (in_window size (last_unit start us)) us
unfolding new_ring number
sum-count_requests size start us h up =
    window_from size us [] (new_ring start) (new_ring-Holds size start h) up ∙ omega arith
