-- ===== src/Metrics/RingLaws.antt =====
-- rolling.go: the ring holds the counts of a sliding window.
use native.Mathlib.Nat.{mod_self, mod-eq_of_lt}
use foundryvtt_rest_api_rela.Base.{
  All, Bool, Bool-cases, List, [], arith, eqb, eqb_iff, false, if◌then◌else◌, inl, inr, leb, ltb,
  refl, subst, suc, update, zero, ℕ, ◌%◌, ◌&&◌, ◌+◌, ◌-◌, ◌<◌, ◌∷◌, ◌≡◌, ◌≤◌,
}
use foundryvtt_rest_api_rela.Metrics.Ring.{Ring, sum, next_bucket, roll}

-- How many members pass a test.
unfoldable pub number : (ℕ → Bool) → List ℕ → ℕ
number p [] = 0
number p (x ∷ xs) = if p x then suc (number p xs) else number p xs

-- The place of the bucket that is `age` units older than the cursor's.
abbrev pub slot : ℕ → ℕ → ℕ → ℕ
slot size index age = if leb age index then index - age else index + size - age

-- The units of the window.
abbrev pub in_window : ℕ → ℕ → ℕ → Bool
in_window size last x = leb x last && ltb last (x + size)

pub record Holds (size : ℕ) (log : List ℕ) (r : Ring) : Type 0 where
  pub cursor : r.index < size
  pub past : All (λ x. x ≤ r.last) log
  pub by_age :
      (age : ℕ)
      → age < size
      → r.buckets (slot size r.index age) ≡ number (λ x. eqb (x + age) r.last) log
  pub total : sum size r.buckets ≡ number (in_window size r.last) log

next_index :
    (size index : ℕ)
    → index < size
    → (index + 1) % size ≡ (if eqb (index + 1) size then 0 else index + 1)
next_index size index h = elim (Bool-cases (eqb (index + 1) size)) [
  | inl full ↦ ground (arith, full, mod_self size, (eqb_iff (index + 1) size).0 full)
  | inr room ↦ rw room (mod-eq_of_lt (ground (arith, h, room)))
]

pub sum-update :
    (size i v : ℕ) (b : ℕ → ℕ) → i < size → sum size (update b i v) + b i ≡ sum size b + v
unfolding sum
sum-update zero i v b h = absurd (omega arith)
sum-update (suc n) i v b h = elim (Bool-cases (eqb i n)) [
  | inl last ↦ ground (arith, last, sum_above n i v b)
  | inr earlier ↦ ground (arith, earlier, h, sum-update n i v b)
]
  where
    sum_above : (n i v : ℕ) (b : ℕ → ℕ) → n ≤ i → sum n (update b i v) ≡ sum n b
    sum_above zero i v b h = refl
    sum_above (suc n) i v b h = ground (arith, h, sum_above n i v b)

pub number_none : (p : ℕ → Bool) (log : List ℕ) → All (λ x. p x ≡ false) log → number p log ≡ 0
unfolding number
number_none p [] h = refl
number_none p (x ∷ log) (h, hs) = ground (arith, h, number_none p log hs)

number_same :
    (p q : ℕ → Bool) (log : List ℕ) → All (λ x. p x ≡ q x) log → number p log ≡ number q log
unfolding number
number_same p q [] h = refl
number_same p q (x ∷ log) (h, hs) = ground (arith, h, number_same p q log hs)

-- The window one unit later has lost those of the oldest age.
number_leaves :
    (size last : ℕ) (log : List ℕ)
    → 0 < size
    → All (λ x. x ≤ last) log
    → number (in_window size (last + 1)) log + number (λ x. eqb (x + size) (last + 1)) log
      ≡ number (in_window size last) log
unfolding number
number_leaves size last [] positive h = refl
number_leaves size last (x ∷ log) positive (h, hs) =
    ground (arith, positive, h, number_leaves size last log positive hs)

pub All-le : (n m : ℕ) (log : List ℕ) → n ≤ m → All (λ x. x ≤ n) log → All (λ x. x ≤ m) log
All-le n m [] h k = tt
All-le n m (x ∷ log) h (k, ks) = (omega (arith, h, k), All-le n m log h ks)

pub All-map {κ μ} :
    {P : ℕ → Type κ} {Q : ℕ → Type μ} (xs : List ℕ) → ((a : ℕ) → P a → Q a) → All P xs → All Q xs
All-map [] f h = tt
All-map (x ∷ xs) f (h, hs) = (f x h, All-map xs f hs)

ticked : ℕ → Ring → Ring
ticked size r = record (next_bucket size r) { last = r.last + 1 }

older_slot :
    (size index age : ℕ)
    → index < size
    → suc age < size
    → (slot size ((index + 1) % size) (suc age) ≡ slot size index age)
      × (eqb ((index + 1) % size) (slot size index age) ≡ false)
older_slot size index age h k =
    rw (next_index size index h) (elim (Bool-cases (eqb (index + 1) size)) [
      | inl full ↦ ground (arith, full, h, k)
      | inr room ↦ ground (arith, room, h, k)
    ])

oldest_slot : (size index : ℕ) → index < size → slot size index (size - 1) ≡ (index + 1) % size
oldest_slot size index h = ground (arith, next_index size index h, h)

ticked-by_age :
    (size : ℕ) (log : List ℕ) (r : Ring) (age : ℕ)
    → Holds size log r
    → age < size
    → (next_bucket size r).buckets (slot size ((r.index + 1) % size) age)
      ≡ number (λ x. eqb (x + age) (r.last + 1)) log
unfolding next_bucket
ticked-by_age size log r zero v h =
    let nobody =
      number_none (λ x. eqb (x + 0) (r.last + 1)) log
        (All-map log (λ x k. ground (arith, k)) v.past) in
    ground (arith, nobody)
ticked-by_age size log r (suc age) v h =
    let (place, other) = older_slot size r.index age v.cursor h in
    let same =
      number_same (λ x. eqb (x + suc age) (r.last + 1)) (λ x. eqb (x + age) r.last) log
        (All-map log (λ x k. ground (arith, k)) v.past) in
    ground (arith, place, other, same, v.by_age age (omega (arith, h)))

ticked-total :
    (size : ℕ) (log : List ℕ) (r : Ring)
    → Holds size log r
    → sum size (next_bucket size r).buckets ≡ number (in_window size (r.last + 1)) log
unfolding next_bucket
ticked-total size log r v =
    let same =
      number_same (λ x. eqb (x + size) (r.last + 1)) (λ x. eqb (x + (size - 1)) r.last) log
        (All-map log (λ x k. ground (arith, v.cursor)) v.past) in
    ground (
      arith,
      same,
      v.total,
      v.by_age (size - 1) (omega (arith, v.cursor)),
      oldest_slot size r.index v.cursor,
      number_leaves size r.last log (omega (arith, v.cursor)) v.past,
      sum-update size ((r.index + 1) % size) 0 r.buckets
          (ground (arith, next_index size r.index v.cursor, v.cursor)),
    )

ticked-Holds :
    (size : ℕ) (log : List ℕ) (r : Ring) → Holds size log r → Holds size log (ticked size r)
unfolding ticked next_bucket
ticked-Holds size log r v = record {
  cursor = ground (arith, next_index size r.index v.cursor, v.cursor);
  past = All-le r.last (r.last + 1) log (omega arith) v.past;
  by_age = λ age h. ticked-by_age size log r age v h;
  total = ticked-total size log r v;
}

-- Rolling does not look at the unit of the cursor.
roll_last :
    (size n last last' : ℕ) (r : Ring)
    → record (roll size n (record r { last = last })) { last = last' }
      ≡ record (roll size n r) { last = last' }
unfolding roll next_bucket
roll_last size zero last last' r = refl
roll_last size (suc n) last last' r = roll_last size n last last' (next_bucket size r)

pub roll-Holds :
    (size n : ℕ) (log : List ℕ) (r : Ring)
    → Holds size log r
    → Holds size log (record (roll size n r) { last = r.last + n })
unfolding roll ticked
roll-Holds size zero log r v = record {
  cursor = v.cursor;
  past = All-le r.last (r.last + 0) log (omega arith) v.past;
  by_age = λ age h. ground (arith, v.by_age age h);
  total = ground (arith, v.total);
}
roll-Holds size (suc n) log r v =
    subst (Holds size log) (roll_last size n (r.last + 1) _ (next_bucket size r)) (
      subst (λ last. Holds size log (record (roll size n (ticked size r)) { last = last }))
        (omega arith) (roll-Holds size n log (ticked size r) (ticked-Holds size log r v)))
