-- ===== src/Ws/Address/Laws.antt =====
-- net.SplitHostPort takes an address apart that was put together from a host and a port.
use foundryvtt_rest_api_rela.Base.{
  All, List, [], ap, arith, drop, false, inl, inr, length, none, refl, some, suc, take, ℕ, ◌++◌,
  ◌∷◌, ◌≡◌, ◌≢◌, ◌⊎◌,
}
use foundryvtt_rest_api_rela.Ws.Address.{
  index_of, last_index_of, colon, open_bracket, close_bracket, finish, starts_bracketed,
  split_host_port,
}

-- No colon and no bracket.
abbrev pub IsPlain : List ℕ → Type 0
IsPlain = All (λ c. (c ≢ colon) × (c ≢ open_bracket) × (c ≢ close_bracket))

index_of_absent : (c : ℕ) (s : List ℕ) → All (λ x. x ≢ c) s → index_of c s ≡ none
unfolding index_of
index_of_absent c [] h = refl
index_of_absent c (x ∷ s) (h, hs) = rw (index_of_absent c s hs) (ground arith)

last_index_of_absent : (c : ℕ) (s : List ℕ) → All (λ x. x ≢ c) s → last_index_of c s ≡ none
unfolding last_index_of
last_index_of_absent c [] h = refl
last_index_of_absent c (x ∷ s) (h, hs) = ground (arith, last_index_of_absent c s hs)

last_index_of-append :
    (c : ℕ) (s t : List ℕ) → All (λ x. x ≢ c) t → last_index_of c (s ++ c ∷ t) ≡ some (length s)
unfolding last_index_of
last_index_of-append c [] t h = ground (arith, last_index_of_absent c t h)
last_index_of-append c (x ∷ s) t h = ground (arith, last_index_of-append c s t h)

take-append : (s t : List ℕ) → take (length s) (s ++ t) ≡ s
take-append [] t = refl
take-append (x ∷ s) t = ap (◌∷◌ x) (take-append s t)

drop-append : (s : List ℕ) (c : ℕ) (t : List ℕ) → drop (suc (length s)) (s ++ c ∷ t) ≡ t
drop-append [] c t = refl
drop-append (x ∷ s) c t = drop-append s c t

no_colon : (s : List ℕ) → IsPlain s → All (λ x. x ≢ colon) s
no_colon [] h = tt
no_colon (x ∷ s) (h, hs) = (h.0, no_colon s hs)

no_bracket :
    (c : ℕ) (s t : List ℕ)
    → (c ≡ open_bracket) ⊎ (c ≡ close_bracket)
    → IsPlain s
    → IsPlain t
    → All (λ x. x ≢ c) (s ++ colon ∷ t)
no_bracket c [] [] e h k = (ground arith, tt)
no_bracket c [] (y ∷ t) e h (k, ks) =
    let rest = no_bracket c [] t e tt ks in (ground arith, (ground arith, rest.1))
no_bracket c (x ∷ s) t e (h, hs) k = (ground arith, no_bracket c s t e hs k)

not_bracketed : (s t : List ℕ) → IsPlain s → starts_bracketed (s ++ colon ∷ t) ≡ false
not_bracketed [] t h = refl
not_bracketed (x ∷ s) t (h, hs) = ground arith

-- A host and a port that hold no colon and no bracket come back from the address host:port.
pub split_host_port-join :
    (host port : List ℕ)
    → IsPlain host
    → IsPlain port
    → split_host_port (host ++ colon ∷ port) ≡ some (host, port)
unfolding split_host_port finish
split_host_port-join host port h k = ground (
  arith,
  last_index_of-append colon host port (no_colon port k),
  not_bracketed host port h,
  take-append host (colon ∷ port),
  index_of_absent colon host (no_colon host h),
  index_of_absent open_bracket _ (no_bracket open_bracket host port (inl refl) h k),
  index_of_absent close_bracket _ (no_bracket close_bracket host port (inr refl) h k),
  drop-append host colon port,
)
