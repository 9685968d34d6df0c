-- ===== src/Ws/Address.antt =====
-- The hosts of peer addresses, compared by go-relay/internal/ws/manager.go (AddClient) through the
-- standard library's net.SplitHostPort. Addresses are code points: they are ASCII.
pub mod Laws
use mathlib.Core.Option
use foundryvtt_rest_api_rela.Base.{
  Bool, List, Option, String, [], codes, drop, eqb, false, if◌then◌else◌, is_some, map, none, not,
  some, suc, take, true, ℕ, ◌&&◌, ◌-◌, ◌||◌, ◌∷◌,
}

unfoldable pub index_of : ℕ → List ℕ → Option ℕ
index_of c [] = none
index_of c (x ∷ xs) = let rest = Option.map suc (index_of c xs) in if eqb x c then some 0 else rest

-- The index of the last occurrence.
unfoldable pub last_index_of : ℕ → List ℕ → Option ℕ
last_index_of c [] = none
last_index_of c (x ∷ xs) = elim (last_index_of c xs) [
  | some i ↦ some (suc i)
  | none ↦ if eqb x c then some 0 else none
]

abbrev pub has : ℕ → List ℕ → Bool
has c s = is_some (index_of c s)

abbrev pub colon : ℕ
colon = b':'

abbrev pub open_bracket : ℕ
open_bracket = b'['

abbrev pub close_bracket : ℕ
close_bracket = b']'

-- The last checks, and the port behind the last colon at `i`; `j` and `k` are where brackets may
-- stand no more.
finish : List ℕ → ℕ → ℕ → ℕ → List ℕ → Option (List ℕ × List ℕ)
finish s i j k host =
    if has open_bracket (drop j s) || has close_bracket (drop k s)
    then none
    else some (host, drop (suc i) s)

-- `[host]:port`
bracketed : List ℕ → ℕ → Option (List ℕ × List ℕ)
unfolding finish
bracketed s i = elim (index_of close_bracket s) [
  | none ↦ none
  | some end ↦ if eqb (suc end) i then finish s i 1 (suc end) (take (end - 1) (drop 1 s)) else none
]

-- `host:port`
plain : List ℕ → ℕ → Option (List ℕ × List ℕ)
unfolding finish
plain s i = let host = take i s in if has colon host then none else finish s i 0 0 host

abbrev starts_bracketed : List ℕ → Bool
starts_bracketed [] = false
starts_bracketed (c ∷ _) = eqb c open_bracket

unfoldable pub split_host_port : List ℕ → Option (List ℕ × List ℕ)
unfolding index_of last_index_of bracketed plain
split_host_port s = elim (last_index_of colon s) [
  | none ↦ none
  | some i ↦ if starts_bracketed s then bracketed s i else plain s i
]

-- The host, which is empty where the address cannot be split.
unfoldable pub host_of : String → List ℕ
unfolding split_host_port
host_of address = elim (split_host_port (codes address)) [ none ↦ [] | some (host, port) ↦ host ]

abbrev pub bytes_eq : List ℕ → List ℕ → Bool
bytes_eq [] [] = true
bytes_eq (x ∷ xs) (y ∷ ys) = eqb x y && bytes_eq xs ys
bytes_eq _ _ = false

-- `existingHost != "" && newHost != "" && existingHost == newHost`
unfoldable pub same_host : String → String → Bool
unfolding host_of
same_host existing_ip new_ip =
    not (bytes_eq (host_of existing_ip) [])
    && not (bytes_eq (host_of new_ip) [])
    && bytes_eq (host_of existing_ip) (host_of new_ip)
