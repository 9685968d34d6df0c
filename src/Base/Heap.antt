-- ===== src/Base/Heap.antt =====
-- Functions from references to objects: the heap of Go pointers.
use Prim.Native.Nat.{ℕ}
use foundryvtt_rest_api_rela.Base.Tests.{eqb, if◌then◌else◌}

abbrev pub update {ℓ} : {A : Type ℓ} → (ℕ → A) → ℕ → A → ℕ → A
update f i a j = if eqb i j then a else f j
