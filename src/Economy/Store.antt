-- ===== src/Economy/Store.antt =====
-- internal/economy/store.go: the in-memory append-only store. Records are values here, so the deep
-- copies that the source makes are the records themselves.
use cloudy.Prelude.{
  ◌≡◌, ◌≢◌, ◌⊎◌, inl, inr, Bool-cases, arith, ℕ, List, [], ◌∷◌, ◌++◌, ◌==◌, length, if◌then◌else◌,
  Option, none, some,
}
use cloudy.Economy.Spend.{Spend}
use cloudy.Economy.Policy.{PolicyChange}

-- `Record`: what a store can hold. `foreign` is any other dynamic type.
pub data Record : Type 0 where
  spend : Spend → Record
  policy_change : PolicyChange → Record
  foreign : ℕ → Record

-- MemStore.records
abbrev pub Store : Type 0
Store = List Record

unfoldable pub new_mem_store : Store
new_mem_store = []

-- MemStore.Append: `none` is ErrConflict.
unfoldable pub append : ℕ → Record → Store → Option Store
append after r m = if length m == after then some (m ++ r ∷ []) else none

-- MemStore.All
unfoldable pub all : Store → List Record
all m = m

-- The append is conditional: it goes through exactly when the store has the expected length.
pub append-cases :
    (after : ℕ) (r : Record) (m : Store)
    → ((length m ≡ after) × (append after r m ≡ some (m ++ r ∷ [])))
      ⊎ ((length m ≢ after) × (append after r m ≡ none))
unfolding append
append-cases after r m = elim (Bool-cases (length m == after)) [
  | inl e ↦ inl (ground arith, ground arith)
  | inr e ↦ inr (ground arith, ground arith)
]
