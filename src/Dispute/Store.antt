-- ===== src/Dispute/Store.antt =====
-- internal/dispute/memstore.go, and Admitted of registry.go: the append-only store of the artifacts, which
-- lets one case be live for an exchange and a pair, and none be opened after a ruling.
use cloudy.Prelude.{Bool, true, false, not, ◌||◌, List, [], ◌∷◌, ◌++◌, Option, none, some, ◌==◌}
use cloudy.Prelude.Dict.{Dict, has, get, lookup, insert}
use cloudy.Prelude.Table.{Table, find, write, remove}
use cloudy.Prelude.Bytes.{Bytes, has_key, bytes-Key}
use cloudy.Prelude.Result.{Result, ok, err, ◌>>◌, guard}
use cloudy.Primitives.{hash_bytes}
use cloudy.Dispute.Artifact.{
  Error, invalid, duplicate, settled, DisputeId, Opening, Ruling, Withdrawal,
}

-- Three pointers, of which the registry sets one.
pub record Admitted : Type 0 where
  pub dispute : DisputeId
  pub id : DisputeId
  pub opening : Option Opening
  pub ruling : Option Ruling
  pub withdrawal : Option Withdrawal

-- The maps whose values are empty structs are the lists of their keys (`adjudicated`) or hold units.
pub record MemStore : Type 0 where
  pub ids : Dict (Unit {0})
  pub by_dispute : Dict (List Admitted)
  pub open_tuple : Table Bytes DisputeId
  pub dispute_tuple : Dict Bytes
  pub adjudicated : List Bytes

-- NewMemStore
abbrev pub new_mem_store : MemStore
new_mem_store = record {
  ids = [];
  by_dispute = [];
  open_tuple = [];
  dispute_tuple = [];
  adjudicated = [];
}

-- The key of the exchange and the pair.
unfoldable pub tuple_key : Opening → Bytes
tuple_key o = hash_bytes o.exchange ++ 0 ∷ o.complainant ++ 0 ∷ o.respondent

-- Admitted.opensCase
unfoldable pub opens_case : Admitted → Option Bytes
opens_case a = elim a.opening [ none ↦ none | some o ↦ some (tuple_key o) ]

-- Are all three pointers nil?
unfoldable pub is_empty : Admitted → Bool
is_empty a = elim a.opening [
  | some _ ↦ false
  | none ↦ elim a.ruling [
    | some _ ↦ false
    | none ↦ elim a.withdrawal [ some _ ↦ false | none ↦ true ]
  ]
]

-- The last two writes of Append.
unfoldable pub file_artifact : MemStore → Admitted → MemStore
file_artifact s a = record s {
  ids = insert a.id tt s.ids;
  by_dispute = insert a.dispute (get [] a.dispute s.by_dispute ++ a ∷ []) s.by_dispute;
}

-- The branch of Append for an artifact that opens no case.
unfoldable pub release_tuple : MemStore → Admitted → MemStore
release_tuple s a = elim (lookup a.dispute s.dispute_tuple) [
  | none ↦ s
  | some key ↦ record s {
    open_tuple = remove key s.open_tuple;
    adjudicated = elim a.ruling [ none ↦ s.adjudicated | some _ ↦ key ∷ s.adjudicated ];
  }
]

-- MemStore.Append
unfoldable pub append : MemStore → Admitted → Result Error MemStore
append s a = do
  guard (not (a.dispute == 0 || is_empty a)) invalid
  guard (not (has a.id s.ids)) duplicate
  elim (opens_case a) [
    | some key ↦ do
      guard (not (has_key key s.adjudicated)) settled
      elim (find key s.open_tuple) [
        | some _ ↦ err duplicate
        | none ↦ ok (
            file_artifact
              (record s {
                open_tuple = write key a.dispute s.open_tuple;
                dispute_tuple = insert a.dispute key s.dispute_tuple;
              })
              a)
      ]
    | none ↦ ok (file_artifact (release_tuple s a) a)
  ]

-- MemStore.ByDispute
unfoldable pub artifacts_of : MemStore → DisputeId → List Admitted
artifacts_of s id = get [] id s.by_dispute
