-- ===== src/Record/Log.antt =====
-- internal/record/log.go: an operator's log of sealed entries. The store is the slice of its
-- entries; Log keeps the tree's leaves and the map from a leaf to its position.
pub mod Replay
pub mod Invariant
pub mod Proofs
use cloudy.Prelude.{
  ℕ, zero, suc, ◌≡◌, Bool, true, false, not, ◌||◌, List, [], ◌∷◌, ◌++◌, Option, none, some, length,
  get_elem?, drop, ltb, leb, ◌==◌, if◌then◌else◌,
}
use cloudy.Prelude.Dict.{Dict, has, insert}
use cloudy.Prelude.Bytes.{Bytes}
use cloudy.Prelude.Result.{Result, ok, err, ◌>>=◌, ◌>>◌, guard, or_err}
use cloudy.Primitives.{Hash, Primitives, public_key_size}
use cloudy.Record.Entry.{
  Error, operator_malformed, out_of_range, size_exceeds, not_sealed, wrong_log, dangling_correction,
  duplicate_leaf, Entry, zero_hash, verify_entry, entry_id, log_id,
}
use cloudy.Record.Tree.{mth, prove_path, prove_consistency}
use cloudy.Record.Checkpoint.{Checkpoint}
use cloudy.Record.Verify.{Proof}

-- MemStore.entries. Entries are values here, so cloneEntry is the identity.
abbrev pub Store : Type 0
Store = List Entry

unfoldable pub new_mem_store : Store
new_mem_store = []

-- MemStore.Append
unfoldable pub persist : Entry → Store → Store
persist e s = s ++ e ∷ []

-- MemStore.At
unfoldable pub at : ℕ → Store → Result Error Entry
at seq s = or_err (get_elem? s seq) out_of_range

-- MemStore.Len
unfoldable pub len : Store → ℕ
len s = length s

-- Log without the pointer to its store, which the operations take and return.
pub record Log : Type 0 where
  pub id : Hash
  pub leafs : List Hash
  pub index : Dict ℕ

-- Log.admit
unfoldable pub admit : Hash → Log → Log
admit leaf l = record l {
  index = insert leaf (length l.leafs) l.index;
  leafs = l.leafs ++ leaf ∷ [];
}

-- Log.LeavesSince
unfoldable pub leaves_since : ℕ → Log → Result Error (List Hash)
leaves_since size l = do guard (leb size (length l.leafs)) size_exceeds; ok (drop size l.leafs)

module _ (p : Primitives) where
  -- Log.check
  unfoldable pub check : Log → Entry → Result Error Hash
  check l e = do
    guard (verify_entry p e) not_sealed
    guard (e.log == l.id) wrong_log
    guard (e.corrects == zero_hash || has e.corrects l.index) dangling_correction
    guard (not (has (entry_id p e) l.index)) duplicate_leaf
    ok (entry_id p e)

  -- The loop of OpenLog: rounds left, and the next position.
  unfoldable pub replay : Store → ℕ → ℕ → Log → Result Error Log
  replay s zero seq l = ok l
  replay s (suc n) seq l = do e ← at seq s; leaf ← check l e; replay s n (suc seq) (admit leaf l)

  -- OpenLog
  unfoldable pub open_log : Bytes → Store → Result Error Log
  open_log operator s = do
    guard (length operator == public_key_size) operator_malformed
    replay s (len s) 0 (record { id = log_id p operator; leafs = []; index = [] })

  -- Log.Append: the position of the entry, the log and the store.
  unfoldable pub append : Entry → Log → Store → Result Error (ℕ × Log × Store)
  append e l s = do leaf ← check l e; ok (length l.leafs, admit leaf l, persist e s)

  -- Log.Checkpoint
  unfoldable pub checkpoint : ℕ → Log → Checkpoint
  checkpoint at l =
      let size = length l.leafs in
      record {
        log = l.id;
        size = size;
        head = if ltb 0 size then mth p l.leafs else l.id;
        issued_at = at;
        signature = [];
      }

  -- Log.Prove
  unfoldable pub prove : ℕ → Log → Result Error Proof
  prove seq l = do
    guard (ltb seq (length l.leafs)) out_of_range
    ok (record { seq = seq; path = prove_path p seq l.leafs })

  -- Log.ProveConsistency
  unfoldable pub log_prove_consistency : ℕ → Log → Result Error (List Hash)
  log_prove_consistency size l = do
    guard (leb size (length l.leafs)) size_exceeds
    if size == 0 || size == length l.leafs then ok [] else ok (prove_consistency p size l.leafs)
