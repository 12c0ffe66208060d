-- ===== src/Record/Lifecycle.antt =====
-- internal/record/lifecycle.go: the operator's log of what happens to each harm claim.
pub mod Machine
pub mod History
use Prim.Native.String.{String}
use cloudy.Prelude.{
  ℕ, zero, suc, ◌+◌, ◌≡◌, Bool, true, false, not, ◌&&◌, ◌||◌, List, [], ◌∷◌, ◌++◌, Option, none,
  some, length, get_elem?, ltb, leb, ◌==◌, if◌then◌else◌,
}
use cloudy.Prelude.Dict.{Dict, has, get, lookup, insert}
use cloudy.Prelude.Bytes.{Bytes}
use cloudy.Prelude.Result.{Result, ok, err, ◌>>=◌, ◌>>◌, guard, or_err}
use cloudy.Primitives.{Hash, hash_bytes, bytes, uint64, time, Primitives, public_key_size}
use cloudy.Record.Entry.{zero_hash}
use cloudy.Record.Tree.{mth, prove_path, prove_consistency}
use cloudy.Record.Checkpoint.{Checkpoint}
use cloudy.Record.Verify.{Proof}

-- The errors of OpenLifecycleLog, Append, Prove and ProveConsistency.
pub data Refusal : Type 0 where
  operator_malformed out_of_range size_exceeds : Refusal
  other_log invalid_kind no_claim no_exchange duplicate : Refusal
  not_filed_first filed_twice adjudicated_late not_monotonic sealed_early : Refusal

-- TransitionKind, a uint8.
abbrev pub kind_filed : ℕ
kind_filed = 1

abbrev pub kind_adjudicated : ℕ
kind_adjudicated = 2

abbrev pub kind_resolved : ℕ
kind_resolved = 3

abbrev pub kind_sealed : ℕ
kind_sealed = 4

-- TransitionKind.String
unfoldable pub kind_name : ℕ → String
kind_name k =
    if k == kind_filed
    then "filed"
    else if k == kind_adjudicated
    then "adjudicated"
    else if k == kind_resolved
    then "resolved"
    else if k == kind_sealed
    then "sealed"
    else "invalid"

pub record Transition : Type 0 where
  pub log : Hash
  pub claim : Hash
  pub kind : ℕ
  pub artifact : Hash
  pub exchange : Hash
  pub recorded_at : ℕ

-- MemTransitionStore.transitions
abbrev pub TransitionStore : Type 0
TransitionStore = List Transition

unfoldable pub new_mem_transition_store : TransitionStore
new_mem_transition_store = []

-- MemTransitionStore.Append
unfoldable pub persist_transition : Transition → TransitionStore → TransitionStore
persist_transition t s = s ++ t ∷ []

-- MemTransitionStore.At
unfoldable pub transition_at : ℕ → TransitionStore → Result Refusal Transition
transition_at seq s = or_err (get_elem? s seq) out_of_range

-- LifecycleLog without the pointer to its store, which the operations take and return.
pub record LifecycleLog : Type 0 where
  pub id : Hash
  pub leafs : List Hash
  pub index : Dict ℕ
  pub state : Dict ℕ
  pub claim : Dict (List ℕ)
  pub kinds : Dict (Dict ℕ)

-- The switch of check on the furthest kind that the claim has reached.
unfoldable pub in_order : Option ℕ → ℕ → Result Refusal (Unit {0})
in_order none kind = guard (kind == kind_filed) not_filed_first
in_order (some last) kind =
    if kind == kind_filed
    then err filed_twice
    else if kind == kind_adjudicated
    then guard (ltb last kind_resolved) adjudicated_late
    else if leb kind last
    then err not_monotonic
    else if kind == kind_sealed && ltb last kind_resolved
    then err sealed_early
    else ok tt

-- LifecycleLog.Claim
unfoldable pub claim_sequences : Hash → LifecycleLog → List ℕ
claim_sequences c l = get [] c l.claim

-- LifecycleLog.State
unfoldable pub claim_state : Hash → LifecycleLog → Option ℕ
claim_state c l = lookup c l.state

module _ (p : Primitives) where
  open p use {sha256, canon}

  unfoldable pub lifecycle_log_id : Bytes → Hash
  lifecycle_log_id operator = sha256 (canon "drops/lifecycle-logid/v1" (bytes operator ∷ []))

  -- Transition.CanonicalBytes
  unfoldable pub transition_bytes : Transition → Bytes
  transition_bytes t = canon "drops/lifecycle-transition/v1" (
      bytes (hash_bytes t.log)
      ∷ bytes (hash_bytes t.claim)
      ∷ uint64 t.kind
      ∷ bytes (hash_bytes t.artifact)
      ∷ bytes (hash_bytes t.exchange)
      ∷ time t.recorded_at
      ∷ [])

  -- Transition.ID
  unfoldable pub transition_id : Transition → Hash
  transition_id t = sha256 (canon "drops/lifecycle-leaf/v1" (bytes (transition_bytes t) ∷ []))

  -- LifecycleLog.check
  unfoldable pub check_transition : LifecycleLog → Transition → Result Refusal (Unit {0})
  unfolding in_order
  check_transition l t = do
    guard (t.log == l.id) other_log
    guard (not (ltb t.kind kind_filed || ltb kind_sealed t.kind)) invalid_kind
    guard (not (t.claim == zero_hash)) no_claim
    guard (not (t.exchange == zero_hash)) no_exchange
    guard (not (has (transition_id t) l.index)) duplicate
    in_order (lookup t.claim l.state) t.kind

  -- LifecycleLog.admit
  unfoldable pub admit_transition : Transition → LifecycleLog → LifecycleLog
  admit_transition t l =
      let seq = length l.leafs in
      let leaf = transition_id t in
      let counts = get [] t.claim l.kinds in
      record l {
        index = insert leaf seq l.index;
        leafs = l.leafs ++ leaf ∷ [];
        claim = insert t.claim (get [] t.claim l.claim ++ seq ∷ []) l.claim;
        state =
            if ltb (get 0 t.claim l.state) t.kind then insert t.claim t.kind l.state else l.state;
        kinds = insert t.claim (insert t.kind (get 0 t.kind counts + 1) counts) l.kinds;
      }

  -- The loop of OpenLifecycleLog: rounds left, and the next position.
  unfoldable pub replay_transitions :
      TransitionStore → ℕ → ℕ → LifecycleLog → Result Refusal LifecycleLog
  replay_transitions s zero seq l = ok l
  replay_transitions s (suc n) seq l = do
    t ← transition_at seq s
    check_transition l t
    replay_transitions s n (suc seq) (admit_transition t l)

  -- OpenLifecycleLog
  unfoldable pub open_lifecycle_log : Bytes → TransitionStore → Result Refusal LifecycleLog
  open_lifecycle_log operator s = do
    guard (length operator == public_key_size) operator_malformed
    replay_transitions s (length s) 0 (record {
      id = lifecycle_log_id operator;
      leafs = [];
      index = [];
      state = [];
      claim = [];
      kinds = [];
    })

  -- LifecycleLog.Append: the position of the transition, the log and the store.
  unfoldable pub append_transition :
      Transition
      → LifecycleLog
      → TransitionStore
      → Result Refusal (ℕ × LifecycleLog × TransitionStore)
  append_transition t l s = do
    check_transition l t
    ok (length l.leafs, admit_transition t l, persist_transition t s)

  -- LifecycleLog.Checkpoint
  unfoldable pub lifecycle_checkpoint : ℕ → LifecycleLog → Checkpoint
  lifecycle_checkpoint at l =
      let size = length l.leafs in
      record {
        log = l.id;
        size = size;
        head = if ltb 0 size then mth p l.leafs else l.id;
        issued_at = at;
        signature = [];
      }

  -- LifecycleLog.Prove
  unfoldable pub prove_transition : ℕ → LifecycleLog → Result Refusal Proof
  prove_transition seq l = do
    guard (ltb seq (length l.leafs)) out_of_range
    ok (record { seq = seq; path = prove_path p seq l.leafs })

  -- LifecycleLog.ProveConsistency
  unfoldable pub lifecycle_prove_consistency : ℕ → LifecycleLog → Result Refusal (List Hash)
  lifecycle_prove_consistency size l = do
    guard (leb size (length l.leafs)) size_exceeds
    if size == 0 || size == length l.leafs then ok [] else ok (prove_consistency p size l.leafs)
