-- ===== src/Economy/Ledger.antt =====
-- internal/economy/ledger.go: admission, the fold step, Open, and the two mutations Post and Enact.
-- A method returns the new ledger; several ledgers may share one store, so what other writers
-- append between two accesses of the store is an argument of Post and Enact.
pub mod Replay
pub mod Admission
pub mod Invariant
pub mod History
pub mod Nonces
pub mod Submit
pub mod Post
pub mod Moves
pub mod Escrow
use Prim.Native.String.{String}
use text.Mathlib.Text.{◌==◌ as str_eq}
use cloudy.Prelude.{
  ℕ, suc, ◌+◌, ◌≡◌, Bool, true, false, not, List, [], ◌∷◌, ◌++◌, ltb, leb, ◌==◌, length, drop,
  if◌then◌else◌, Option, none, some,
}
use cloudy.Prelude.Int.{ℤ, pos, negsuc, ltb_ℤ}
use cloudy.Prelude.Word.{max_i64, min_i64, to_i64, add_i64, sub_i64}
use cloudy.Prelude.Bytes.{Bytes}
use cloudy.Prelude.Dict.{Dict, get, insert}
use cloudy.Prelude.Result.{Result, ok, err, ◌>>=◌, ◌>>◌, guard, or_err}
use cloudy.Primitives.{Primitives, public_key_size}
use cloudy.Economy.Spend.{AccountId, Spend, account_id_for, verify_spend}
use cloudy.Economy.Policy.{
  Error, Mode, mode_escrow, Policy, Genesis, PolicyChange, validate_policy, validate_genesis,
  verify_change, credit_disabled, limit, signature, replay, unknown_account, quorum, tampered,
  platform_mismatch, self_transfer, zero_amount, amount_range, key_mismatch, payee_overflow,
  store_shrunk,
}
use cloudy.Economy.Store.{Record, Store, append, all, spend, policy_change, foreign}

-- The interface `Directory`: PublicKey(a).
abbrev pub Directory : Type 0
Directory = AccountId → Option Bytes

-- `applied` is the number of records that the ledger has replayed or appended.
pub record Ledger : Type 0 where
  pub genesis : Genesis
  pub pol : Policy
  pub version : ℕ
  pub applied : ℕ
  pub balances : Dict ℤ
  pub nonces : Dict ℕ

-- The ledger that Open starts from.
unfoldable pub fresh : Genesis → Ledger
fresh g = record {
  genesis = g;
  pol = g.policy;
  version = 0;
  applied = 0;
  balances = [];
  nonces = [];
}

-- l.balances[a] and l.nonces[a]
abbrev pub balance_of : Ledger → AccountId → ℤ
balance_of l a = get (pos 0) a l.balances

abbrev pub nonce_of : Ledger → AccountId → ℕ
nonce_of l a = get 0 a l.nonces

-- Ledger.Policy and Ledger.Balance
unfoldable pub policy : Ledger → Policy
policy l = l.pol

unfoldable pub balance : Ledger → AccountId → ℤ
balance l a = balance_of l a

-- The arithmetic of admitSpend, on int64.
unfoldable pub admit_amount : Ledger → Spend → Result Error (Unit {0})
admit_amount l s = do
  let amt = to_i64 s.amount
  let from = balance_of l s.from
  guard (not (ltb_ℤ from (add_i64 min_i64 amt))) limit
  guard (not (ltb_ℤ (sub_i64 from amt) (sub_i64 (pos 0) (to_i64 l.pol.debit_cap)))) limit
  guard (not (ltb_ℤ (sub_i64 (pos max_i64) amt) (balance_of l s.to))) payee_overflow

-- Ledger.applySpend
unfoldable pub apply_spend : Ledger → Spend → Ledger
apply_spend l s =
    let amt = to_i64 s.amount in
    let debited = insert s.from (sub_i64 (balance_of l s.from) amt) l.balances in
    record l {
      balances = insert s.to (add_i64 (get (pos 0) s.to debited) amt) debited;
      nonces = insert s.from s.nonce l.nonces;
    }

-- Ledger.applyPolicyChange
unfoldable pub apply_policy_change : Ledger → PolicyChange → Ledger
apply_policy_change l c = record l { pol = c.policy; version = c.version }

-- l.applied++
abbrev pub advance : Ledger → Ledger
advance l = record l { applied = l.applied + 1 }

module _ (p : Primitives) (dir : Directory) where
  -- A directory key that is known, has the right length, and hashes to the account.
  unfoldable pub resolve : String → AccountId → Result Error Bytes
  resolve platform a = do
    key ← or_err (dir a) unknown_account
    guard (length key == public_key_size) signature
    guard (account_id_for p platform key == a) key_mismatch
    ok key

  -- Ledger.admitSpend
  unfoldable pub admit_spend : Ledger → Spend → Result Error (Unit {0})
  admit_spend l s = do
    guard (not (str_eq l.pol.mode mode_escrow)) credit_disabled
    guard (str_eq s.platform l.genesis.platform) platform_mismatch
    guard (not (s.from == s.to)) self_transfer
    guard (not (s.amount == 0)) zero_amount
    guard (leb s.amount max_i64) amount_range
    from_key ← resolve l.genesis.platform s.from
    to_key ← resolve l.genesis.platform s.to
    guard (verify_spend p s from_key) signature
    guard (ltb (nonce_of l s.from) s.nonce) replay
    admit_amount l s

  -- Ledger.admitPolicyChange
  unfoldable pub admit_policy_change : Ledger → PolicyChange → Result Error (Unit {0})
  admit_policy_change l c = do
    guard (str_eq c.platform l.genesis.platform) platform_mismatch
    guard (ltb l.version c.version) replay
    validate_policy c.policy
    guard (verify_change p c l.genesis) quorum

  -- Ledger.replay, with the ledger that it leaves behind. The cause of a refusal is not kept.
  unfoldable pub replay_record : Ledger → ℕ → Record → Ledger × Option Error
  replay_record l i (spend s) = elim (admit_spend l s) [
    | ok _ ↦ (advance (apply_spend l s), none)
    | err _ ↦ (l, some (tampered i))
  ]
  replay_record l i (policy_change c) = elim (admit_policy_change l c) [
    | ok _ ↦ (advance (apply_policy_change l c), none)
    | err _ ↦ (l, some (tampered i))
  ]
  replay_record l i (foreign _) = (l, some (tampered i))

  -- The loop of Open and of catchUp, from position `i` on: it stops at the first refusal.
  unfoldable pub replay_all : Ledger → ℕ → List Record → Ledger × Option Error
  replay_all l i [] = (l, none)
  replay_all l i (r ∷ rs) =
      let (l', e) = replay_record l i r in
      let rest = replay_all l' (i + 1) rs in elim e [ none ↦ rest | some x ↦ (l', some x) ]

  -- Open, over the records of its store.
  unfoldable pub open_ledger : Genesis → Store → Result Error Ledger
  open_ledger g m = do
    validate_genesis g
    let (l, e) = replay_all (fresh g) 0 (all m)
    elim e [ none ↦ ok l | some x ↦ err x ]

  -- Ledger.catchUp
  unfoldable pub catch_up : Ledger → Store → Ledger × Option Error
  unfolding all
  catch_up l m =
      if ltb (length (all m)) l.applied
      then (l, some store_shrunk)
      else replay_all l l.applied (drop l.applied (all m))

-- What other writers append during one round of the loop of Post or Enact: before the round's
-- Append, and between an Append that was refused and the read of the store.
pub record Others : Type 0 where
  pub before : List Record
  pub after : List Record

-- A round returns, or goes on to the next round with the ledger and the store that it leaves.
pub data Round : Type 0 where
  done : Ledger → Store → Option Error → Round
  again : Ledger → Store → Round

module _ (p : Primitives) (dir : Directory) where
  unfoldable pub conflict : Ledger → Store → Others → Round
  conflict l m o =
      let m' = m ++ o.after in
      let (l', e) = catch_up p dir l m' in
      elim e [ none ↦ again l' m' | some x ↦ done l' m' (some x) ]

  module _ (admit : Ledger → Result Error (Unit {0})) (apply : Ledger → Ledger) (r : Record) where
    -- One turn of the `for` of Post and of Enact.
    unfoldable pub round : Ledger → Store → Others → Round
    round l m o = elim (admit l) [
      | err e ↦ done l m (some e)
      | ok _ ↦
          let m' = m ++ o.before in
          elim (append l.applied r m') [
            | some m'' ↦ done (advance (apply l)) m'' none
            | none ↦ conflict l m' o
          ]
    ]

    -- The `for` itself, over what the others do in each turn; `none` if the turns that are given
    -- run out before it returns.
    unfoldable pub submit : List Others → Ledger → Store → Option (Ledger × Store × Option Error)
    submit [] l m = none
    submit (o ∷ os) l m = elim (round l m o) [
      | done l' m' e ↦ some (l', m', e)
      | again l' m' ↦ submit os l' m'
    ]

  -- Ledger.Post and Ledger.Enact
  unfoldable pub post :
      Spend → List Others → Ledger → Store → Option (Ledger × Store × Option Error)
  post s = submit (λ l. admit_spend p dir l s) (λ l. apply_spend l s) (spend s)

  unfoldable pub enact :
      PolicyChange → List Others → Ledger → Store → Option (Ledger × Store × Option Error)
  enact c =
      submit (λ l. admit_policy_change p dir l c) (λ l. apply_policy_change l c) (policy_change c)
