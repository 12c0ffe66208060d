-- ===== src/Economy/Tests.antt =====
-- Runs of the economy on concrete data, and each theorem at an input that meets its hypotheses.
use cloudy.Prelude.{
  ℕ, ◌≡◌, refl, true, List, [], ◌∷◌, ◌++◌, none, some, Option, replicate, ◌==◌, if◌then◌else◌,
  length, take, get_elem?, ◌<◌,
}
use cloudy.Prelude.Int.{pos, negsuc, ◌+ℤ◌, ◌-ℤ◌, ◌≤ℤ◌}
use cloudy.Prelude.Word.{to_i64, add_i64, sub_i64, wrap_i64}
use cloudy.Prelude.Bytes.{Bytes, bytes_eq, has_key, be_bytes}
use cloudy.Prelude.Dict.{get, insert, lookup}
use cloudy.Prelude.Result.{ok, err}
use cloudy.Primitives.Toy.{toy}
use cloudy.Economy.Spend.{Spend, AccountId, account_id_for, sign_spend, verify_spend}
use cloudy.Economy.Policy.{
  Genesis, Policy, PolicyChange, Error, validate_genesis, sign_change, verify_change, change_bytes,
  replay, limit, credit_disabled, tampered,
}
use cloudy.Economy.Store.{Store, append, all, spend, policy_change}
use cloudy.Economy.Ledger.{
  Directory, Ledger, Others, fresh, advance, balance_of, admit_amount, apply_spend,
  apply_policy_change, admit_spend, admit_policy_change, replay_record, replay_all, open_ledger,
  catch_up, conflict, round, submit, post, enact, resolve,
}
use cloudy.Economy.Policy.Quorum.{Distinct, All, HasSigned, verify_change_quorum}
use cloudy.Economy.Ledger.Replay.{here}
use cloudy.Economy.Ledger.History.{Tracks}
use cloudy.Economy.Ledger.Invariant.{IsValid, open_ledger-IsValid}
use cloudy.Economy.Ledger.Nonces.{open_ledger-nonces}
use cloudy.Economy.Ledger.Submit.{written}
use cloudy.Economy.Ledger.Post.{post-reopens, post_error_appends_nothing, post_returns}
use cloudy.Economy.Ledger.Moves.{moved, open_ledger-spend, open_ledger-floor}
use cloudy.Economy.Ledger.Escrow.{escrow_blocks_spends}

-- Everything that a run calls.
run : ℕ
unfolding toy account_id_for sign_spend verify_spend validate_genesis sign_change verify_change
    append all admit_amount apply_spend apply_policy_change admit_spend admit_policy_change
    replay_record replay_all open_ledger catch_up conflict round submit post enact resolve to_i64
    add_i64 sub_i64 wrap_i64 ◌+ℤ◌ ◌-ℤ◌ bytes_eq has_key get insert lookup fresh be_bytes
run = 0

abbrev alice : Bytes
alice = replicate 64 1

abbrev bob : Bytes
bob = replicate 64 2

abbrev alice_id : AccountId
alice_id = account_id_for toy "cloudy" (replicate 32 1)

abbrev bob_id : AccountId
bob_id = account_id_for toy "cloudy" (replicate 32 2)

abbrev members : Directory
members a =
    if a == alice_id
    then some (replicate 32 1)
    else if a == bob_id
    then some (replicate 32 2)
    else none

abbrev credit : Genesis
credit = record {
  platform = "cloudy";
  stewards = replicate 32 8 ∷ replicate 32 9 ∷ [];
  threshold = pos 2;
  policy = record { mode = "credit"; debit_cap = 100 };
}

-- Alice pays Bob `amount`, under nonce `n`.
abbrev pay : ℕ → ℕ → Spend
pay amount n = sign_spend toy alice (record {
  platform = "cloudy";
  from = alice_id;
  to = bob_id;
  amount = amount;
  exchange_hash = 7;
  issued_at = 1000;
  nonce = n;
  signature = [];
})

abbrev after_one : Ledger
after_one = advance (apply_spend (fresh credit) (pay 30 1))

opens_one : open_ledger toy members credit (spend (pay 30 1) ∷ []) ≡ ok after_one
unfolding run
opens_one = refl

abbrev after_two : Ledger
after_two = advance (apply_spend after_one (pay 60 4))

abbrev two : Store
two = spend (pay 30 1) ∷ spend (pay 60 4) ∷ []

opens_two : open_ledger toy members credit two ≡ ok after_two
unfolding run
opens_two = refl

two_balances : (balance_of after_two bob_id ≡ pos 90) × (balance_of after_two alice_id ≡ negsuc 89)
unfolding run
two_balances = (refl, refl)

-- A spend past the cap is refused, and so is a nonce that was used.
refused_spends :
    (admit_spend toy members after_two (pay 11 5) ≡ err limit)
    × (admit_spend toy members after_two (pay 1 4) ≡ err replay)
unfolding run
refused_spends = (refl, refl)

open_ledger-IsValid_example : IsValid after_two
open_ledger-IsValid_example = open_ledger-IsValid toy members credit two opens_two

open_ledger-nonces_example : (pay 30 1).nonce < (pay 60 4).nonce
unfolding sign_spend
open_ledger-nonces_example =
    open_ledger-nonces toy members credit [] [] [] (pay 30 1) (pay 60 4) opens_two refl

open_ledger-spend_example :
    ((a : AccountId) → balance_of after_two a ≡ moved after_one (pay 60 4) a)
    × (pos 0 ≤ℤ balance_of after_two (pay 60 4).from +ℤ pos after_one.pol.debit_cap)
    × (after_two.pol ≡ after_one.pol)
open_ledger-spend_example =
    open_ledger-spend toy members credit (spend (pay 30 1) ∷ []) (pay 60 4) opens_one opens_two

open_ledger-floor_example : pos 0 ≤ℤ balance_of after_two alice_id +ℤ pos credit.policy.debit_cap
open_ledger-floor_example = open_ledger-floor toy members credit two opens_two tt alice_id

-- Two policy changes, each signed by both stewards.
abbrev change : ℕ → Policy → PolicyChange
change v q = sign_change toy (replicate 64 9) (
    sign_change toy (replicate 64 8)
      (record { platform = "cloudy"; policy = q; version = v; at = 5; sigs = [] }))

abbrev escrow_policy : Policy
escrow_policy = record { mode = "escrow"; debit_cap = 0 }

abbrev changes : Store
changes = policy_change (change 1 escrow_policy) ∷ policy_change (change 3 escrow_policy) ∷ []

abbrev after_changes : Ledger
after_changes = advance (
    apply_policy_change (advance (apply_policy_change (fresh credit) (change 1 escrow_policy)))
      (change 3 escrow_policy))

opens_changes : open_ledger toy members credit changes ≡ ok after_changes
unfolding run
opens_changes = refl

change_verifies : verify_change toy (change 1 escrow_policy) credit ≡ true
unfolding run
change_verifies = refl

verify_change_quorum_example :
    (ks : List Bytes) × Distinct ks
    × All
        (HasSigned toy
          (change_bytes toy (change 1 escrow_policy))
          credit.stewards
          (change 1 escrow_policy).sigs)
        ks
    × (credit.threshold ≤ℤ pos (length ks))
    × (pos 1 ≤ℤ credit.threshold)
verify_change_quorum_example =
    verify_change_quorum toy (change 1 escrow_policy) credit change_verifies

abbrev quiet : Others
quiet = record { before = []; after = [] }

escrow_blocks_spends_example :
    (post toy members (pay 1 1) (quiet ∷ []) after_changes changes
      ≡ some (after_changes, changes, some credit_disabled))
    × (open_ledger toy members credit (changes ++ spend (pay 1 1) ∷ []) ≡ err (tampered 2))
unfolding apply_policy_change sign_change
escrow_blocks_spends_example =
    escrow_blocks_spends toy members credit changes (pay 1 1) quiet [] opens_changes refl

-- Another ledger over the same store posts first: the append is refused, and the second round, over
-- the state that the other's spend has left, goes through.
abbrev race : List Others
race =
    record { before = spend (pay 30 1) ∷ []; after = [] } ∷ record { before = []; after = [] } ∷ []

Tracks-fresh : Tracks toy members credit [] (fresh credit)
Tracks-fresh = record { seen = []; unseen = []; split = refl; run = here }

race_posts : post toy members (pay 60 4) race (fresh credit) [] ≡ some (after_two, two, none)
unfolding run
race_posts = refl

post-reopens_example :
    (open_ledger toy members credit two ≡ ok after_two)
    × (k : ℕ) × (o : Others) × (get_elem? race k ≡ some o)
    × (two ≡ [] ++ (written (take k race) ++ (o.before ++ spend (pay 60 4) ∷ [])))
unfolding run
post-reopens_example =
    post-reopens toy members credit refl (pay 60 4) race (fresh credit) after_two [] two
      Tracks-fresh race_posts

-- The same nonce through two ledgers: the second one gets ErrReplay.
race_replays :
    post toy members (pay 30 1) race (fresh credit) []
    ≡ some (after_one, spend (pay 30 1) ∷ [], some replay)
unfolding run
race_replays = refl

post_error_appends_nothing_example :
    Tracks toy members credit (spend (pay 30 1) ∷ []) after_one
    × (k : ℕ) × (spend (pay 30 1) ∷ [] ≡ [] ++ written (take k race))
post_error_appends_nothing_example =
    post_error_appends_nothing toy members credit (pay 30 1) race (fresh credit) after_one []
      (spend (pay 30 1) ∷ []) replay Tracks-fresh race_replays

post_returns_example :
    (out : Ledger × Store × Option Error) × (post toy members (pay 60 4) race (fresh credit) []
      ≡ some out)
post_returns_example =
    post_returns toy members credit (pay 60 4) []
      (record { before = spend (pay 30 1) ∷ []; after = [] }) (record { before = []; after = [] })
      (fresh credit) [] refl Tracks-fresh

abbrev after_enact : Ledger
after_enact = advance (apply_policy_change (fresh credit) (change 1 escrow_policy))

enacts :
    enact toy members (change 1 escrow_policy) (quiet ∷ []) (fresh credit) []
    ≡ some (after_enact, policy_change (change 1 escrow_policy) ∷ [], none)
unfolding run
enacts = refl
