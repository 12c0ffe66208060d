-- ===== src/Economy/Ledger/Escrow.antt =====
-- Under the escrow policy no credit moves.
use cloudy.Prelude.{◌≡◌, List, [], ◌∷◌, ◌++◌, some, length, arith}
use cloudy.Prelude.Result.{ok, err}
use cloudy.Primitives.{Primitives}
use cloudy.Economy.Spend.{Spend}
use cloudy.Economy.Policy.{Genesis, mode_escrow, credit_disabled, tampered}
use cloudy.Economy.Store.{Store, all, spend}
use cloudy.Economy.Ledger.{
  Directory, Ledger, Others, admit_spend, replay_record, replay_all, round, submit, post,
  open_ledger,
}
use cloudy.Economy.Ledger.Replay.{open_ledger-Replays, replay_all-after}

module _ (p : Primitives) (dir : Directory) where
  admit_spend-escrow :
      (l : Ledger) (s : Spend)
      → l.pol.mode ≡ mode_escrow
      → admit_spend p dir l s ≡ err credit_disabled
  unfolding admit_spend
  admit_spend-escrow l s e = simp e

  -- Under an escrow policy a Post returns ErrCreditDisabled in its first round and leaves the ledger
  -- and the store as they are, and a store to which a spend is appended all the same is one that Open
  -- refuses as tampered at the position of the spend.
  pub escrow_blocks_spends :
      (g : Genesis) (m : Store) (s : Spend) (o : Others) (os : List Others) {l : Ledger}
      → open_ledger p dir g m ≡ ok l
      → l.pol.mode ≡ mode_escrow
      → (post p dir s (o ∷ os) l m ≡ some (l, m, some credit_disabled))
        × (open_ledger p dir g (m ++ spend s ∷ []) ≡ err (tampered (length m)))
  unfolding post submit round open_ledger replay_all replay_record all
  escrow_blocks_spends g m s o os {l} h e =
      let blocked = admit_spend-escrow l s e in
      let (valid, run) = open_ledger-Replays p dir g m h in
      (
        ground (arith, blocked),
        ground (arith, valid, blocked, replay_all-after p dir 0 (spend s ∷ []) run),
      )
