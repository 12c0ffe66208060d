-- ===== src/Economy/Ledger/Admission.antt =====
-- What an admitted spend is, and what applying it does to the balances.
use text.Mathlib.Text.{◌==◌ as str_eq}
use cloudy.Prelude.{
  ℕ, ◌≡◌, ◌≢◌, ◌≤◌, ◌<◌, false, true, arith, some, inl, inr, length, if◌then◌else◌, ◌==◌,
}
use cloudy.Prelude.Int.{pos, ◌+ℤ◌, ◌-ℤ◌, ◌≤ℤ◌, int_laws}
use cloudy.Prelude.Word.{
  max_i64, InI64, to_i64_of_le, add_i64_of_in, sub_i64_of_in, add_i64, sub_i64, min_i64,
}
use cloudy.Prelude.Bytes.{Bytes}
use cloudy.Prelude.Dict.{get, insert, get-insert, total, total-insert}
use cloudy.Prelude.Result.{ok, Result-cases}
use cloudy.Primitives.{Primitives, public_key_size}
use cloudy.Economy.Spend.{Spend, account_id_for, verify_spend}
use cloudy.Economy.Policy.{mode_escrow}
use cloudy.Economy.Ledger.{
  Directory, Ledger, balance_of, nonce_of, resolve, admit_spend, admit_amount, apply_spend,
}

-- The key that the directory has for the payer or the payee.
pub record Resolves (p : Primitives) (dir : Directory) (l : Ledger) (a : ℕ) (key : Bytes)
    : Type 0 where
  pub known : dir a ≡ some key
  pub sized : length key ≡ public_key_size
  pub hashed : account_id_for p l.genesis.platform key ≡ a

pub record Admits (p : Primitives) (dir : Directory) (l : Ledger) (s : Spend) : Type 0 where
  pub not_escrow : str_eq l.pol.mode mode_escrow ≡ false
  pub platform : str_eq s.platform l.genesis.platform ≡ true
  pub distinct : s.from ≢ s.to
  pub positive : 0 < s.amount
  pub in_range : s.amount ≤ max_i64
  pub nonce : nonce_of l s.from < s.nonce
  pub signed : (key : Bytes) × Resolves p dir l s.from key × (verify_spend p s key ≡ true)
  pub payee : (key : Bytes) × Resolves p dir l s.to key
  pub amounts : admit_amount l s ≡ ok tt

module _ (p : Primitives) (dir : Directory) (l : Ledger) where
  resolve-Resolves :
      (a : ℕ) {key : Bytes} → resolve p dir l.genesis.platform a ≡ ok key → Resolves p dir l a key
  unfolding resolve
  resolve-Resolves a h = ground arith

  pub admit_spend-Admits : (s : Spend) → admit_spend p dir l s ≡ ok tt → Admits p dir l s
  unfolding admit_spend
  admit_spend-Admits s h = elim (Result-cases (resolve p dir l.genesis.platform s.from)) [
    | inr (e, bad) ↦ absurd (ground arith)
    | inl (key, found) ↦ elim (Result-cases (resolve p dir l.genesis.platform s.to)) [
      | inr (e, bad) ↦ absurd (ground arith)
      | inl (key', found') ↦
          let payer = resolve-Resolves s.from found in
          let payee = resolve-Resolves s.to found' in
          record {
            not_escrow = ground arith;
            platform = ground arith;
            distinct = ground arith;
            positive = ground arith;
            in_range = ground arith;
            nonce = ground arith;
            signed = (key, payer, ground arith);
            payee = (key', payee);
            amounts = ground arith;
          }
    ]
  ]

-- The facts that every ledger of the program satisfies: an int64 in each account, and a cap that
-- policy validation admitted.
pub record InRange (l : Ledger) : Type 0 where
  pub balances : (a : ℕ) → InI64 (balance_of l a)
  pub cap : l.pol.debit_cap ≤ max_i64

-- With every value in range the machine arithmetic of admission is exact.
pub record Fits (l : Ledger) (s : Spend) : Type 0 where
  pub covered : pos 0 ≤ℤ balance_of l s.from -ℤ pos s.amount +ℤ pos l.pol.debit_cap
  pub debited : InI64 (balance_of l s.from -ℤ pos s.amount)
  pub credited : InI64 (balance_of l s.to +ℤ pos s.amount)

module _ (l : Ledger) (s : Spend) (ranged : InRange l) (small : s.amount ≤ max_i64) where
  exact_bound : add_i64 min_i64 (pos s.amount) ≡ min_i64 +ℤ pos s.amount
  exact_bound = add_i64_of_in _ _ (omega int_laws)

  exact_cap : sub_i64 (pos 0) (pos l.pol.debit_cap) ≡ pos 0 -ℤ pos l.pol.debit_cap
  exact_cap = sub_i64_of_in _ _ (omega (int_laws, ranged.cap))

  exact_room : sub_i64 (pos max_i64) (pos s.amount) ≡ pos max_i64 -ℤ pos s.amount
  exact_room = sub_i64_of_in _ _ (omega int_laws)

  exact_debit :
      min_i64 +ℤ pos s.amount ≤ℤ balance_of l s.from
      → sub_i64 (balance_of l s.from) (pos s.amount) ≡ balance_of l s.from -ℤ pos s.amount
  exact_debit h = sub_i64_of_in _ _ (omega (int_laws, ranged.balances s.from))

  -- The three tests of `admit_amount`, with the machine arithmetic replaced by the exact one.
  admit_amount-exact :
      admit_amount l s ≡ ok tt
      → (min_i64 +ℤ pos s.amount ≤ℤ balance_of l s.from)
        × (pos 0 -ℤ pos l.pol.debit_cap ≤ℤ sub_i64 (balance_of l s.from) (pos s.amount))
        × (balance_of l s.to ≤ℤ pos max_i64 -ℤ pos s.amount)
  unfolding admit_amount
  admit_amount-exact h =
      let h' =
        rw
          (
            to_i64_of_le s.amount small,
            to_i64_of_le l.pol.debit_cap ranged.cap,
            exact_bound,
            exact_cap,
            exact_room,
          )
          at h in
      ground arith

  pub admit_amount-Fits : admit_amount l s ≡ ok tt → Fits l s
  admit_amount-Fits h =
      let (bound, cap, room) = admit_amount-exact h in
      let cap' = rw (exact_debit bound) at cap in
      record {
        covered = omega int_laws;
        debited = omega (int_laws, ranged.balances s.from);
        credited = omega (int_laws, ranged.balances s.to);
      }

-- The balance of every account after a spend, in exact integers.
module _ (l : Ledger) (s : Spend) (distinct : s.from ≢ s.to) (small : s.amount ≤ max_i64) where
  module _ (fits : Fits l s) where
    pub balance_of-apply_spend :
        (a : ℕ)
        → balance_of (apply_spend l s) a ≡ (
            if s.to == a
            then balance_of l s.to +ℤ pos s.amount
            else if s.from == a
            then balance_of l s.from -ℤ pos s.amount
            else balance_of l a)
    unfolding apply_spend
    balance_of-apply_spend a =
        rw (to_i64_of_le s.amount small, sub_i64_of_in _ _ fits.debited)
          (ground (
            arith,
            get-insert (pos 0) s.from s.to (balance_of l s.from -ℤ pos s.amount) l.balances,
            get-insert (pos 0) s.from a (balance_of l s.from -ℤ pos s.amount) l.balances,
            get-insert (pos 0) s.to a
                (add_i64
                  (get (pos 0) s.to
                    (insert s.from (balance_of l s.from -ℤ pos s.amount) l.balances))
                  (pos s.amount))
                (insert s.from (balance_of l s.from -ℤ pos s.amount) l.balances),
            add_i64_of_in (balance_of l s.to) (pos s.amount) fits.credited,
          ))

    pub total-apply_spend : total (apply_spend l s).balances ≡ total l.balances
    unfolding apply_spend
    total-apply_spend =
        rw (to_i64_of_le s.amount small, sub_i64_of_in _ _ fits.debited)
          (let debited = insert s.from (balance_of l s.from -ℤ pos s.amount) l.balances in
            let payee : get (pos 0) s.to debited ≡ balance_of l s.to = ground (
              arith,
              get-insert (pos 0) s.from s.to (balance_of l s.from -ℤ pos s.amount) l.balances,
            ) in
            rw (payee, add_i64_of_in _ _ fits.credited)
              (grind (
                int_laws,
                payee,
                total-insert s.from (balance_of l s.from -ℤ pos s.amount) l.balances,
                total-insert s.to (balance_of l s.to +ℤ pos s.amount) debited,
              )))
