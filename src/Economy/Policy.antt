-- ===== src/Economy/Policy.antt =====
-- internal/economy/policy.go: the governed configuration and the quorum that changes it.
pub mod Quorum
use Prim.Native.String.{String}
use text.Mathlib.Text.{◌==◌ as str_eq}
use cloudy.Prelude.{
  ℕ, zero, suc, ◌≡◌, Bool, true, false, not, ◌&&◌, ◌||◌, List, [], ◌∷◌, ◌++◌, ltb, leb, ◌==◌,
  length, if◌then◌else◌, Option, none, some,
}
use cloudy.Prelude.Int.{ℤ, pos, ltb_ℤ}
use cloudy.Prelude.Word.{max_i64}
use cloudy.Prelude.Bytes.{Bytes, has_key, bytes_eq}
use cloudy.Prelude.Result.{Result, ok, err, ◌>>=◌, ◌>>◌, guard}
use cloudy.Primitives.{Hash, string, uint64, time, Primitives, public_key_size, signature_size}

-- The sentinel errors, and one constructor for each error that is no sentinel. `tampered i` is the
-- error that wraps ErrTampered with the replay position i.
pub data Error : Type 0 where
  credit_disabled limit signature replay unknown_account quorum : Error
  tampered : ℕ → Error
  platform_mismatch self_transfer zero_amount amount_range key_mismatch payee_overflow : Error
  unknown_mode cap_range empty_platform bad_threshold : Error
  -- the ErrTampered of a store that holds fewer records than were applied
  store_shrunk : Error

-- `type Mode string`: any string can stand here, and validation admits two.
abbrev pub Mode : Type 0
Mode = String

abbrev pub mode_escrow : Mode
mode_escrow = "escrow"

abbrev pub mode_credit : Mode
mode_credit = "credit"

unfoldable pub valid_mode : Mode → Bool
valid_mode m = str_eq m mode_escrow || str_eq m mode_credit

-- `debit_cap` is a uint64.
pub record Policy : Type 0 where
  pub mode : Mode
  pub debit_cap : ℕ

-- Policy.validate
unfoldable pub validate_policy : Policy → Result Error (Unit {0})
unfolding valid_mode
validate_policy p = do
  guard (valid_mode p.mode) unknown_mode
  guard (leb p.debit_cap max_i64) cap_range

pub record Genesis : Type 0 where
  pub platform : String
  pub stewards : List Bytes
  pub threshold : ℤ
  pub policy : Policy

-- Genesis.validate
unfoldable pub validate_genesis : Genesis → Result Error (Unit {0})
unfolding validate_policy
validate_genesis g = do
  guard (not (str_eq g.platform "")) empty_platform
  guard (not (ltb_ℤ g.threshold (pos 1) || ltb_ℤ (pos (length g.stewards)) g.threshold))
      bad_threshold
  validate_policy g.policy

pub record PolicyChange : Type 0 where
  pub platform : String
  pub policy : Policy
  pub version : ℕ
  pub at : ℕ
  pub sigs : List Bytes

module _ (p : Primitives) where
  open p use {verify, sign, canon}

  -- PolicyChange.CanonicalBytes: every field but the signatures.
  unfoldable pub change_bytes : PolicyChange → Bytes
  change_bytes c = canon "cloudy/economy/policy/v0" (
      string c.platform
      ∷ string c.policy.mode
      ∷ uint64 c.policy.debit_cap
      ∷ uint64 c.version
      ∷ time c.at
      ∷ [])

  -- PolicyChange.Sign
  unfoldable pub sign_change : Bytes → PolicyChange → PolicyChange
  unfolding change_bytes
  sign_change k c = record c { sigs = c.sigs ++ sign k (change_bytes c) ∷ [] }

  -- The inner loop of PolicyChange.Verify: the first steward that is not yet counted and whose key
  -- the signature fits.
  unfoldable pub find_signer : Bytes → List Bytes → List Bytes → Bytes → Option Bytes
  find_signer payload seen [] sig = none
  find_signer payload seen (key ∷ keys) sig =
      let rest = find_signer payload seen keys sig in
      if not (length key == public_key_size) || has_key key seen
      then rest
      else if verify key payload sig
      then some key
      else rest

  -- The outer loop: `seen` holds the stewards that are counted; `distinct` is its length.
  unfoldable pub count_signers : Bytes → List Bytes → List Bytes → List Bytes → List Bytes
  unfolding find_signer
  count_signers payload stewards seen [] = seen
  count_signers payload stewards seen (sig ∷ sigs) =
      count_signers payload stewards
        (if length sig == signature_size
          then elim (find_signer payload seen stewards sig) [ none ↦ seen | some key ↦ key ∷ seen ]
          else seen)
        sigs

  -- PolicyChange.Verify
  unfoldable pub verify_change : PolicyChange → Genesis → Bool
  unfolding change_bytes count_signers
  verify_change c g =
      if ltb_ℤ g.threshold (pos 1)
      then false
      else not
          (ltb_ℤ (pos (length (count_signers (change_bytes c) g.stewards [] c.sigs))) g.threshold)
