-- ===== src/Opcred/Tests.antt =====
-- Runs of delegations on concrete inputs, and each theorem at an input.
use cloudy.Prelude.{
  ℕ, ◌≡◌, ◌⊎◌, ◌≤◌, ◌<◌, refl, true, false, arith, [], ◌∷◌, replicate, if◌then◌else◌,
}
use cloudy.Prelude.Int.{pos, negsuc, ltb_ℤ, ◌≤ℤ◌, ◌-ℤ◌}
use cloudy.Prelude.Word.{max_i64, wrap_i64, sub_i64}
use cloudy.Prelude.Bytes.{Bytes, bytes_eq, be_bytes, has_key}
use cloudy.Prelude.Result.{ok, err}
use cloudy.Primitives.Toy.{toy, toy-IsSigner, value_or}
use cloudy.Opcred.Keyset.{Keyset, public_keys, has_duplicate, probe_key, keyset_hash}
use cloudy.Opcred.Delegation.{
  bad_window, bad_ttl, not_yet_valid, expired, max_delegation_ttl, Delegation, file_root_signer,
  delegation_bytes, issue_delegation, verify_delegation, issue_delegation-cases,
  verify_delegation-issue_delegation,
}

-- Everything that a run calls.
run : ℕ
unfolding toy be_bytes bytes_eq has_key ◌-ℤ◌ wrap_i64 sub_i64 public_keys has_duplicate probe_key
    keyset_hash file_root_signer delegation_bytes issue_delegation verify_delegation
run = 0

abbrev root : Bytes
root = replicate 64 1

abbrev keys : Keyset
keys =
    record { private_key = replicate 64 2; public_key = replicate 32 2 }
    ∷ record { private_key = replicate 64 3; public_key = replicate 32 3 }
    ∷ []

sound_keys :
    (has_duplicate (public_keys keys) ≡ false)
    × (probe_key toy (replicate 64 2) (replicate 32 2) ≡ true)
unfolding run
sound_keys = (refl, refl)

abbrev delegation : Delegation
delegation =
    value_or
      (record { keyset_hash = 0; not_before = pos 0; not_after = pos 0; root_pub = []; sig = [] })
      (issue_delegation toy (file_root_signer toy root) keys (pos 10) (pos 1000))

issue_delegation-cases_example :
    ((issue_delegation toy (file_root_signer toy root) keys (negsuc max_i64) (pos 5)
        ≡ err bad_window)
      × (pos 5 ≤ℤ negsuc max_i64))
    ⊎ ((issue_delegation toy (file_root_signer toy root) keys (negsuc max_i64) (pos 5)
          ≡ err bad_ttl)
        × ((n : ℕ) × ((pos 5 -ℤ negsuc max_i64 ≡ pos n)
              × ((max_delegation_ttl < n) × (n ≤ max_i64)))))
    ⊎ ((d : Delegation) × ((issue_delegation toy
              (file_root_signer toy root)
              keys
              (negsuc max_i64)
              (pos 5)
            ≡ ok d)
          × ((d.not_before ≡ negsuc max_i64)
              × ((d.not_after ≡ pos 5)
                  × ((n : ℕ) × ((pos 5 -ℤ negsuc max_i64 ≡ pos n)
                        × ((n ≤ max_delegation_ttl) ⊎ (max_i64 < n))))))))
issue_delegation-cases_example =
    issue_delegation-cases toy root keys (negsuc max_i64) (pos 5) (omega arith, omega arith)
      (omega arith, omega arith)

verify_delegation-issue_delegation_example :
    verify_delegation toy delegation (toy.public root) (keyset_hash toy keys) (pos 50) ≡ (
      if ltb_ℤ (pos 50) (pos 10)
      then err not_yet_valid
      else if ltb_ℤ (pos 1000) (pos 50)
      then err expired
      else ok tt)
unfolding run
verify_delegation-issue_delegation_example =
    verify_delegation-issue_delegation toy root keys (pos 10) (pos 1000) (pos 50) delegation
      toy-IsSigner refl refl
