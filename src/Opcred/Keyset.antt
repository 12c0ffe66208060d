-- ===== src/Opcred/Keyset.antt =====
-- internal/opcred/keyset.go: the keys of an operator, as a list in the order of their indices. The number of
-- keys is a constant of the protocol module. The files that hold the seeds are input and output.
use cloudy.Prelude.{List, [], ◌∷◌, map, Bool, false, ◌||◌}
use cloudy.Prelude.Bytes.{Bytes, ascii, has_key}
use cloudy.Primitives.{Hash, bytes, Primitives}

-- One index of the two arrays of Keyset.
pub record KeyPair : Type 0 where
  pub private_key : Bytes
  pub public_key : Bytes

abbrev pub Keyset : Type 0
Keyset = List KeyPair

-- Keyset.PublicKeys
unfoldable pub public_keys : Keyset → List Bytes
public_keys ks = map (λ k. k.public_key) ks

-- The loops of LoadKeyset that look for two indices with one key.
unfoldable pub has_duplicate : List Bytes → Bool
has_duplicate [] = false
has_duplicate (k ∷ ks) = has_key k ks || has_duplicate ks

module _ (p : Primitives) where
  open p use {verify, sign, sha256, canon}

  -- probeKey
  unfoldable pub probe_key : Bytes → Bytes → Bool
  probe_key private public =
      verify public (ascii "opcred keyset load probe")
        (sign private (ascii "opcred keyset load probe"))

  -- Keyset.Hash
  unfoldable pub keyset_hash : Keyset → Hash
  keyset_hash ks = sha256 (canon "cloudy/opcred/keyset/v0" (map bytes (public_keys ks)))
