-- ===== src/Bte/Wire.antt =====
-- The encoding of ciphertexts (bte/btd-impl-main/be/cluster.go: `MarshalBinary`,
-- `UnmarshalCiphertext`, `UnmarshalCT`). The encoding of points and scalars is the record `Elements`.
-- An index that is negative as an int64, which `validateCiphertext` refuses, is refused at once here.
pub mod RoundTrip
use bloc.Prelude.{
  ℕ, zero, suc, ◌+◌, ◌%◌, ◌^◌, Bool, true, false, not, Option, none, some, List, [], ◌∷◌, ◌++◌, ltb,
  leb, if◌then◌else◌, length, take, drop, is_nil, map,
}
use bloc.Prelude.Bytes.{Bytes, bytes_eq}
use bloc.Prelude.Results.{◌>>=◌}
use bloc.Mempool.Calldata.{of_bytes, fill_bytes}
use bloc.Bte.{Capsule, Ciphertext, PublicParams, validate_ciphertext}

pub data Kind : Type 0 where
  gt g1 scalar : Kind

pub record Elements (El : Type 0) : Type 0 where
  pub marshal : El → Option Bytes
  pub unmarshal : Kind → Bytes → Option El

-- LibraryVersion, "bte-tx-v2".
abbrev pub library_version : Bytes
library_version = 98 ∷ 116 ∷ 101 ∷ 45 ∷ 116 ∷ 120 ∷ 45 ∷ 118 ∷ 50 ∷ []

-- The length as a big endian uint64, and the bytes.
unfoldable pub write_bytes : Bytes → Bytes
write_bytes d = fill_bytes 8 (length d % 2 ^ 64) ++ d

unfoldable pub read_bytes : Bytes → Option (Bytes × Bytes)
read_bytes b =
    let rest = drop 8 b in
    let size = of_bytes 0 (take 8 b) in
    if ltb (length b) 8
    then none
    else if ltb (length rest) size
    then none
    else some (take size rest, drop size rest)

-- The kinds of the parts of a capsule in order.
abbrev pub part_kinds : List Kind
part_kinds = gt ∷ g1 ∷ g1 ∷ g1 ∷ g1 ∷ g1 ∷ g1 ∷ scalar ∷ scalar ∷ []

module _ {El : Type 0} where
  abbrev pub parts : Capsule El → List El
  parts c = c.gamma ∷ c.kp ∷ c.a ∷ c.b ∷ c.ap ∷ c.bp ∷ c.yp ∷ c.k_hat ∷ c.u_hat ∷ []

  unfoldable pub capsule_of : ℕ → List El → Option (Capsule El)
  capsule_of i (gamma ∷ kp ∷ a ∷ b ∷ ap ∷ bp ∷ yp ∷ k_hat ∷ u_hat ∷ []) = some (record {
    i = i;
    gamma = gamma;
    kp = kp;
    a = a;
    b = b;
    ap = ap;
    bp = bp;
    yp = yp;
    k_hat = k_hat;
    u_hat = u_hat;
  })
  capsule_of i _ = none

  module _ (els : Elements El) where
    open els use {marshal, unmarshal}

    unfoldable pub write_elements : List El → Option Bytes
    write_elements [] = some []
    write_elements (x ∷ xs) =
        marshal x >>= λ e. write_elements xs >>= λ bs. some (write_bytes e ++ bs)

    unfoldable pub read_elements : List Kind → Bytes → Option (List El × Bytes)
    read_elements [] b = some ([], b)
    read_elements (k ∷ ks) b = read_bytes b >>= λ r.
        unmarshal k (r.0) >>= λ x. read_elements ks (r.1) >>= λ s. some (x ∷ s.0, s.1)

    unfoldable pub marshal_ct : Capsule El → Option Bytes
    marshal_ct c = write_elements (parts c) >>= λ bs. some (fill_bytes 8 (c.i % 2 ^ 64) ++ bs)

    unfoldable pub unmarshal_ct : Bytes → Option (Capsule El)
    unmarshal_ct b =
        let i = of_bytes 0 (take 8 b) in
        if ltb (length b) 8
        then none
        else if leb (2 ^ 63) i
        then none
        else read_elements part_kinds (drop 8 b) >>= λ r.
            if not (is_nil (r.1)) then none else capsule_of i (r.0)

    unfoldable pub marshal_ciphertext : Ciphertext El → Option Bytes
    marshal_ciphertext c = marshal_ct (c.capsule) >>= λ capsule.
        some (library_version ++ (write_bytes capsule ++ write_bytes (c.encrypted_tx)))

    unfoldable pub unmarshal_ciphertext : PublicParams → Bytes → Option (Ciphertext El)
    unmarshal_ciphertext params b =
        if ltb (length b) 9
        then none
        else if not (bytes_eq (take 9 b) library_version)
        then none
        else read_bytes (drop 9 b) >>= λ r. unmarshal_ct (r.0) >>= λ capsule.
            read_bytes (r.1) >>= λ s.
            let c : Ciphertext El = record { capsule = capsule; encrypted_tx = s.0 } in
            if not (is_nil (s.1))
            then none
            else if validate_ciphertext params c
            then some c
            else none
