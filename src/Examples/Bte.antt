-- ===== src/Examples/Bte.antt =====
-- Batches and shares of a toy scheme (bte/btd-impl-main/be/cluster.go): an element is a byte, a share
-- is good when it ends in 1.
use bloc.Prelude.{
  ℕ, zero, suc, ◌^◌, ◌<◌, ◌≡◌, refl, subst, Bool, true, false, Option, none, some, List, [], ◌∷◌,
  arith, ◌==◌, if◌then◌else◌, length, All,
}
use bloc.Prelude.Bytes.{Bytes}
use bloc.Node.{PubShare, DecryptionShare}
use bloc.Mempool.Calldata.{fill_bytes}
use bloc.Bte.{Capsule, Ciphertext, PublicParams, BatchItem, BatchPlan}
use bloc.Bte.Arrange.{items_from, arrange_batch}
use bloc.Bte.Arrange.Total.{Arranged, arrange_batch_total}
use bloc.Bte.Combine.{
  Opening, combine_sub_batch, try_subset, plaintext_results_from_messages, combine_shares_bounded,
}
use bloc.Node.Steps.Spending.{Within}
use bloc.Bte.Combine.Limits.{combine_shares_bounded-Within}
use bloc.Bte.Combine.Subsets.{subsets, subset_at}
use bloc.Bte.Combine.Recovery.{Found, invalid_shares_recovered}
use bloc.Bte.Wire.{
  Kind, Elements, marshal_ct, marshal_ciphertext, unmarshal_ciphertext, write_elements, write_bytes,
}
use bloc.Bte.Wire.RoundTrip.{Readable, typed_parts, unmarshal-marshal_ciphertext}

abbrev capsule : ℕ → Capsule ℕ
capsule i = record {
  i = i;
  gamma = 1;
  kp = 2;
  a = 3;
  b = 4;
  ap = 5;
  bp = 6;
  yp = 7;
  k_hat = 8;
  u_hat = 9;
}

abbrev zeros : ℕ → Bytes
zeros zero = []
zeros (suc k) = 0 ∷ zeros k

abbrev ciphertext : ℕ → Ciphertext ℕ
ciphertext i = record { capsule = capsule i; encrypted_tx = zeros 28 }

abbrev params : PublicParams
params = record { bmax = 4; n = 4 }

-- Two of the three have the same index, and the guess is 1, so that alpha has to grow.
abbrev batch : List (Ciphertext ℕ)
batch = ciphertext 2 ∷ ciphertext 3 ∷ []

arrange_batch_total_example :
    (alpha : ℕ) × (ss : List (List (BatchItem ℕ))) × (arrange_batch params
        (λ n. 1)
        (ciphertext 2 ∷ batch)
      ≡ some (alpha, ss))
    × (0 < alpha)
    × Arranged (items_from 0 (ciphertext 2 ∷ batch)) alpha ss
arrange_batch_total_example =
    arrange_batch_total params (λ n. 1) (ciphertext 2) batch (omega arith) refl

-- A share opens when its point has one byte.
abbrev is_good : PubShare → Bool
is_good s = elim s.v [ none ↦ false | some v ↦ length v == 1 ]

abbrev all_good : List PubShare → Bool
all_good [] = true
all_good (s ∷ ss) = if is_good s then all_good ss else false

abbrev opening : Opening ℕ
opening = record {
  batch_combine_messages = λ capsules shares.
      if all_good shares then some (elim capsules [ [] ↦ [] | c ∷ cs ↦ 7 ∷ [] ]) else none;
  decrypt_tx = λ m c. some (m ∷ []);
}

abbrev pub_share : ℕ → Bytes → PubShare
pub_share i v = record { i = i; v = some v }

-- The first of three shares is bad, so that the third pair is the first that opens.
abbrev three_shares : List PubShare
three_shares = pub_share 0 [] ∷ pub_share 1 (1 ∷ []) ∷ pub_share 2 (2 ∷ []) ∷ []

abbrev one_item : List (BatchItem ℕ)
one_item = record { original_position = 0; ciphertext = ciphertext 2 } ∷ []

third_pair : subset_at 2 (subsets 0 2 1) ≡ some (1 ∷ 2 ∷ [])
third_pair = refl

third_opens : try_subset opening one_item three_shares (1 ∷ 2 ∷ []) ≡ some ((0, 7 ∷ []) ∷ [])
unfolding try_subset plaintext_results_from_messages
third_opens = refl

invalid_shares_recovered_example : Found 3 (combine_sub_batch opening 2 one_item three_shares 5)
invalid_shares_recovered_example =
    invalid_shares_recovered opening 2 one_item three_shares 5 2 (1 ∷ 2 ∷ []) ((0, 7 ∷ []) ∷ [])
      (omega arith) (omega arith) (omega arith) third_pair third_opens

abbrev one_plan : BatchPlan ℕ
one_plan = record { batch_id = 1 ∷ []; alpha = 1; sub_batches = one_item ∷ [] }

abbrev share_from : ℕ → Bytes → DecryptionShare
share_from i v = record {
  operator_id = i;
  batch_id = 1 ∷ [];
  sub_batch_id = 0;
  share = some (pub_share i v);
}

abbrev three : List DecryptionShare
three = share_from 0 [] ∷ share_from 1 (1 ∷ []) ∷ share_from 2 (2 ∷ []) ∷ []

-- Two attempts are too few here.
combine_shares_bounded-Within_example :
    Within (combine_shares_bounded opening 3 2 one_plan three 8 (some (2 ∷ []))).1 (2 ∷ [])
combine_shares_bounded-Within_example =
    combine_shares_bounded-Within opening 3 2 one_plan three 8 (some (2 ∷ []))

-- An element is its one byte.
abbrev elements : Elements ℕ
elements = record {
  marshal = λ x. some (x ∷ []);
  unmarshal = λ k e. elim e [ [] ↦ none | x ∷ xs ↦ some x ];
}

readable : (k : Kind) (x : ℕ) → Readable elements (k, x)
readable k x = (x ∷ [], refl, refl, omega arith)

all-Readable : (xs : List (Kind × ℕ)) → All (Readable elements) xs
all-Readable [] = tt
all-Readable (x ∷ xs) = (readable x.0 x.1, all-Readable xs)

abbrev size : Option Bytes → ℕ
size none = 0
size (some b) = length b

capsule_size : size (marshal_ct elements (capsule 2)) ≡ 89
unfolding marshal_ct write_elements write_bytes fill_bytes
capsule_size = refl

short_capsule : (b : Bytes) → marshal_ct elements (capsule 2) ≡ some b → length b < 2 ^ 64
short_capsule b e = subst (λ o. size o < 2 ^ 64) e (omega (arith, capsule_size))

unmarshal-marshal_ciphertext_example :
    (b : Bytes) × (marshal_ciphertext elements (ciphertext 2) ≡ some b)
    × (unmarshal_ciphertext elements params b ≡ some (ciphertext 2))
unmarshal-marshal_ciphertext_example =
    unmarshal-marshal_ciphertext elements params (ciphertext 2) refl (omega arith)
      (all-Readable (typed_parts elements (capsule 2))) short_capsule (omega arith)
