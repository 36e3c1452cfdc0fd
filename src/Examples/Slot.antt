-- ===== src/Examples/Slot.antt =====
-- Instances of a slot (sbc/hbbft/bloc_slot.go): batches that are decoded unless they are empty.
use bloc.Prelude.{ℕ, ◌≡◌, refl, true, Option, none, some, List, [], ◌∷◌, ◌++◌, arith, contains}
use bloc.Prelude.Bytes.{Bytes}
use bloc.Prelude.Maps.{Map, lookup, has}
use bloc.Prelude.Results.{◌>>=◌}
use bloc.Hbbft.Config.{Config}
use bloc.Hbbft.Acs
use bloc.Hbbft.Acs.{Acs}
use bloc.Hbbft.Slot.{
  SlotAcs, SlotEnv, SlotMessage, SlotOutput, AcceptedBatch, decode_failed, wrong_slot, take_output,
  handle_message, decode_common_subset, maybe_build_output, ordered_batches,
}
use bloc.Hbbft.Slot.Order.{
  Ascending, proposers, ordered_batches-deterministic, ordered_batches-Ascending,
}
use bloc.Hbbft.Slot.Output.{Built, decode-lookup, maybe_build_output-Built}
use bloc.Hbbft.Slot.Loss.{Later, now, hears, hands_over, undecodable_batch_loses_slot}

-- Decoding drops a tag byte.
abbrev untag : Bytes → Option Bytes
untag [] = none
untag (b ∷ bs) = some bs

abbrev joined : List AcceptedBatch → Bytes
joined [] = []
joined (b ∷ bs) = b.batch ++ joined bs

abbrev env : SlotEnv
env = record {
  codec = record {
    supports = λ d p. true;
    split = λ d p v. some (v ∷ []);
    encode = λ d p ss. some ss;
    reconstruct = λ d p ss. some ss;
    prove = λ ss i. record { root_hash = []; proof = ss; index = i; leaves = 1 };
    verify_proof = λ p. true;
  };
  encode_candidate_batch = λ b. some (0 ∷ b);
  decode_candidate_batch = untag;
  encode_slot_block_body = λ slot bs. some (slot ∷ joined bs);
  block_builder = none;
  post_agreement = none;
}

abbrev configured : Config
configured = record { n = 4; f = 1; id = 1; nodes = 1 ∷ 2 ∷ 3 ∷ 4 ∷ []; batch_size = 0 }

abbrev agreed_on : Map Bytes → SlotAcs
agreed_on m = record {
  config = configured;
  slot = 9;
  acs = record {
    config = configured;
    rbc_instances = [];
    bba_instances = [];
    rbc_results = [];
    bba_results = [];
    output = some m;
    message_que = [];
    decided = true;
  };
  output = none;
}

abbrev good : Map Bytes
good = (3, 0 ∷ 33 ∷ []) ∷ (1, 0 ∷ 11 ∷ []) ∷ (2, 0 ∷ 22 ∷ []) ∷ []

abbrev decoded_good : Map Bytes
decoded_good = (3, 33 ∷ []) ∷ (1, 11 ∷ []) ∷ (2, 22 ∷ []) ∷ []

-- The same subset, its entries in another order.
abbrev decoded_again : Map Bytes
decoded_again = (1, 11 ∷ []) ∷ (2, 22 ∷ []) ∷ (3, 33 ∷ []) ∷ []

-- Node 2's batch does not decode.
abbrev spoiled : Map Bytes
spoiled = (3, 0 ∷ 33 ∷ []) ∷ (2, []) ∷ []

decoded_batches_kept : lookup 2 decoded_good ≡ (lookup 2 good >>= untag)
unfolding decode_common_subset
decoded_batches_kept = decode-lookup untag good decoded_good 2 refl

abbrev built : SlotOutput
built = record {
  slot = 9;
  common_subset = decoded_good;
  ordered_batches =
      record { proposer_id = 1; batch = 11 ∷ [] }
      ∷ record { proposer_id = 2; batch = 22 ∷ [] }
      ∷ record { proposer_id = 3; batch = 33 ∷ [] }
      ∷ [];
  block_body = 9 ∷ 11 ∷ 22 ∷ 33 ∷ [];
  decryption_result = none;
}

maybe_build_output-Built_example : Built env (agreed_on good) good built
unfolding maybe_build_output decode_common_subset ordered_batches Acs.take_output
maybe_build_output-Built_example =
    maybe_build_output-Built env (agreed_on good) good built refl refl refl

-- After the failed attempt the node hears a message of another slot, and the output is fetched.
abbrev spoiled_slot : SlotAcs
spoiled_slot = (maybe_build_output env (agreed_on spoiled)).0

abbrev foreign : Option SlotMessage
foreign =
    some (record { slot = 8; payload = some (record { proposer_id = 1; payload = Acs.other }) })

spoiled-Later : Later env spoiled_slot (take_output spoiled_slot).1
unfolding maybe_build_output decode_common_subset Acs.take_output handle_message
spoiled-Later = hands_over _ (hears _ spoiled_slot 3 2 foreign (some wrong_slot) now refl)

undecodable_batch_loses_slot_example :
    ((maybe_build_output env (agreed_on spoiled)).1 ≡ some decode_failed)
    × ((take_output (take_output spoiled_slot).1).0 ≡ none)
undecodable_batch_loses_slot_example =
    undecodable_batch_loses_slot env (agreed_on spoiled) (take_output spoiled_slot).1 spoiled 2 []
      refl refl refl refl refl spoiled-Later

same_lookups : (j : ℕ) → lookup j decoded_good ≡ lookup j decoded_again
same_lookups j = ground arith

ordered_batches-deterministic_example : ordered_batches decoded_good ≡ ordered_batches decoded_again
ordered_batches-deterministic_example =
    ordered_batches-deterministic decoded_good decoded_again (refl, (refl, (refl, tt)))
      (refl, (refl, (refl, tt))) same_lookups

ordered_batches-Ascending_example :
    Ascending (proposers (ordered_batches decoded_good))
    × ((j : ℕ) → contains (proposers (ordered_batches decoded_good)) j ≡ has j decoded_good)
ordered_batches-Ascending_example =
    ordered_batches-Ascending decoded_good (refl, (refl, (refl, tt)))
