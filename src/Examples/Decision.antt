-- ===== src/Examples/Decision.antt =====
-- Two nodes that got one agreed subset in different orders (bloc-node/internal/app/node.go): the
-- lists of proposers 1 and 2, of which the first holds a transaction.
use mathlib.Core.List.{Permᴰ}
use mathlib.Core.List.Permᴰ
use bloc.Prelude.{true, ℕ, zero, suc, ◌≡◌, refl, false, Option, none, some, List, [], ◌∷◌, arith}
use bloc.Prelude.Maps.{Map, lookup}
use bloc.Prelude.Bytes.{Bytes}
use bloc.Hbbft.Slot.{SlotOutput, ordered_batches}
use bloc.Inclusion.{EncryptedPlaceholder, InclusionList, Unique}
use bloc.Bte
use bloc.Bte.Wire.{Elements, marshal_ciphertext}
use bloc.Node.{NodeSettings, no_material, Node, new_node, new_slot_state}
use bloc.Node.Decision.{
  Sharing, handle_acs_output, DecisionEnv, lost, nothing_selected, to_decrypt, decide,
  apply_decision,
}
use bloc.Node.Steps.{Setting}
use bloc.Node.Decision.Runs.{Runs, handle_acs_output-Runs}
use bloc.Transport.Envelope.{WireEnvelope, acs_kind}
use bloc.Node.Inbound.{handle_envelope, Handles, handle_envelope-Handles}
use bloc.Node.Decision.Agreement.{RangesOver, ranging, Undecided, verdict, verdicts_agree}

abbrev zeros : ℕ → Bytes
zeros zero = []
zeros (suc k) = 0 ∷ zeros k

-- An element is its one byte.
abbrev bytes_of : Elements ℕ
bytes_of = record {
  marshal = λ x. some (x ∷ []);
  unmarshal = λ k e. elim e [ [] ↦ none | x ∷ xs ↦ some x ];
}

abbrev ciphertext : Bte.Ciphertext ℕ
ciphertext = record {
  capsule = record {
    i = 2;
    gamma = 1;
    kp = 2;
    a = 3;
    b = 4;
    ap = 5;
    bp = 6;
    yp = 7;
    k_hat = 8;
    u_hat = 9;
  };
  encrypted_tx = zeros 28;
}

abbrev or_empty : Option Bytes → Bytes
or_empty none = []
or_empty (some b) = b

abbrev transaction : EncryptedPlaceholder
transaction = record {
  hash = [];
  ciphertext = or_empty (marshal_ciphertext bytes_of ciphertext);
  gas = 21000;
  effective_fee_per_gas_wei = 48 ∷ [];
  from = [];
  nonce = 0;
  kind = [];
}

-- A batch names its proposer, and by a second byte whether it holds the transaction.
abbrev list_of : Bytes → Option InclusionList
list_of [] = none
list_of (p ∷ []) = some (record { slot = 5; operator_id = p; items = []; hash = [] })
list_of (p ∷ q ∷ bs) =
    some (record { slot = 5; operator_id = p; items = transaction ∷ []; hash = [] })

abbrev env : DecisionEnv ℕ
env = record {
  decode_list = list_of;
  hashing = record {
    hash_hex = λ b. 97 ∷ [];
    marshal_list = λ s p is. s ∷ p ∷ [];
    marshal_lists = λ s ls. s ∷ [];
    marshal_items = λ s is g. s ∷ g ∷ [];
  };
  range = λ u. u;
  elements = bytes_of;
  sha256 = λ b. b;
  ceil_two_sqrt = λ n. n;
  params = record { bmax = 4; n = 4 };
}

abbrev settings : ℕ → NodeSettings
settings id = record {
  id = id;
  node_ids = 1 ∷ 2 ∷ [];
  bmax = 4;
  n = 2;
  threshold = 2;
  max_proposal_bytes = 100;
  max_combine_attempts = 8;
  blockspace = record { max_decrypted_gas = 0; max_decrypted_txs = 0; default_tx_gas = 21000 };
  acs_trace = false;
}

abbrev subset_one : Map Bytes
subset_one = (1, 1 ∷ 1 ∷ []) ∷ (2, 2 ∷ []) ∷ []

abbrev subset_two : Map Bytes
subset_two = (2, 2 ∷ []) ∷ (1, 1 ∷ 1 ∷ []) ∷ []

abbrev output_of : Map Bytes → SlotOutput
output_of m = record {
  slot = 5;
  common_subset = m;
  ordered_batches = ordered_batches m;
  block_body = [];
  decryption_result = none;
}

same_lookups : (j : ℕ) → lookup j subset_one ≡ lookup j subset_two
same_lookups j = ground arith

new-Undecided : Undecided (new_node 5).slot
unfolding new_node new_slot_state
new-Undecided = record { no_result = refl; no_failure = refl; unplanned = refl }

-- A second order of a map of candidates.
abbrev other_order : Unique → Unique
other_order [] = []
other_order (c ∷ []) = c ∷ []
other_order (c ∷ d ∷ u) = d ∷ c ∷ u

other_order-RangesOver : RangesOver other_order
other_order-RangesOver [] = Permᴰ.nil
other_order-RangesOver (c ∷ []) = Permᴰ.refl (c ∷ [])
other_order-RangesOver (c ∷ d ∷ u) = Permᴰ.swap refl refl

verdicts_agree_example :
    verdict
      (apply_decision
        (settings 1)
        (decide (ranging env (λ u. u)) (settings 1) (new_node 5).slot.id (output_of subset_one))
        (new_node 5)).slot
    ≡ verdict
        (apply_decision
          (settings 2)
          (decide
            (ranging env other_order)
            (settings 2)
            (new_node 5).slot.id
            (output_of subset_two))
          (new_node 5)).slot
verdicts_agree_example =
    verdicts_agree env (λ u. u) other_order (settings 1) (settings 2) subset_one subset_two
      (output_of subset_one) (output_of subset_two) (new_node 5) (new_node 5) Permᴰ.refl
      other_order-RangesOver refl refl (refl, (refl, tt)) (refl, (refl, tt)) same_lookups refl refl
      refl refl new-Undecided new-Undecided refl

-- The nodes plan one sub-batch with the one ciphertext.
abbrev planned_sub_batches : Node → List (List ℕ)
planned_sub_batches n = n.slot.plan.sub_batches

decided_plan :
    planned_sub_batches
      (apply_decision (settings 1) (decide env (settings 1) 5 (output_of subset_one)) (new_node 5))
    ≡ (0 ∷ []) ∷ []
unfolding ordered_batches apply_decision decide bloc.Node.Decision.decide_on
    bloc.Node.Decision.decode_accepted_lists bloc.Bte.Batch.decode_batch
    bloc.Bte.Batch.plan_decoded_batch bloc.Inclusion.merge marshal_ciphertext
    bloc.Bte.Wire.marshal_ct bloc.Bte.Wire.write_elements bloc.Bte.Wire.write_bytes
    bloc.Mempool.Calldata.fill_bytes bloc.Bte.Batch.decode_all bloc.Bte.Wire.unmarshal_ciphertext
    bloc.Bte.Wire.unmarshal_ct bloc.Bte.Wire.read_bytes bloc.Bte.Wire.read_elements
    bloc.Bte.Wire.capsule_of bloc.Bte.Arrange.arrange_batch new_node
decided_plan = refl

abbrev setting : Setting
setting = record {
  cfg = settings 1;
  curve = record {
    point_size = 1;
    marshal_point = λ p. some p;
    unmarshal_point_hex = λ s. some s;
    decode_hex = λ s. some s;
  };
  combiner = λ a. (none, []);
  encode_list = λ slot id items. some [];
}

-- The node makes its share of the one sub-batch, and its digits are changed on the way out.
abbrev sharing : Sharing
sharing = record {
  make_share = λ plan j. some (record {
    operator_id = 1;
    batch_id = plan.batch_id;
    sub_batch_id = j;
    share = some (record { i = 1; v = some (5 ∷ []) });
  });
  marshal_share = λ d. some (record {
    operator_id = d.operator_id;
    batch_id_hex = [];
    sub_batch_id = d.sub_batch_id;
    point_hex = 48 ∷ [];
  });
  withhold_share = false;
  corrupt_share = true;
}

handled_output :
    Runs setting
      (new_node 5)
      (handle_acs_output env setting.cfg setting.curve sharing setting.combiner 3
        (output_of subset_one)
        (new_node 5)).0
handled_output = handle_acs_output-Runs setting env sharing 3 (output_of subset_one) (new_node 5)

-- The message with which the common subset, here a count of messages, comes to its output.
abbrev deciding_envelope : WireEnvelope
deciding_envelope = record {
  from = 2;
  to = 1;
  direct = true;
  kind = acs_kind;
  slot = 5;
  acs = some (record { slot = 5; payload = none });
  share = none;
}

handle_envelope-Handles_example :
    Handles env
      (λ from msg k. (suc k, some (some (output_of subset_one))))
      setting
      deciding_envelope
      (new_node 5)
      0
      (handle_envelope env
        (λ from msg k. (suc k, some (some (output_of subset_one))))
        setting.cfg
        setting.curve
        sharing
        setting.combiner
        3
        deciding_envelope
        (new_node 5)
        0)
handle_envelope-Handles_example =
    handle_envelope-Handles env (λ from msg k. (suc k, some (some (output_of subset_one)))) setting
      sharing 3 deciding_envelope (new_node 5) 0
