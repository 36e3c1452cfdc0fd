-- ===== src/Node/Shares.antt =====
-- The admission and the retention of decryption shares (bloc-node/internal/app/node.go). The curve's
-- encoding is the record `Curve`.
pub mod Retention
pub mod Pruning
use bloc.Prelude.{
  ℕ, ◌+◌, ◌*◌, Bool, true, false, not, ◌&&◌, ◌||◌, Option, none, some, List, [], ◌∷◌, ◌++◌, ◌==◌,
  ltb, leb, if◌then◌else◌, length, contains,
}
use bloc.Prelude.Maps.{Map, lookup, insert, remove, has}
use bloc.Prelude.Bytes.{Bytes, bytes_eq}
use bloc.Node.{
  NodeSettings, Point, PubShare, DecryptionShare, RetainedShare, Candidates, BatchPlan, SlotState,
}

pub record Curve : Type 0 where
  pub point_size : ℕ
  pub marshal_point : Point → Option Bytes
  pub unmarshal_point_hex : Bytes → Option Point
  pub decode_hex : Bytes → Option Bytes

pub record WireShare : Type 0 where
  pub operator_id : ℕ
  pub batch_id_hex : Bytes
  pub sub_batch_id : ℕ
  pub point_hex : Bytes

-- The share that a wire share stands for.
abbrev pub decoded_share : WireShare → Bytes → Point → DecryptionShare
decoded_share w batch_id point = record {
  operator_id = w.operator_id;
  batch_id = batch_id;
  sub_batch_id = w.sub_batch_id;
  share = some (record { i = w.operator_id; v = some point });
}

-- The labels that the rejections are counted under.
pub data RejectReason : Type 0 where
  membership encoding sub_batch batch conflict capacity : RejectReason

-- Every rejection counts.
abbrev pub reject : RejectReason → SlotState → SlotState × Option RejectReason
reject reason s = (
  record s { counters = record (s.counters) { shares_rejected = s.counters.shares_rejected + 1 } },
  some reason,
)

abbrev pub no_candidates : Candidates
no_candidates = record { batch_id = []; batch_set = false; shares = [] }

abbrev pub candidates_of : ℕ → SlotState → Candidates
candidates_of operator_id s = elim (lookup operator_id s.share_candidates) [
  | none ↦ no_candidates
  | some c ↦ c
]

-- How many shares are retained, over all operators.
abbrev pub count_shares : Map Candidates → ℕ
count_shares [] = 0
count_shares ((id, c) ∷ m) = length c.shares + count_shares m

abbrev pub retained_share_count : SlotState → ℕ
retained_share_count s = count_shares s.share_candidates

abbrev pub store_candidates : ℕ → Candidates → SlotState → SlotState
store_candidates operator_id c s = record s {
  share_candidates = insert operator_id c s.share_candidates;
}

module _ (cfg : NodeSettings) where
  -- A share that fits is counted; its map entry is made before the capacity is tested.
  unfoldable pub admit_share :
      DecryptionShare → Bytes → Candidates → SlotState → SlotState × Option RejectReason
  admit_share d encoded c s =
      let named = record c { batch_id = d.batch_id; batch_set = true } in
      let kept = record named {
        shares = insert d.sub_batch_id (record { value = d; encoded = encoded }) c.shares;
      } in
      let s' = store_candidates d.operator_id kept s in
      if ltb (cfg.n * cfg.bmax) (retained_share_count s')
      then reject capacity (store_candidates d.operator_id named s)
      else (
        record s' {
          share_version = s.share_version + 1;
          counters = record (s.counters) {
            shares_accepted = s.counters.shares_accepted + 1;
            shares_generated =
                s.counters.shares_generated + (if d.operator_id == cfg.id then 1 else 0);
          };
        },
        none,
      )

  -- Against what the operator has sent before.
  unfoldable pub check_candidates :
      DecryptionShare → Bytes → Candidates → SlotState → SlotState × Option RejectReason
  unfolding admit_share
  check_candidates d encoded c s =
      if c.batch_set && not (bytes_eq c.batch_id d.batch_id)
      then reject batch s
      else elim (lookup d.sub_batch_id c.shares) [
        | none ↦ admit_share d encoded c s
        | some existing ↦ if bytes_eq existing.encoded encoded then (s, none) else reject conflict s
      ]

  -- The locked section of `addShare`.
  unfoldable pub retain_share :
      DecryptionShare → Bytes → SlotState → SlotState × Option RejectReason
  unfolding check_candidates
  retain_share d encoded s =
      if s.planned && not (bytes_eq d.batch_id s.plan.batch_id)
      then reject batch s
      else if s.planned && leb (length s.plan.sub_batches) d.sub_batch_id
      then reject sub_batch s
      else let c = candidates_of d.operator_id s in
        check_candidates d encoded c (store_candidates d.operator_id c s)

  module _ (curve : Curve) where
    open curve use {point_size, marshal_point, unmarshal_point_hex, decode_hex}

    unfoldable pub add_share : DecryptionShare → SlotState → SlotState × Option RejectReason
    unfolding retain_share
    add_share d s =
        if not (contains cfg.node_ids d.operator_id) then reject membership s else elim d.share [
          | none ↦ reject encoding s
          | some p ↦ elim p.v [
            | none ↦ reject encoding s
            | some v ↦
                if not (p.i == d.operator_id)
                then reject membership s
                else if leb cfg.bmax d.sub_batch_id
                then reject sub_batch s
                else elim (marshal_point v) [
                  | none ↦ reject encoding s
                  | some encoded ↦ retain_share d encoded s
                ]
          ]
        ]

    -- A share from the transport; what is not hexadecimal or of the wrong length is refused.
    unfoldable pub add_wire_share : WireShare → SlotState → SlotState × Option RejectReason
    unfolding add_share
    add_wire_share w s =
        if not (contains cfg.node_ids w.operator_id)
        then reject membership s
        else if not (length w.batch_id_hex == 64)
        then reject encoding s
        else elim (decode_hex w.batch_id_hex) [
          | none ↦ reject encoding s
          | some batch_id ↦
              if leb cfg.bmax w.sub_batch_id
              then reject sub_batch s
              else if not (length w.point_hex == point_size * 2)
              then reject encoding s
              else elim (unmarshal_point_hex w.point_hex) [
                | none ↦ reject encoding s
                | some point ↦ add_share (decoded_share w batch_id point) s
              ]
        ]

-- The shares of sub-batches that the plan does not have are dropped.
abbrev pub shares_below : ℕ → Map RetainedShare → Map RetainedShare
shares_below m [] = []
shares_below m ((j, r) ∷ rs) =
    let rest = shares_below m rs in if leb m j then rest else (j, r) ∷ rest

-- Operators that named no batch or another one are dropped.
unfoldable pub prune_candidates : BatchPlan → Map Candidates → Map Candidates
prune_candidates plan [] = []
prune_candidates plan ((id, c) ∷ m) =
    let rest = prune_candidates plan m in
    if not c.batch_set || not (bytes_eq c.batch_id plan.batch_id)
    then rest
    else (id, record c { shares = shares_below (length plan.sub_batches) c.shares }) ∷ rest

-- sort.Ints, on the entries of a map.
abbrev pub insert_entry : ℕ → RetainedShare → Map RetainedShare → Map RetainedShare
insert_entry j r [] = (j, r) ∷ []
insert_entry j r ((i, q) ∷ rs) =
    let rest = insert_entry j r rs in if leb j i then (j, r) ∷ (i, q) ∷ rs else (i, q) ∷ rest

abbrev pub sort_entries : Map RetainedShare → Map RetainedShare
sort_entries [] = []
sort_entries ((j, r) ∷ rs) = insert_entry j r (sort_entries rs)

abbrev pub values : Map RetainedShare → List DecryptionShare
values [] = []
values ((j, r) ∷ rs) = r.value ∷ values rs

-- In the order of the operators and of the sub-batches.
unfoldable pub retained_shares : List ℕ → Map Candidates → List DecryptionShare
retained_shares [] m = []
retained_shares (id ∷ ids) m =
    let rest = retained_shares ids m in
    elim (lookup id m) [ none ↦ rest | some c ↦ values (sort_entries c.shares) ++ rest ]
