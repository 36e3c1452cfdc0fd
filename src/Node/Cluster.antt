-- ===== src/Node/Cluster.antt =====
-- The cluster's combination in the node (bloc-node/internal/app/node.go: `tryCombine`, with
-- bte/btd-impl-main/be/cluster.go: `CombineSharesBounded`). The rendering of plaintexts and the
-- cluster's view of a plan are arguments.
use bloc.Prelude.{ℕ, ◌*◌, ◌≤◌, Option, none, some, List, length}
use bloc.Prelude.Bytes.{Bytes}
use bloc.Prelude.Maps.{Map}
use bloc.Inclusion.{EncryptedPlaceholder}
use bloc.Bte
use bloc.Bte.Combine.{Opening, combine_shares_bounded}
use bloc.Bte.Combine.Limits.{combine_shares_bounded-Within}
use bloc.Node.{NodeSettings, BatchPlan}
use bloc.Node.Shares.{Curve}
use bloc.Node.Combine.{Rendered, Combiner}
use bloc.Node.Steps.{World, Setting, Reach}
use bloc.Node.Steps.Spending.{Limited}
use bloc.Node.Steps.Budget.{reach-budget}

-- The call of `tryCombine`, with the budgets that the attempt has left.
unfoldable pub cluster_combiner :
    {El : Type 0}
    → Opening El
    → NodeSettings
    → (BatchPlan → Bte.BatchPlan El)
    → (Map Bytes → Rendered)
    → Combiner
unfolding combine_shares_bounded
cluster_combiner opening cfg plan_of render a =
    let r =
      combine_shares_bounded opening cfg.n cfg.threshold (plan_of a.plan) a.shares
        cfg.max_combine_attempts (some a.attempt_limits) in
    (elim r.0 [ none ↦ none | some m ↦ some (render m) ], r.1)

module _ {El : Type 0} (opening : Opening El) (cfg : NodeSettings) where
  pub cluster_combiner-Limited :
      (plan_of : BatchPlan → Bte.BatchPlan El) (render : Map Bytes → Rendered)
      → Limited (cluster_combiner opening cfg plan_of render)
  unfolding cluster_combiner
  cluster_combiner-Limited plan_of render a =
      combine_shares_bounded-Within opening cfg.n cfg.threshold (plan_of a.plan) a.shares
        cfg.max_combine_attempts (some a.attempt_limits)

  -- A node with its cluster.
  abbrev pub cluster_setting :
      Curve
      → (BatchPlan → Bte.BatchPlan El)
      → (Map Bytes → Rendered)
      → (ℕ → ℕ → List EncryptedPlaceholder → Option Bytes)
      → Setting
  cluster_setting curve plan_of render encode_list = record {
    cfg = cfg;
    curve = curve;
    combiner = cluster_combiner opening cfg plan_of render;
    encode_list = encode_list;
  }

  -- In every order of a node's steps, with the cluster's bounded combination: however many combinations
  -- a slot starts, whatever shares they get and whatever comes of them, the attempts made in it are
  -- at most the configured number for each sub-batch of its plan.
  pub attempts_bounded :
      (curve : Curve) (plan_of : BatchPlan → Bte.BatchPlan El) (render : Map Bytes → Rendered)
      (encode_list : ℕ → ℕ → List EncryptedPlaceholder → Option Bytes) (first : ℕ) (w : World)
      → Reach (cluster_setting curve plan_of render encode_list) first w
      → w.node.slot.counters.share_subset_attempts
        ≤ length w.node.slot.plan.sub_batches * cfg.max_combine_attempts
  attempts_bounded curve plan_of render encode_list first w r =
      (reach-budget (cluster_setting curve plan_of render encode_list)
        (cluster_combiner-Limited plan_of render) first w r).1
