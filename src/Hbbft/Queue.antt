-- ===== src/Hbbft/Queue.antt =====
-- The queue of outgoing messages (sbc/hbbft/message_que.go). Its lock is left out: each protocol
-- handles one call at a time.
use bloc.Prelude.{ℕ, List, [], ◌∷◌, ◌++◌}

pub record MessageTuple {ℓ} (A : Type ℓ) : Type ℓ where
  pub to : ℕ
  pub payload : A

module _ {ℓ} {A : Type ℓ} where
  unfoldable pub add_message : A → ℕ → List (MessageTuple A) → List (MessageTuple A)
  add_message msg to que = que ++ record { to = to; payload = msg } ∷ []

  unfoldable pub add_messages :
      List (MessageTuple A) → List (MessageTuple A) → List (MessageTuple A)
  add_messages msgs que = que ++ msgs

  -- The messages, and the queue left empty.
  unfoldable pub messages : List (MessageTuple A) → List (MessageTuple A) × List (MessageTuple A)
  messages que = (que, [])

  -- Everything of the other queue is moved to the end of this one.
  unfoldable pub add_que :
      List (MessageTuple A) → List (MessageTuple A) → List (MessageTuple A) × List (MessageTuple A)
  unfolding messages add_messages
  add_que other que = let (msgs, other') = messages other in (add_messages msgs que, other')
