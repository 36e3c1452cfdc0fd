-- ===== src/Hbbft/Bba.antt =====
-- Binary Byzantine agreement (sbc/hbbft/bba.go). A method that changes the receiver returns the new
-- state. The diagnostic trace is left out: nothing of it flows back into the protocol.
-- The handlers call one another and, through the messages held back for later epochs, themselves.
-- Each takes these calls as the argument `call`; `run` ties the knot with fuel.
pub mod Rule
pub mod Sound
pub mod Decision
pub mod History
pub mod Horizon
pub mod Termination
use bloc.Prelude.{
  ℕ, zero, suc, ◌+◌, ◌-◌, ◌*◌, ◌%◌, ◌^◌, Bool, true, false, not, ◌&&◌, ◌||◌, Option, none, some,
  List, [], ◌∷◌, ◌++◌, ◌==◌, ltb, if◌then◌else◌, bool_eq, length, count_if, is_nil,
}
use bloc.Prelude.Maps.{Map, insert}
use bloc.Prelude.Results.{◌>>=◌}
use bloc.Hbbft.Config.{Config, with_default_f}

-- What `Message interface{}` holds; `unknown` is any other type.
pub data Content : Type 0 where
  bval : Bool → Content
  aux : Bool → Content
  unknown : Content

pub record AgreementMessage : Type 0 where
  pub epoch : ℕ
  pub message : Content

pub data BbaError : Type 0 where
  unknown_message : BbaError

-- The senders of each value: map[bool]map[uint64]bool, whose inner maps hold only `true`.
pub record BvalSet : Type 0 where
  pub on_false : Map Bool
  pub on_true : Map Bool

abbrev pub new_bval_set : BvalSet
new_bval_set = record { on_false = []; on_true = [] }

pub record Bba : Type 0 where
  pub config : Config
  pub open config use *
  pub proposer_id : ℕ
  pub epoch : ℕ  -- uint32
  pub bin_values : List Bool
  pub sent_bvals : List Bool
  pub recv_bval : BvalSet
  pub recv_aux : Map Bool
  pub done : Bool
  pub output : Option Bool
  pub estimated : Option Bool
  pub decision : Option Bool
  pub delayed_messages : List (ℕ × AgreementMessage)
  pub messages : List AgreementMessage
  pub msg_count : ℕ

unfoldable pub new_bba : Config → ℕ → Bba
unfolding with_default_f
new_bba cfg proposer_id = record {
  config = with_default_f cfg;
  proposer_id = proposer_id;
  epoch = 0;
  bin_values = [];
  sent_bvals = [];
  recv_bval = new_bval_set;
  recv_aux = [];
  done = false;
  output = none;
  estimated = none;
  decision = none;
  delayed_messages = [];
  messages = [];
  msg_count = 0;
}

abbrev pub is_none {ℓ} : {A : Type ℓ} → Option A → Bool
is_none none = true
is_none (some a) = false

unfoldable pub accept_input : Bba → Bool
accept_input b = b.epoch == 0 && is_none b.estimated

-- `Output` hands the result over once.
unfoldable pub take_output : Bba → Option Bool × Bba
take_output b = (b.output, record b { output = none })

unfoldable pub take_messages : Bba → List AgreementMessage × Bba
take_messages b = (b.messages, record b { messages = [] })

abbrev pub add_message : Content → Bba → Bba
add_message m b = record b { messages = b.messages ++ record { epoch = b.epoch; message = m } ∷ [] }

abbrev pub senders : Bool → BvalSet → Map Bool
senders true s = s.on_true
senders false s = s.on_false

abbrev pub add_sender : Bool → ℕ → BvalSet → BvalSet
add_sender true sid s = record s { on_true = insert sid true s.on_true }
add_sender false sid s = record s { on_false = insert sid true s.on_false }

abbrev pub count_bvals : Bool → Bba → ℕ
count_bvals val b = length (senders val b.recv_bval)

abbrev pub count_all_bvals : Bba → ℕ
count_all_bvals b = length b.recv_bval.on_false + length b.recv_bval.on_true

abbrev pub holds : Bool → List Bool → Bool
holds val [] = false
holds val (v ∷ vs) = if bool_eq v val then true else holds val vs

abbrev pub has_sent_bval : Bool → Bba → Bool
has_sent_bval val b = holds val b.sent_bvals

-- The AUX entries whose value is admitted, and the values among them, false first.
abbrev pub count_outputs : Bba → ℕ × List Bool
count_outputs b = (
  count_if (λ e. holds e.1 b.bin_values) b.recv_aux,
  (if seen false then false ∷ [] else []) ++ (if seen true then true ∷ [] else []),
)
  where
    seen : Bool → Bool
    seen v = not (count_if (λ e. bool_eq e.1 v && holds e.1 b.bin_values) b.recv_aux == 0)

abbrev pub coin_of : ℕ → Bool
coin_of epoch = epoch % 2 == 0

-- The calls that the handlers make, and what they give: the new state and the error, or `none`
-- where the fuel has run out.
pub data Call : Type 0 where
  bval_request : ℕ → Bool → Call
  aux_request : ℕ → Bool → Call
  try_output : Call
  receive : ℕ → AgreementMessage → Call

abbrev pub Outcome : Type 0
Outcome = Option (Bba × Option BbaError)

-- The state changes of the handlers, one for each.
unfoldable pub accept_bval : ℕ → Bool → Bba → Bba
accept_bval sid val b = record b { recv_bval = add_sender val sid b.recv_bval }

unfoldable pub admit_value : Bool → Bba → Bba
admit_value val b = record b { bin_values = b.bin_values ++ val ∷ [] }

-- The first admitted value of an epoch is announced by an AUX message.
unfoldable pub admit_first : Bool → Bba → Bba
unfolding admit_value
admit_first val b = add_message (aux val) (admit_value val b)

unfoldable pub send_bval : Bool → Bba → Bba
send_bval val b = add_message (bval val) (record b { sent_bvals = b.sent_bvals ++ val ∷ [] })

unfoldable pub accept_aux : ℕ → Bool → Bba → Bba
accept_aux sid val b = record b { recv_aux = insert sid val b.recv_aux }

unfoldable pub finish : Bba → Bba
finish b = record b { done = true }

unfoldable pub hold_back : ℕ → AgreementMessage → Bba → Bba
hold_back sid msg b = record b { delayed_messages = b.delayed_messages ++ (sid, msg) ∷ [] }

unfoldable pub clear_delayed : Bba → Bba
clear_delayed b = record b { delayed_messages = [] }

-- `epoch++` on a uint32.
unfoldable pub advance_epoch : Bba → Bba
advance_epoch b = record b {
  bin_values = [];
  sent_bvals = [];
  recv_aux = [];
  recv_bval = new_bval_set;
  epoch = (b.epoch + 1) % 2 ^ 32;
}

-- The estimate for the next epoch, and the decision where the one value is the coin's.
unfoldable pub decide : List Bool → Bool → Bba → Bool × Bba
decide (v ∷ []) coin b = (
  v,
  if is_none b.decision && bool_eq v coin
      then record b { estimated = some v; output = some v; decision = some v; msg_count = 0 }
      else record b { estimated = some v },
)
decide _ coin b = (coin, record b { estimated = some coin })

-- The new epoch up to the node's own BVAL message.
unfoldable pub start_epoch : Bba → Bool × Bba
unfolding advance_epoch decide send_bval
start_epoch b =
    let (est, b') = decide (count_outputs b).1 (coin_of b.epoch) (advance_epoch b) in
    (est, send_bval est b')

unfoldable pub is_finished : Bba → Bool
is_finished b = b.done || elim b.decision [ none ↦ false | some v ↦ bool_eq v (coin_of b.epoch) ]

abbrev pub quiet : Outcome → Outcome
quiet r = r >>= λ s. some (s.0, none)

module _ (call : Call → Bba → Outcome) where
  -- A binary value from `sid`: at 2f + 1 senders it is admitted, at f + 1 relayed.
  unfoldable pub handle_bval_request : ℕ → Bool → Bba → Outcome
  unfolding accept_bval admit_value admit_first send_bval
  handle_bval_request sid val b =
      let b' = accept_bval sid val b in
      elim (count_bvals val b' == 2 * b.f + 1) [
        | true ↦ quiet (elim (is_nil b'.bin_values) [
          | true ↦ call (aux_request b.id val) (admit_first val b')
          | false ↦ call try_output (admit_value val b')
        ])
        | false ↦ elim (count_bvals val b' == b.f + 1 && not (has_sent_bval val b')) [
          | true ↦ call (bval_request b.id val) (send_bval val b')
          | false ↦ some (b', none)
        ]
      ]

  unfoldable pub handle_aux_request : ℕ → Bool → Bba → Outcome
  unfolding accept_aux
  handle_aux_request sid val b = quiet (call try_output (accept_aux sid val b))

  -- The loop over the messages that were held back; an error is only logged.
  unfoldable pub drain : List (ℕ × AgreementMessage) → Bba → Outcome
  drain [] b = some (b, none)
  drain ((sid, msg) ∷ que) b = call (receive sid msg) b >>= λ r. drain que r.0

  unfoldable pub try_output_agreement : Bba → Outcome
  unfolding finish start_epoch is_finished drain clear_delayed
  try_output_agreement b = elim (is_nil b.bin_values || ltb (count_outputs b).0 (b.n - b.f)) [
    | true ↦ some (b, none)
    | false ↦ elim (is_finished b) [
      | true ↦ some (finish b, none)
      | false ↦
          let (est, b') = start_epoch b in
          call (bval_request b.id est) b' >>= λ r.
          drain r.0.delayed_messages r.0 >>= λ r'. some (clear_delayed r'.0, none)
    ]
  ]

  abbrev dispatch_message : ℕ → Content → Bba → Outcome
  dispatch_message sid (bval v) b = call (bval_request sid v) b
  dispatch_message sid (aux v) b = call (aux_request sid v) b
  dispatch_message sid unknown b = some (b, some unknown_message)

  -- Old messages are ignored, messages of later epochs held back.
  unfoldable pub handle_message : ℕ → AgreementMessage → Bba → Outcome
  unfolding hold_back
  handle_message sid msg b = elim (b.done || ltb msg.epoch b.epoch) [
    | true ↦ some (b, none)
    | false ↦ elim (ltb b.epoch msg.epoch) [
      | true ↦ some (hold_back sid msg b, none)
      | false ↦ dispatch_message sid msg.message b
    ]
  ]

unfoldable pub dispatch : (Call → Bba → Outcome) → Call → Bba → Outcome
unfolding handle_bval_request handle_aux_request try_output_agreement handle_message
dispatch call (bval_request sid val) b = handle_bval_request call sid val b
dispatch call (aux_request sid val) b = handle_aux_request call sid val b
dispatch call try_output b = try_output_agreement call b
dispatch call (receive sid msg) b = handle_message call sid msg b

unfoldable pub run : ℕ → Call → Bba → Outcome
unfolding dispatch
run zero c b = none
run (suc fuel) c b = dispatch (run fuel) c b

-- The entry points. `InputValue` acts once, in the first epoch.
unfoldable pub input_value : ℕ → Bool → Bba → Outcome
unfolding run send_bval
input_value fuel val b = elim (not (b.epoch == 0) || not (is_none b.estimated)) [
  | true ↦ some (b, none)
  | false ↦ run fuel (bval_request b.id val) (send_bval val (record b { estimated = some val }))
]

unfoldable pub receive_message : ℕ → ℕ → AgreementMessage → Bba → Outcome
unfolding run
receive_message fuel sid msg b =
    run fuel (receive sid msg) (record b { msg_count = b.msg_count + 1 })
