-- ===== src/Broker/Opening.antt =====
-- Open of internal/messaging/rabbitmq/publisher.go and declare of topology.go.
use rc_pangjiahui.Prelude.{
  Bool, true, false, not, ◌≡◌, refl, ◌⊎◌, inl, inr, Option, none, some, List, [], ◌∷◌, ◌++◌,
  Bool-cases, if◌then◌else◌,
}
use rc_pangjiahui.Store.Tables.{Error, other}

-- The steps of Open, in their order; each may fail.
pub data Action : Type 0 where
  dial open_channel declare_exchange declare_queue bind_queue enable_confirms : Action
  close_channel close_connection : Action

pub record OpenCalls : Type 0 where
  pub dial_up : Bool
  pub channel_up : Bool
  pub exchange_up : Bool
  pub queue_up : Bool
  pub bind_up : Bool
  pub confirm_up : Bool

-- declare: the steps that succeed, and the error.
unfoldable pub declare : OpenCalls → List Action × Option Error
declare calls =
    if not calls.exchange_up
    then ([], some (other "declare exchange"))
    else if not calls.queue_up
    then (declare_exchange ∷ [], some (other "declare queue"))
    else if not calls.bind_up
    then (declare_exchange ∷ declare_queue ∷ [], some (other "bind queue"))
    else (declare_exchange ∷ declare_queue ∷ bind_queue ∷ [], none)

unfoldable pub open_client : OpenCalls → List Action × Option Error
unfolding declare
open_client calls =
    if not calls.dial_up
    then ([], some (other "dial rabbitmq"))
    else if not calls.channel_up
    then (dial ∷ close_connection ∷ [], some (other "open rabbitmq channel"))
    else let (declared, error) = declare calls in
      let begun = dial ∷ open_channel ∷ declared in
      elim error [
        | some e ↦ (begun ++ close_channel ∷ close_connection ∷ [], some e)
        | none ↦
            if not calls.confirm_up
            then (begun ++ close_channel ∷ close_connection ∷ [], some (other "enable confirms"))
            else (begun ++ enable_confirms ∷ [], none)
      ]

-- What is open after the actions: the connection and the channel.
unfoldable pub left_open : List Action → Bool × Bool → Bool × Bool
left_open [] s = s
left_open (dial ∷ actions) (connection, channel) = left_open actions (true, channel)
left_open (open_channel ∷ actions) (connection, channel) = left_open actions (connection, true)
left_open (close_channel ∷ actions) (connection, channel) = left_open actions (connection, false)
left_open (close_connection ∷ actions) (connection, channel) = left_open actions (false, channel)
left_open (declare_exchange ∷ actions) s = left_open actions s
left_open (declare_queue ∷ actions) s = left_open actions s
left_open (bind_queue ∷ actions) s = left_open actions s
left_open (enable_confirms ∷ actions) s = left_open actions s

-- Open leaves the connection and the channel open if it succeeds, with the topology declared and the
-- confirmations enabled, and neither of them open if any of its steps fails.
pub open_client-closes :
    (calls : OpenCalls)
    → (((open_client calls).1 ≡ none)
        × ((open_client calls).0
            ≡ dial ∷ open_channel ∷ declare_exchange ∷ declare_queue ∷ bind_queue ∷ enable_confirms
              ∷ [])
        × (left_open (open_client calls).0 (false, false) ≡ (true, true)))
      ⊎ (((e : Error) × ((open_client calls).1 ≡ some e))
          × (left_open (open_client calls).0 (false, false) ≡ (false, false)))
unfolding open_client left_open
open_client-closes calls = elim (Bool-cases calls.dial_up) [
  | inr e ↦ simp e (inr ((other "dial rabbitmq", refl), refl))
  | inl dialled ↦ elim (Bool-cases calls.channel_up) [
    | inr e ↦ simp (dialled, e) (inr ((other "open rabbitmq channel", refl), refl))
    | inl opened ↦ elim (Bool-cases calls.exchange_up) [
      | inr e ↦ simp (dialled, opened, e) (inr ((other "declare exchange", refl), refl))
      | inl exchange ↦ elim (Bool-cases calls.queue_up) [
        | inr e ↦ simp (dialled, opened, exchange, e) (inr ((other "declare queue", refl), refl))
        | inl queue ↦ elim (Bool-cases calls.bind_up) [
          | inr e ↦
              simp (dialled, opened, exchange, queue, e) (inr ((other "bind queue", refl), refl))
          | inl bound ↦ elim (Bool-cases calls.confirm_up) [
            | inr e ↦
                simp (dialled, opened, exchange, queue, bound, e)
                  (inr ((other "enable confirms", refl), refl))
            | inl confirms ↦
                simp (dialled, opened, exchange, queue, bound, confirms) (inl (refl, refl, refl))
          ]
        ]
      ]
    ]
  ]
]
