-- ===== src/Broker/Client.antt =====
-- Publish of internal/messaging/rabbitmq/publisher.go: the client with what its two channels hold
-- between calls. The client library amqp091-go puts a confirmation into
-- one channel and a returned message into the other as they arrive; that each of them holds one value
-- before the library has to wait is not modelled.
use rc_pangjiahui.Prelude.{
  ℕ, ◌+◌, String, Bool, true, false, not, ◌≡◌, refl, ap, ◌∙◌, Option, none, some, List, [], ◌∷◌,
  ◌++◌, arith, if◌then◌else◌,
}
use rc_pangjiahui.Store.Tables.{Error, other}

pub record Confirmation : Type 0 where
  pub delivery_tag : ℕ
  pub acked : Bool

-- The unread confirmations and returned messages, whether the channels are closed, and the tag that
-- the library gives to the next message.
pub record Client : Type 0 where
  pub confirms : List Confirmation
  pub returns : List String
  pub closed : Bool
  pub next_tag : ℕ

pub data Arrival : Type 0 where
  confirmed : Confirmation → Arrival
  returned : String → Arrival
  shut : Arrival

-- The library puts what arrives into the channels.
unfoldable pub receive : List Arrival → Client → Client
receive [] client = client
receive (confirmed c ∷ arrivals) client =
    receive arrivals (record client { confirms = client.confirms ++ c ∷ [] })
receive (returned text ∷ arrivals) client =
    receive arrivals (record client { returns = client.returns ++ text ∷ [] })
receive (shut ∷ arrivals) client = receive arrivals (record client { closed = true })

-- The cases of the select of Publish.
pub data Case : Type 0 where
  takes_return takes_confirmation takes_context : Case

-- What a call of Publish meets: whether the message can be written and handed to the library, what
-- arrives before the select decides, whether the context is done by then, and which of several ready
-- cases the select takes.
pub record Call : Type 0 where
  pub marshalled : Bool
  pub sent : Bool
  pub arrivals : List Arrival
  pub context_done : Bool
  pub choice : Case

abbrev pub confirm_lost : Option Error
confirm_lost = some (other "publisher confirm lost")

abbrev pub message_returned : Option Error
message_returned = some (other "message returned by broker")

-- After a confirmation: a returned message that is there by now is an error, and so is the zero value
-- that a closed channel gives.
abbrev after_confirmation : Confirmation → List Confirmation → Client → Client × Option Error
after_confirmation c rest client =
    if not c.acked then (record client { confirms = rest }, confirm_lost) else elim client.returns [
      | [] ↦ (record client { confirms = rest }, if client.closed then message_returned else none)
      | text ∷ texts ↦ (record client { confirms = rest; returns = texts }, message_returned)
    ]

abbrev pub context_ended : Option Error
context_ended = some (other "publisher confirm lost, and the context's error")

-- A channel can be read if it holds a value or is closed.
abbrev is_readable {ℓ} : {A : Type ℓ} → Bool → List A → Bool
is_readable closed [] = closed
is_readable closed (x ∷ xs) = true

abbrev read_return : Client → Client × Option Error
read_return client = elim client.returns [
  | [] ↦ (client, message_returned)
  | text ∷ texts ↦ (record client { returns = texts }, message_returned)
]

abbrev read_confirmation : Client → Client × Option Error
read_confirmation client = elim client.confirms [
  | [] ↦ (client, confirm_lost)
  | c ∷ rest ↦ after_confirmation c rest client
]

-- What the select does with a channel if it can be read, and with the rest otherwise.
abbrev first_return : Client → Client × Option Error → Client × Option Error
first_return client rest =
    if is_readable client.closed client.returns then read_return client else rest

abbrev first_confirmation : Client → Client × Option Error → Client × Option Error
first_confirmation client rest =
    if is_readable client.closed client.confirms then read_confirmation client else rest

-- The select: the chosen case if it is ready, and otherwise another that is. With nothing ready it
-- waits for the end of the context.
unfoldable pub select_first : Case → Bool → Client → Client × Option Error
select_first takes_return context_done client =
    first_return client (first_confirmation client (client, context_ended))
select_first takes_confirmation context_done client =
    first_confirmation client (first_return client (client, context_ended))
select_first takes_context context_done client =
    if context_done
    then (client, context_ended)
    else first_confirmation client (first_return client (client, context_ended))

unfoldable pub publish_on : Call → Client → Client × Option Error
unfolding receive select_first
publish_on call client =
    if not call.marshalled
    then (client, some (other "marshal message"))
    else if not call.sent
    then (client, some (other "publish message"))
    else select_first call.choice call.context_done
        (receive call.arrivals (record client { next_tag = client.next_tag + 1 }))

-- A call in time to which the broker answers with one confirmation of its message.
abbrev answered_call : Client → Bool → Case → Call
answered_call client acked choice = record {
  marshalled = true;
  sent = true;
  arrivals = confirmed (record { delivery_tag = client.next_tag; acked = acked }) ∷ [];
  context_done = false;
  choice = choice;
}

-- Nothing is left to read from an earlier call, and the channels are open.
abbrev pub IsQuiet : Client → Type 0
IsQuiet client = (client.confirms ≡ []) × (client.returns ≡ []) × (client.closed ≡ false)

-- The calls one after the other, each with the broker's answer to its message and the choice of its
-- select.
unfoldable pub publish_each : List (Bool × Case) → Client → Client × List (Option Error)
publish_each [] client = (client, [])
publish_each ((acked, choice) ∷ answers) client =
    let (client', error) = publish_on (answered_call client acked choice) client in
    let (client'', errors) = publish_each answers client' in (client'', error ∷ errors)

-- The errors that the answers call for.
abbrev pub errors_of : List (Bool × Case) → List (Option Error)
errors_of [] = []
errors_of ((acked, choice) ∷ answers) = (if acked then none else confirm_lost) ∷ errors_of answers

answered-IsQuiet :
    (client : Client) (acked : Bool) (choice : Case)
    → IsQuiet client
    → IsQuiet (publish_on (answered_call client acked choice) client).0
      × ((publish_on (answered_call client acked choice) client).1
          ≡ (if acked then none else confirm_lost))
unfolding publish_on
answered-IsQuiet client true choice q = ground (arith, q)
answered-IsQuiet client false choice q = ground (arith, q)

-- As long as the broker answers each message with one confirmation and returns none, and no context
-- is done before its select decides, each call reports the answer to its own message, whichever case
-- its select would choose, and nothing is left for the next.
pub publish_each_own :
    (answers : List (Bool × Case)) (client : Client)
    → IsQuiet client
    → IsQuiet (publish_each answers client).0
      × ((publish_each answers client).1 ≡ errors_of answers)
unfolding publish_each
publish_each_own [] client q = (q, refl)
publish_each_own ((acked, choice) ∷ answers) client q =
    let after = publish_on (answered_call client acked choice) client in
    let (quiet, error) = answered-IsQuiet client acked choice q in
    let (rest, errors) = publish_each_own answers after.0 quiet in
    (
      rest,
      ap (λ e. e ∷ (publish_each answers after.0).1) error
          ∙ ap (◌∷◌ (if acked then none else confirm_lost)) errors,
    )

-- A broker answers a message that it cannot route with the message and then with a confirmation.
abbrev pub returned_call : Client → String → Case → Call
returned_call client text choice = record {
  marshalled = true;
  sent = true;
  arrivals =
      returned text ∷ confirmed (record { delivery_tag = client.next_tag; acked = true }) ∷ [];
  context_done = false;
  choice = choice;
}

-- A call whose context is done when the confirmation is there.
abbrev pub late_call : Client → Bool → Call
late_call client acked = record (answered_call client acked takes_context) { context_done = true }

-- A call in time before whose select nothing arrives.
abbrev pub silent_call : Case → Call
silent_call choice = record {
  marshalled = true;
  sent = true;
  arrivals = [];
  context_done = false;
  choice = choice;
}

-- If the select takes a returned message, or the end of the context, while the confirmation is there,
-- the confirmation stays unread: the call reports the error, and the next call reports the old
-- confirmation as its own before anything arrives for it, whichever case its select would choose. If
-- the select takes the confirmation of a returned message first, the returned message is read with it,
-- and nothing is left.
pub publish_on-stale :
    (client : Client) (text : String) (acked : Bool) (choice : Case)
    → IsQuiet client
    → (((publish_on (returned_call client text takes_return) client).1 ≡ message_returned)
        × ((publish_on
              (silent_call choice)
              (publish_on (returned_call client text takes_return) client).0).1
            ≡ none))
      × (((publish_on (late_call client acked) client).1 ≡ context_ended)
          × ((publish_on (silent_call choice) (publish_on (late_call client acked) client).0).1
              ≡ (if acked then none else confirm_lost)))
      × (((publish_on (returned_call client text takes_confirmation) client).1 ≡ message_returned)
          × IsQuiet (publish_on (returned_call client text takes_confirmation) client).0)
unfolding publish_on
publish_on-stale client text acked choice q = (
  (ground (arith, q), ground (arith, q)),
  (ground (arith, q), ground (arith, q)),
  (ground (arith, q), (ground (arith, q), ground (arith, q), ground (arith, q))),
)
