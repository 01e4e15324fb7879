-- ===== src/Delivery/Worker.antt =====
-- internal/delivery/service.go with the sender of internal/delivery/http_sender.go, as
-- internal/app/bootstrap.go puts them together: what a delivery that the worker counts has made of the
-- stored request.
use rc_pangjiahui.Prelude.{
  Bool, true, false, ◌≡◌, ◌=ₛ◌, refl, eq_iff, ◌+ℤ◌, none, some, [], ◌∷◌, arith, find_where, subst,
  if◌then◌else◌,
}
use rc_pangjiahui.Notification.Model.{Outcome, retryable, permanent, Task, DeliverySnapshot}
use rc_pangjiahui.Store.Tables.{TaskRow, Db}
use rc_pangjiahui.Store.Delivery.{is_pending, snapshot_of, claim_delivery}
use rc_pangjiahui.Delivery.Service.{Message, Surroundings, Handled, outcome_label, handle}
use rc_pangjiahui.Delivery.Service.Attempt.{attempt_of-delivered}
use rc_pangjiahui.Delivery.Service.Cases.{deliver_cases, handle_cases}
use rc_pangjiahui.Delivery.Service.Effects.{claim-acquired}
use rc_pangjiahui.Delivery.Service.Postgres.{Calls, repository}
use rc_pangjiahui.Delivery.Sender.{send}
use rc_pangjiahui.Delivery.Exchange.{HttpSender, Network, Answer, Outgoing}
use rc_pangjiahui.Delivery.Sender.Requests.{IsSuccess, send_delivered_iff, send_request}

-- The worker's surroundings with the sender as its supplier.
abbrev pub through : HttpSender → Network → Surroundings → Surroundings
through sender net env = record env { send = λ snapshot. (send sender net snapshot).result }

-- The stored request went out, with its key, and the last answer is of the 2xx class.
abbrev pub IsPosted : HttpSender → Network → DeliverySnapshot → Type 0
IsPosted sender net snapshot =
    (out : Outgoing) × (answer : Answer) × ((send sender net snapshot).request ≡ some out)
    × (out.method ≡ snapshot.method)
    × (out.body ≡ snapshot.body)
    × (find_where (λ p. p.0 =ₛ net.canonical "Idempotency-Key") out.header
        ≡ some (net.canonical "Idempotency-Key", snapshot.idempotency_key ∷ []))
    × ((send sender net snapshot).answer ≡ some answer)
    × IsSuccess answer

delivered-IsPosted :
    (sender : HttpSender) (net : Network) (snapshot : DeliverySnapshot)
    → (send sender net snapshot).result.outcome ≡ Outcome.delivered
    → IsPosted sender net snapshot
delivered-IsPosted sender net snapshot h =
    let (out, answer, went, came, success) = (send_delivered_iff sender net snapshot).0 h in
    let (method, body, key) = send_request sender net snapshot {out = out} went in
    (out, answer, went, method, body, key, came, success)

counted-delivered :
    (done : Bool) (outcome : Outcome)
    → (if done then some (outcome_label outcome) else none) ≡ some "delivered"
    → outcome ≡ Outcome.delivered
counted-delivered true Outcome.delivered h = refl
counted-delivered true retryable h = absurd (ground (arith, h, eq_iff "retryable" "delivered"))
counted-delivered true permanent h = absurd (ground (arith, h, eq_iff "dead" "delivered"))
counted-delivered false outcome h = absurd (ground (arith, h))

-- If the worker counts a delivery, whatever the server, the limiter and the network answer, then a
-- task was pending under the message's identifier, and its stored request went out with its method,
-- its body and its idempotency key, and had an answer of the 2xx class in the end.
pub handle_posts :
    (calls : Calls) (sender : HttpSender) (net : Network) (env : Surroundings) (message : Message)
    (db : Db)
    → (handle (repository calls) (through sender net env) message db).1.observed ≡ some "delivered"
    → (r : TaskRow) × (find_where (is_pending message.notification_id) db.tasks ≡ some r)
      × IsPosted sender net (snapshot_of r)
handle_posts calls sender net env message db =
    let id = message.notification_id in
    let until = env.now +ℤ env.lease_ttl in
    let Goal =
      (r : TaskRow) × (find_where (is_pending id) db.tasks ≡ some r)
      × IsPosted sender net (snapshot_of r) in
    let P = λ (t : Db × Handled). t.1.observed ≡ some "delivered" → Goal in
    handle_cases calls (through sender net env) message P db (λ e _ q. absurd (ground (arith, q)))
      (λ c _ _ q. absurd (ground (arith, q)))
      λ c e got.
        let (r, found, task, up) =
          claim-acquired calls.claim calls.clock id env.lease until db c e got in
        deliver_cases calls (through sender net env) message P c.task
          (claim_delivery calls.claim calls.clock id env.lease until db).0
          (λ q. absurd (ground (arith, q))) (λ x _ q. absurd (ground (arith, q)))
          λ done _ q.
            let outcome = counted-delivered done _ q in
            let sent =
              attempt_of-delivered (through sender net env) c.task
                (send sender net c.task.snapshot).result outcome in
            (
              r,
              found,
              subst (λ (t : Task). IsPosted sender net t.snapshot) task
                  (delivered-IsPosted sender net c.task.snapshot sent),
            )
