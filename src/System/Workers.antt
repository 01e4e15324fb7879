-- ===== src/System/Workers.antt =====
-- A handling of internal/delivery with its settlement is a run of steps, so other roles may come in
-- between.
use rc_pangjiahui.Prelude.{true, ◌≡◌, ◌+ℤ◌, [], ◌∷◌, arith, eq_iff, any_where}
use rc_pangjiahui.Prelude.RowLaws.{any_where-append}
use rc_pangjiahui.Store.Tables.{Db, Reply, answered}
use rc_pangjiahui.Store.Delivery.{claim_delivery}
use rc_pangjiahui.Delivery.Service.{
  Message, Disposition, ack, requeue, reject, Surroundings, Handled, attempt_of, handle,
}
use rc_pangjiahui.Delivery.Service.Attempt.{attempt_of-IsComplete}
use rc_pangjiahui.Delivery.Service.Cases.{deliver_cases, handle_cases}
use rc_pangjiahui.Delivery.Service.Effects.{claim-ok}
use rc_pangjiahui.Delivery.Service.Postgres as Worker
use rc_pangjiahui.System.{
  Mail, System, same_message, remove_first, note_claim, claim_task, apply_result, acknowledge,
  Reach, here, next,
}

-- What a disposition does to the queue: the broker keeps what is requeued.
abbrev pub settle_mail : Disposition → Message → Mail → Mail
settle_mail ack m mail = record mail { queue = remove_first m mail.queue }
settle_mail requeue m mail = mail
settle_mail reject m mail = record mail { queue = remove_first m mail.queue }

noted :
    (call : Reply) (m : Message) (mail : Mail)
    → call ≡ answered
    → any_where (same_message m) (note_claim call m mail).handled ≡ true
unfolding any_where
noted call m mail up = rw up (
    ground (
      arith,
      any_where-append (same_message m) mail.handled (m ∷ []),
      eq_iff m.event_id m.event_id,
      eq_iff m.notification_id m.notification_id,
    ))

-- The handling of a message of the queue, with the settlement that the loop of the worker makes of
-- its disposition, is a run of steps: a claim, at most one result, and the acknowledgement.
pub handle-Reach :
    (calls : Worker.Calls) (env : Surroundings) (m : Message) (s : System)
    → any_where (same_message m) s.mail.queue ≡ true
    → let (db, handled) = handle (Worker.repository calls) env m s.db in
      Reach s (record {
        db = db;
        mail = settle_mail handled.disposition m (note_claim calls.claim m s.mail);
      })
handle-Reach calls env m s there =
    let until = env.now +ℤ env.lease_ttl in
    let claimed = claim_delivery calls.claim calls.clock m.notification_id env.lease until s.db in
    let mail = note_claim calls.claim m s.mail in
    let t : System = record { db = claimed.0; mail = mail } in
    let first : Reach s t =
      next here (claim_task calls.claim calls.clock m env.lease until there) in
    let P = λ (x : Db × Handled).
      Reach s (record { db = x.0; mail = settle_mail x.1.disposition m mail }) in
    handle_cases calls env m P s.db (λ e _. first)
      (λ c e _. next first (
        acknowledge m (
          noted calls.claim m s.mail
            (claim-ok calls.claim calls.clock m.notification_id env.lease until s.db c e))))
      λ c e _.
        let attempt = attempt_of env c.task (env.send c.task.snapshot) in
        let second = next first (
          apply_result calls.apply m.notification_id env.lease attempt
            (attempt_of-IsComplete env c.task (env.send c.task.snapshot))) in
        deliver_cases calls env m P c.task claimed.0 first (λ x _. second)
          (λ done _. next second (
            acknowledge m (
              noted calls.claim m s.mail
                (claim-ok calls.claim calls.clock m.notification_id env.lease until s.db c e))))
