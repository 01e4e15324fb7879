-- ===== src/Delivery/Service/Postgres.antt =====
-- internal/delivery/service.go over the store of internal/store/postgres.
use rc_pangjiahui.Notification.Model.{Time}
use rc_pangjiahui.Store.Tables.{Db, Reply}
use rc_pangjiahui.Store.Delivery.{claim_delivery, apply_delivery_result}
use rc_pangjiahui.Delivery.Service.{Repository}

-- What the server makes of the two calls, and its clock.
pub record Calls : Type 0 where
  pub claim : Reply
  pub clock : Time
  pub apply : Reply

abbrev pub repository : Calls → Repository Db
repository calls = record {
  claim_delivery = λ id lease until db. claim_delivery calls.claim calls.clock id lease until db;
  apply_delivery_result =
      λ id lease result db. apply_delivery_result calls.apply id lease result db;
}
