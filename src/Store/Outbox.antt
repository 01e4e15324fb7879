-- ===== src/Store/Outbox.antt =====
-- The outbox of internal/store/postgres/outbox.go: claims of events, and their publication.
use rc_pangjiahui.Prelude.{
  ℕ, ◌+◌, String, Bool, true, not, ◌&&◌, ◌||◌, Option, none, some, List, map, ◌==◌, ◌=ₛ◌, is_some,
  take, ltb_ℤ, update_where, count_where, select_where, any_where, order_by,
}
use rc_pangjiahui.Notification.Model.{Time, OutboxEvent}
use rc_pangjiahui.Store.Tables.{EventRow, Db, Fallible, Reply, reply, event_has_id}
use rc_pangjiahui.Store.Delivery.{has_token}
use rc_pangjiahui.Store.Query.{coalesce}

-- What a query with ORDER BY and SKIP LOCKED reads of the server: the order of texts, and the rows
-- that other transactions have locked.
pub record Engine : Type 0 where
  pub text_before : String → String → Bool
  pub locked : String → Bool

-- `c IS NULL OR c < now`
abbrev pub is_free : Option Time → Time → Bool
is_free none now = true
is_free (some until) now = ltb_ℤ until now

abbrev pub is_unpublished : EventRow → Bool
is_unpublished e = not (is_some e.published_at)

-- The WHERE of the candidates.
abbrev pub is_claimable : Time → EventRow → Bool
is_claimable now e = is_unpublished e && is_free e.claim_until now

-- ORDER BY created_at, id
abbrev pub event_before : Engine → EventRow → EventRow → Bool
event_before engine a b =
    ltb_ℤ a.created_at b.created_at
    || (not (ltb_ℤ b.created_at a.created_at) && engine.text_before a.id b.id)

unfoldable pub outbox_candidates : Engine → Time → ℕ → List EventRow → List EventRow
outbox_candidates engine now limit events = take limit (
    order_by (event_before engine)
      (select_where (λ e. is_claimable now e && not (engine.locked e.id)) events))

-- The row that the UPDATE of ClaimOutbox writes.
abbrev pub claim_event_row : String → Time → EventRow → EventRow
claim_event_row token until e = record e {
  claim_token = some token;
  claim_until = some until;
  publish_attempts = e.publish_attempts + 1;
}

-- The event that ClaimOutbox scans from a row.
abbrev pub event_of : EventRow → OutboxEvent
event_of e = record {
  id = e.id;
  aggregate_id = e.aggregate_id;
  generation = e.generation;
  event_type = e.event_type;
  payload = e.payload;
  created_at = e.created_at;
  published_at = e.published_at;
  claim_token = coalesce e.claim_token "";
  claim_until = e.claim_until;
  publish_attempts = e.publish_attempts;
}

-- e.id = candidates.id for some candidate
abbrev pub is_candidate : List EventRow → EventRow → Bool
is_candidate candidates e = any_where (event_has_id e.id) candidates

unfoldable pub claim_outbox :
    Reply → Engine → Time → ℕ → String → Time → Db → Db × Fallible (List OutboxEvent)
unfolding outbox_candidates
claim_outbox call engine now limit token until db =
    let candidates = outbox_candidates engine now limit db.events in
    reply call "claim outbox" db (
      record db {
        events = update_where (is_candidate candidates) (claim_event_row token until) db.events;
      },
      map (λ e. event_of (claim_event_row token until e))
          (select_where (is_candidate candidates) db.events),
    )

-- The row that the UPDATE of MarkPublished writes.
abbrev pub published_row : Time → EventRow → EventRow
published_row at e = record e { published_at = some at; claim_token = none; claim_until = none }

abbrev pub is_held : String → String → EventRow → Bool
is_held id token e = e.id =ₛ id && has_token e.claim_token token && is_unpublished e

unfoldable pub mark_published : Reply → String → String → Time → Db → Db × Fallible Bool
mark_published call id token at db = reply call "mark outbox published" db (
  record db { events = update_where (is_held id token) (published_row at) db.events },
  count_where (is_held id token) db.events == 1,
)
