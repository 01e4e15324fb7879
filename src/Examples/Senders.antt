-- ===== src/Examples/Senders.antt =====
-- Runs of the HTTP sender.
use rc_pangjiahui.Prelude.{
  ◌≤◌, ◌<ℤ◌, ◌+ℤ◌, ◌*◌, true, false, ◌≡◌, ◌↔◌, ◌=ₛ◌, refl, inl, none, some, List, [], ◌∷◌, pos, All,
  length, arith, any_where, find_where,
}
use rc_pangjiahui.Text.{trim_left, trim_right}
use rc_pangjiahui.Text.Utf8.{runes, encode, encode_rune, is_valid_utf8}
use rc_pangjiahui.Notification.Model.{Time, Bytes, Outcome, DeliverySnapshot}
use rc_pangjiahui.Notification.Retry.{next_attempt}
use rc_pangjiahui.Destination.Address.{Ip, disallowed_ip, validate_resolved_ips}
use rc_pangjiahui.Delivery.Sender.{
  parse_retry_after, add_secrets, outgoing, result_of_response, send,
}
use rc_pangjiahui.Delivery.Exchange.{
  Target, Response, Answer, Network, HttpSender, Outgoing, drops_request,
}
use rc_pangjiahui.Delivery.Reading.{sanitize, atoi, digits}
use rc_pangjiahui.Delivery.Sender.Diagnostics.{
  AreSpaced, IsAboveControls, sanitize_bounds, sanitize_whole,
}
use rc_pangjiahui.Delivery.Sender.RetryAfter.{retry_after_seconds, retry_after_overflow}
use rc_pangjiahui.Delivery.Sender.Contacts.{IsAllowed, send_contacts}
use rc_pangjiahui.Delivery.Sender.Requests.{
  IsSuccess, send_delivered_iff, send_request, moved, send_moved, response_message-malformed,
}
use rc_pangjiahui.Store.Delivery.{snapshot_of}
use rc_pangjiahui.Examples.{policy, waiting}

abbrev pub first : Target
first = record { scheme = "https"; hostname = "crm.example"; host = "crm.example" }

abbrev pub supplier_ips : List Ip
supplier_ips = Ip.v4 0x08080808 ∷ []

abbrev pub fine : Response
fine = record { status = 200; retry_after = ""; body = 0x6f ∷ 0x6b ∷ [] }

-- A supplier that moves the call within its host, and then answers.
abbrev pub network : Network
network = record {
  parse_url = λ s. some first;
  parse_ip = λ s. none;
  equal_fold = λ a b. a =ₛ b;
  canonical = λ s. s;
  lookup_env = λ s. some s;
  valid_request = λ method url. true;
  parse_time = λ s. none;
  as_text = λ bytes. "";
  now = pos 1000;
  exchange = λ out. moved supplier_ips drops_request first fine;
}

abbrev pub sender : HttpSender
sender = record { allow_private = false; limit = 1024 }

abbrev snapshot : DeliverySnapshot
snapshot = snapshot_of waiting

send_contacts_example :
    All (IsAllowed sender network.equal_fold first) (send sender network snapshot).contacts
    × (length (send sender network snapshot).contacts ≤ 3)
send_contacts_example = send_contacts sender network snapshot {target = first} refl

send_delivered_iff_example : ((send sender network snapshot).result.outcome ≡ Outcome.delivered) ↔ (
    (out : Outgoing) × (answer : Answer) × ((send sender network snapshot).request ≡ some out)
    × ((send sender network snapshot).answer ≡ some answer)
    × IsSuccess answer)
send_delivered_iff_example = send_delivered_iff sender network snapshot

abbrev request : Outgoing
request = outgoing network snapshot []

send_request_example :
    (request.method ≡ snapshot.method)
    × (request.body ≡ snapshot.body)
    × (find_where (λ p. p.0 =ₛ "Idempotency-Key") request.header
        ≡ some ("Idempotency-Key", snapshot.idempotency_key ∷ []))
unfolding send add_secrets
send_request_example = send_request sender network snapshot {out = request} refl

send_moved_example :
    ((send sender network snapshot).result.outcome ≡ Outcome.delivered)
    × ((send sender network snapshot).contacts
        ≡ (record {
          target = first;
          addresses = supplier_ips;
          method = snapshot.method;
          body = snapshot.body;
        })
          ∷ (record { target = first; addresses = supplier_ips; method = "GET"; body = [] })
          ∷ [])
unfolding add_secrets validate_resolved_ips any_where disallowed_ip
send_moved_example =
    send_moved sender network snapshot first first [] supplier_ips fine refl refl refl refl refl
      refl refl refl (omega arith) (omega arith)

-- An answer of the euro sign, which is cut after its first byte.
abbrev euro : Response
euro = record { status = 500; retry_after = ""; body = 0xe2 ∷ 0x82 ∷ 0xac ∷ [] }

abbrev narrow : HttpSender
narrow = record { allow_private = false; limit = 1 }

response_message-malformed_example :
    (message : Bytes) × ((result_of_response narrow network euro).error_message
      ≡ network.as_text message)
    × (is_valid_utf8 message ≡ false)
unfolding encode encode_rune
response_message-malformed_example =
    response_message-malformed narrow network euro (0x20ac ∷ []) refl
      ((omega arith, omega arith, inl (omega arith)), tt) (omega arith) (omega arith)

sanitize_bounds_example :
    (length (sanitize (0x0a ∷ 0x41 ∷ 0x42 ∷ []) 2) ≤ 2)
    × All IsAboveControls (sanitize (0x0a ∷ 0x41 ∷ 0x42 ∷ []) 2)
sanitize_bounds_example = sanitize_bounds (0x0a ∷ 0x41 ∷ 0x42 ∷ []) 2

sanitize_whole_example :
    AreSpaced (0x0a ∷ 0x20ac ∷ 0x09 ∷ []) (runes (sanitize (encode (0x0a ∷ 0x20ac ∷ 0x09 ∷ [])) 5))
    × (is_valid_utf8 (sanitize (encode (0x0a ∷ 0x20ac ∷ 0x09 ∷ [])) 5) ≡ true)
unfolding encode encode_rune
sanitize_whole_example =
    sanitize_whole (0x0a ∷ 0x20ac ∷ 0x09 ∷ []) 5
      (inl (omega arith), (inl (omega arith), (inl (omega arith), tt))) (omega arith)

retry_after_seconds_example :
    (parse_retry_after network "120" (pos 1000) ≡ some (pos 1000 +ℤ pos (120 * 1_000_000_000)))
    × (next_attempt policy 1 (parse_retry_after network "120" (pos 1000)) (pos 1000) none
        ≡ some (pos 1000 +ℤ pos (120 * 1_000_000_000)))
unfolding atoi digits trim_left trim_right
retry_after_seconds_example =
    retry_after_seconds network "120" (pos 1000) 120 policy 1 none refl (omega arith) (omega arith)
      (omega arith) (omega arith) (omega arith) (omega arith) (omega arith)

retry_after_overflow_example :
    ((at : Time) × (parse_retry_after network "9999999999" (pos 1000) ≡ some at) × (at <ℤ pos 1000))
    × (next_attempt policy 1 (parse_retry_after network "9999999999" (pos 1000)) (pos 1000) none
        ≡ next_attempt policy 1 none (pos 1000) none)
unfolding atoi digits trim_left trim_right
retry_after_overflow_example =
    retry_after_overflow network "9999999999" (pos 1000) 9999999999 policy 1 none refl (omega arith)
      (omega arith)
