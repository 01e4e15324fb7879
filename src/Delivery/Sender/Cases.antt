-- ===== src/Delivery/Sender/Cases.antt =====
-- The paths through Send of internal/delivery/http_sender.go.
use rc_pangjiahui.Prelude.{String, false, ◌≡◌, some, inl, inr, Bool-cases, Option-cases}
use rc_pangjiahui.Notification.Model.{Header, DeliverySnapshot}
use rc_pangjiahui.Delivery.Sender.{
  Sent, unsent, add_secrets, is_refused_url, outgoing, exchanged, send,
}
use rc_pangjiahui.Delivery.Exchange.{HttpSender, Network, Target}

-- Either nothing is sent, or a request goes out to a target that is not refused.
pub send_cases {ℓ} :
    (sender : HttpSender) (net : Network) (snapshot : DeliverySnapshot) (P : Sent → Type ℓ)
    → ((error_code : String) → P (unsent error_code))
    → ((target : Target) (header : Header)
        → net.parse_url snapshot.url ≡ some target
        → is_refused_url sender net target ≡ false
        → add_secrets net snapshot.secret_headers snapshot.static_headers ≡ some header
        → P (exchanged sender net target (outgoing net snapshot header)))
    → P (send sender net snapshot)
unfolding send
send_cases sender net snapshot P refused sent = elim (Option-cases (net.parse_url snapshot.url)) [
  | inl failed ↦ rw (failed, send) (refused "destination_not_allowed")
  | inr (target, parsed) ↦ elim (Bool-cases (is_refused_url sender net target)) [
    | inl bad ↦ rw (parsed, send, bad) (refused "destination_not_allowed")
    | inr good ↦ elim (Bool-cases (net.valid_request snapshot.method snapshot.url)) [
      | inr bad ↦ rw (parsed, send, good, bad) (refused "invalid_request")
      | inl valid ↦
          elim (Option-cases (add_secrets net snapshot.secret_headers snapshot.static_headers)) [
            | inl missing ↦ rw (parsed, send, good, valid, missing) (refused "missing_secret")
            | inr (header, complete) ↦
                rw (parsed, send, good, valid, complete) (sent target header parsed good complete)
          ]
    ]
  ]
]
