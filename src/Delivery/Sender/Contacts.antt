-- ===== src/Delivery/Sender/Contacts.antt =====
-- Which hosts a call of a supplier goes to.
use rc_pangjiahui.Prelude.{
  ◌+◌, ◌≤◌, ◌<◌, String, Bool, true, false, ◌≡◌, ◌=ₛ◌, refl, ◌⊎◌, inl, inr, some, none, ◌∙◌, sym,
  subst, List, [], ◌∷◌, ◌++◌, length, length-append, All, arith, Bool-cases, Option-cases,
}
use rc_pangjiahui.Notification.Model.{Bytes, DeliverySnapshot}
use rc_pangjiahui.Destination.Address.{validate_resolved_ips}
use rc_pangjiahui.Delivery.Sender.Cases.{send_cases}
use rc_pangjiahui.Delivery.Sender.{is_refused_url, outgoing, exchanged, send}
use rc_pangjiahui.Delivery.Exchange.{
  HttpSender, Network, Target, Contact, Hop, Resolution, unresolved, resolved, HopReply, Response,
  Redirection, redirect, broken, response, dial, addresses_of, check_redirect, redirected_method,
  redirected_body, follow,
}

-- A contact with a host that the sender may call: the scheme of the snapshot's target is https, all
-- addresses of the host are public, and the host is the target or has its scheme and host.
abbrev pub IsAllowed : HttpSender → (String → String → Bool) → Target → Contact → Type 0
IsAllowed sender fold first c =
    ((sender.allow_private ≡ true)
      ⊎ (((first.scheme =ₛ "https") ≡ true) × (validate_resolved_ips c.addresses ≡ true)))
    × ((c.target ≡ first)
        ⊎ ((fold c.target.scheme first.scheme ≡ true) × (fold c.target.host first.host ≡ true)))

dial-allows :
    (sender : HttpSender) (r : Resolution)
    → dial sender r ≡ none
    → (sender.allow_private ≡ true) ⊎ (validate_resolved_ips (addresses_of r) ≡ true)
unfolding dial
dial-allows sender (unresolved text) h = absurd (ground (arith, h))
dial-allows sender (resolved ips) h = ground (arith, h)

-- The first of the requests before and the present one.
abbrev first_of : List Target → Target → Target
first_of [] target = target
first_of (x ∷ via) target = x

first_of-append :
    (via : List Target) (target next : Target)
    → first_of (via ++ target ∷ []) next ≡ first_of via target
first_of-append [] target next = refl
first_of-append (x ∷ via) target next = refl

check_redirect-same :
    (fold : String → String → Bool) (next target : Target) (via : List Target)
    → check_redirect fold next (via ++ target ∷ []) ≡ true
    → (fold next.scheme (first_of via target).scheme ≡ true)
      × (fold next.host (first_of via target).host ≡ true)
      × (length via < 2)
unfolding check_redirect
check_redirect-same fold next target [] h = ground (arith, h)
check_redirect-same fold next target (x ∷ via) h =
    ground (arith, h, length-append via (target ∷ []))

HopReply-cases :
    (reply : HopReply)
    → ((text : Bytes) × (reply ≡ broken text))
      ⊎ ((r : Response) × (reply ≡ response r))
      ⊎ ((kind : Redirection) × (next : Target) × (reply ≡ redirect kind next))
HopReply-cases (broken text) = inl (text, refl)
HopReply-cases (response r) = inr (inl (r, refl))
HopReply-cases (redirect kind next) = inr (inr (kind, next, refl))

allowed_address : {A B C : Type 0} → A ⊎ B → A ⊎ C → A ⊎ (B × C)
allowed_address (inl a) y = inl a
allowed_address (inr b) (inl a) = inl a
allowed_address (inr b) (inr c) = inr (b, c)

module _ (sender : HttpSender) (fold : String → String → Bool) (first : Target) where
  follow-contacts :
      (hops : List Hop) (via : List Target) (target : Target) (method : String) (body : Bytes)
      → first_of via target ≡ first
      → (sender.allow_private ≡ true) ⊎ ((first.scheme =ₛ "https") ≡ true)
      → (target ≡ first)
        ⊎ ((fold target.scheme first.scheme ≡ true) × (fold target.host first.host ≡ true))
      → length via < 3
      → All (IsAllowed sender fold first) (follow sender fold via target method body hops).1
        × (length via + length (follow sender fold via target method body hops).1 ≤ 3)
  unfolding follow
  follow-contacts [] via target method body start secure allowed short = (tt, omega arith)
  follow-contacts (hop ∷ hops) via target method body start secure allowed short =
      elim (Option-cases (dial sender hop.resolution)) [
        | inr (answer, refused) ↦ rw (refused, follow) (tt, omega arith)
        | inl free ↦
            let here : IsAllowed sender fold first (record {
              target = target;
              addresses = addresses_of hop.resolution;
              method = method;
              body = body;
            }) =
              (allowed_address secure (dial-allows sender hop.resolution free), allowed) in
            elim (HopReply-cases hop.reply) [
              | inl (text, e) ↦ rw (free, e, follow) ((here, tt), omega arith)
              | inr (inl (r, e)) ↦ rw (free, e, follow) ((here, tt), omega arith)
              | inr (inr (kind, next, e)) ↦
                  elim (Bool-cases (check_redirect fold next (via ++ target ∷ []))) [
                    | inr refused ↦ rw (free, e, follow, refused) ((here, tt), omega arith)
                    | inl same ↦
                        let (scheme, host, few) = check_redirect-same fold next target via same in
                        let longer = length-append via (target ∷ []) in
                        let rest =
                          follow-contacts hops (via ++ target ∷ []) next
                            (redirected_method kind method) (redirected_body kind body)
                            (first_of-append via target next ∙ start) secure
                            (inr (
                              subst (λ x. fold next.scheme x.scheme ≡ true) start scheme,
                              subst (λ x. fold next.host x.host ≡ true) start host,
                            ))
                            (omega (arith, longer, few)) in
                        rw (free, e, follow, same) ((here, rest.0), omega (arith, longer, rest.1))
                  ]
            ]
      ]

is_secure :
    (sender : HttpSender) (net : Network) (target : Target)
    → is_refused_url sender net target ≡ false
    → (sender.allow_private ≡ true) ⊎ ((target.scheme =ₛ "https") ≡ true)
is_secure sender net target h = elim (Bool-cases (target.scheme =ₛ "https")) [
  | inl s ↦ inr s
  | inr s ↦ inl (ground (arith, h, s))
]

-- A call makes at most three contacts. Unless the sender is set up for development, the scheme is
-- https and each contact is with a host all of whose addresses are public; and each is with the
-- target of the snapshot or with its scheme and host.
pub send_contacts :
    (sender : HttpSender) (net : Network) (snapshot : DeliverySnapshot) {target : Target}
    → net.parse_url snapshot.url ≡ some target
    → All (IsAllowed sender net.equal_fold target) (send sender net snapshot).contacts
      × (length (send sender net snapshot).contacts ≤ 3)
send_contacts sender net snapshot {target} parsed =
    send_cases sender net snapshot
      (λ s. All (IsAllowed sender net.equal_fold target) s.contacts × (length s.contacts ≤ 3))
      (λ c. (tt, omega arith))
      λ other header parsed' good complete.
        let same : other ≡ target = ground (arith, parsed, parsed') in
        let request = outgoing net snapshot header in
        subst
          (λ t.
            All (IsAllowed sender net.equal_fold target) (exchanged sender net t request).contacts
            × (length (exchanged sender net t request).contacts ≤ 3))
          (sym same)
          (let found =
              follow-contacts sender net.equal_fold target (net.exchange request) [] target
                request.method request.body refl
                (is_secure sender net target
                  (subst (λ t. is_refused_url sender net t ≡ false) same good))
                (inl refl) (omega arith) in
            (found.0, omega (arith, found.1)))
