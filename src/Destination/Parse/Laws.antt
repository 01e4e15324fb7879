-- ===== src/Destination/Parse/Laws.antt =====
-- What a destination that the configuration file gives is known to satisfy.
use rc_pangjiahui.Prelude.{
  ℕ, ◌≤◌, ◌≢◌, ◌||◌, eq_iff, is_some, select_where, String, Bool, true, false, not, ◌&&◌, ◌≡◌, ◌⊎◌,
  refl, subst, Option, none, some, List, [], ◌∷◌, ◌++◌, arith, ℤ, pos, pos_part, ◌≤ℤ◌, ◌<ℤ◌, ltb_ℤ,
  All, All-append, Bool-cases, Option-cases, inl, inr, any_where, ◌=ₛ◌,
}
use rc_pangjiahui.Prelude.DistinctRows.{DistinctBy, DistinctBy-append}
use rc_pangjiahui.Notification.Model.{Duration, Header}
use rc_pangjiahui.Prelude.RowLaws.{All-select_where}
use rc_pangjiahui.Text.{trim_space}
use rc_pangjiahui.Destination.Address.{Ip, disallowed_ip}
use rc_pangjiahui.Destination.{Destination, Registry, named}
use rc_pangjiahui.Destination.Parse.{
  RawDestination, Url, Parsers, has_newline, set, is_allowed_url, parse_static, parse_secrets,
  seconds, is_method, parse_bounded, parse_delays, in_range, is_nil, refuse_if, and_then,
  parse_destination, load_all, load,
}

-- The text of a URL of the file whose scheme is https, with a host that is no disallowed address, and
-- without user and fragment.
abbrev pub IsAllowedUrl : Parsers → Option String → Type 0
IsAllowedUrl parsers stored =
    (text : String) × (url : Url) × (parsers.parse_url text ≡ some url)
    × (stored ≡ some url.text)
    × (url.scheme ≡ "https")
    × (url.hostname ≢ "")
    × (url.has_user ≡ false)
    × (url.fragment ≡ "")
    × ((ip : Ip) → parsers.parse_ip url.hostname ≡ some ip → disallowed_ip ip ≡ false)

-- A header that is stored with its value: not Authorization, and no value has a line break.
abbrev pub IsSafeHeader : Parsers → String × List String → Type 0
IsSafeHeader parsers (name, values) =
    ((raw : String) × (name ≡ parsers.canonical raw)
      × (parsers.equal_fold raw "Authorization" ≡ false))
    × All (λ value. has_newline value ≡ false) values

-- A header whose value is in the environment, under a variable that is there.
abbrev pub IsSecretHeader : Parsers → String × String → Type 0
IsSecretHeader parsers (name, variable) =
    ((raw : String) × (name ≡ parsers.canonical raw) × (has_newline raw ≡ false))
    × (variable ≢ "")
    × (is_some (parsers.lookup_env variable) ≡ true)

-- What parseDestination asks of a destination.
pub record IsValid (parsers : Parsers) (d : Destination) : Type 0 where
  pub has_id : trim_space d.id ≢ ""
  pub url : IsAllowedUrl parsers d.url
  pub static_headers : All (IsSafeHeader parsers) d.static_headers
  pub secret_headers : All (IsSecretHeader parsers) d.secret_headers
  pub method : (d.method ≡ "POST") ⊎ (d.method ≡ "PUT") ⊎ (d.method ≡ "PATCH")
  pub timeout : (pos 0 <ℤ d.timeout) × (d.timeout ≤ℤ seconds 30)
  pub lifetime : (pos 0 <ℤ d.retry.lifetime) × (d.retry.lifetime ≤ℤ seconds 604800)
  pub attempts : (1 ≤ d.retry.max_attempts) × (d.retry.max_attempts ≤ 32)
  pub limit : (1 ≤ d.concurrency_limit) × (d.concurrency_limit ≤ 1000)
  pub delays : All (λ x. (pos 0 <ℤ x) × (x ≤ℤ d.retry.lifetime)) d.retry.delays
  pub has_delays : (d.retry.max_attempts ≤ 1) ⊎ (is_nil d.retry.delays ≡ false)

some_inj {ℓ} : {A : Type ℓ} {a b : A} → some a ≡ some b → a ≡ b
some_inj h = cc

unequal : (a b : String) → (a =ₛ b) ≡ false → a ≢ b
unequal a b h e = absurd (ground (arith, h, eq_iff a b, e))

equal : (a b : String) → (a =ₛ b) ≡ true → a ≡ b
equal a b h = (eq_iff a b).0 h

method_of : (m : String) → not (is_method m) ≡ false → (m ≡ "POST") ⊎ (m ≡ "PUT") ⊎ (m ≡ "PATCH")
method_of m h = elim (Bool-cases (m =ₛ "POST")) [
  | inl post ↦ inl (equal m "POST" post)
  | inr no_post ↦ elim (Bool-cases (m =ₛ "PUT")) [
    | inl put ↦ inr (inl (equal m "PUT" put))
    | inr no_put ↦ inr (inr (equal m "PATCH" (ground (arith, h, no_post, no_put))))
  ]
]

allowed_url :
    (parsers : Parsers) (text : String) (url : Url)
    → parsers.parse_url text ≡ some url
    → not (is_allowed_url parsers url) ≡ false
    → IsAllowedUrl parsers (some url.text)
allowed_url parsers text url parsed h = (
  text,
  url,
  parsed,
  refl,
  equal url.scheme "https" (ground (arith, h)),
  unequal url.hostname "" (ground (arith, h)),
  ground (arith, h),
  equal url.fragment "" (ground (arith, h)),
  λ ip found. ground (arith, h, found),
)

All-set {ℓ κ} :
    {A : Type ℓ} (P : String × A → Type κ) (name : String) (value : A) (entries : List (String × A))
    → P (name, value)
    → All P entries
    → All P (set name value entries)
All-set P name value entries h rest =
    All-append P (select_where (λ p. not (p.0 =ₛ name)) entries) ((name, value) ∷ [])
      (All-select_where P (λ p. not (p.0 =ₛ name)) entries rest) (h, tt)

parse_static-IsSafeHeader :
    (parsers : Parsers) (entries : List (String × String)) (headers result : Header)
    → All (IsSafeHeader parsers) headers
    → parse_static parsers entries headers ≡ some result
    → All (IsSafeHeader parsers) result
unfolding parse_static
parse_static-IsSafeHeader parsers [] headers result safe h =
    subst (All (IsSafeHeader parsers)) (some_inj h) safe
parse_static-IsSafeHeader parsers ((name, value) ∷ entries) headers result safe h =
    elim (Bool-cases (parsers.equal_fold name "Authorization" || has_newline value)) [
      | inl bad ↦ absurd (ground (arith, h, bad))
      | inr good ↦
          parse_static-IsSafeHeader parsers entries
            (set (parsers.canonical name) (value ∷ []) headers) result
            (All-set (IsSafeHeader parsers) (parsers.canonical name) (value ∷ []) headers
              ((name, refl, ground (arith, good)), (ground (arith, good), tt)) safe)
            (ground (arith, h, good))
    ]

parse_secrets-IsSecretHeader :
    (parsers : Parsers) (entries headers result : List (String × String))
    → All (IsSecretHeader parsers) headers
    → parse_secrets parsers entries headers ≡ some result
    → All (IsSecretHeader parsers) result
unfolding parse_secrets
parse_secrets-IsSecretHeader parsers [] headers result safe h =
    subst (All (IsSecretHeader parsers)) (some_inj h) safe
parse_secrets-IsSecretHeader parsers ((name, variable) ∷ entries) headers result safe h =
    elim (Bool-cases (variable =ₛ "" || has_newline name)) [
      | inl bad ↦ absurd (ground (arith, h, bad))
      | inr good ↦ elim (Bool-cases (is_some (parsers.lookup_env variable))) [
        | inr missing ↦ absurd (ground (arith, h, good, missing))
        | inl there ↦
            parse_secrets-IsSecretHeader parsers entries
              (set (parsers.canonical name) variable headers) result
              (All-set (IsSecretHeader parsers) (parsers.canonical name) variable headers
                (
                  (name, refl, ground (arith, good)),
                  unequal variable "" (ground (arith, good)),
                  there,
                )
                safe)
              (ground (arith, h, good, there))
      ]
    ]

parse_bounded-bounds :
    (parsers : Parsers) (limit : Duration) (value : String) (d : Duration)
    → parse_bounded parsers limit value ≡ some d
    → (pos 0 <ℤ d) × (d ≤ℤ limit)
parse_bounded-bounds parsers limit value d h = ground (arith, h)

parse_delays-bounds :
    (parsers : Parsers) (lifetime : Duration) (values : List String) (delays : List Duration)
    → parse_delays parsers lifetime values ≡ some delays
    → All (λ x. (pos 0 <ℤ x) × (x ≤ℤ lifetime)) delays
unfolding parse_delays
parse_delays-bounds parsers lifetime [] delays h =
    let same : [] ≡ delays = cc in subst (All (λ x. (pos 0 <ℤ x) × (x ≤ℤ lifetime))) same tt
parse_delays-bounds parsers lifetime (value ∷ values) delays h =
    elim (Option-cases (parse_bounded parsers lifetime value)) [
      | inl bad ↦ absurd (ground (arith, h, bad))
      | inr (x, good) ↦ elim (Option-cases (parse_delays parsers lifetime values)) [
        | inl bad ↦ absurd (ground (arith, h, good, bad))
        | inr (xs, rest) ↦
            let same : x ∷ xs ≡ delays = ground (arith, h, good, rest) in
            subst (All (λ y. (pos 0 <ℤ y) × (y ≤ℤ lifetime))) same (
              parse_bounded-bounds parsers lifetime value x good,
              parse_delays-bounds parsers lifetime values xs rest,
            )
      ]
    ]

refuse_if-some {ℓ} :
    {A : Type ℓ} (c : Bool) (rest : Option A) (a : A)
    → refuse_if c rest ≡ some a
    → (c ≡ false) × (rest ≡ some a)
unfolding refuse_if
refuse_if-some false rest a h = (refl, h)
refuse_if-some true rest a h = cc

and_then-some {ℓ κ} :
    {A : Type ℓ} {B : Type κ} (o : Option A) (f : A → Option B) (b : B)
    → and_then o f ≡ some b
    → (a : A) × (o ≡ some a) × (f a ≡ some b)
unfolding and_then
and_then-some none f b h = cc
and_then-some (some a) f b h = (a, refl, h)

in_range-bounds :
    (low high : ℕ) (n : ℤ) → in_range low high n ≡ true → (low ≤ pos_part n) × (pos_part n ≤ high)
in_range-bounds low high n h = (ground (arith, h), ground (arith, h))

of_not_both : (a b : Bool) → not (a && b) ≡ false → (a ≡ true) × (b ≡ true)
of_not_both a b h = ground arith

needs_delays :
    (attempts : ℤ) (none_given : Bool)
    → (ltb_ℤ (pos 1) attempts && none_given) ≡ false
    → (pos_part attempts ≤ 1) ⊎ (none_given ≡ false)
needs_delays attempts none_given h = ground arith

-- A destination that the configuration file gives is valid, and has the identifier that the file
-- gives it.
pub parse_destination-IsValid :
    (parsers : Parsers) (raw : RawDestination) (d : Destination)
    → parse_destination parsers raw ≡ some d
    → IsValid parsers d × (d.id ≡ raw.id)
unfolding parse_destination
parse_destination-IsValid parsers raw d h =
    let (named, h₁) = refuse_if-some _ _ d h in
    let (method, h₂) = refuse_if-some _ _ d h₁ in
    let (url, parsed, h₃) = and_then-some _ _ d h₂ in
    let (allowed, h₄) = refuse_if-some _ _ d h₃ in
    let (timeout, short, h₅) = and_then-some _ _ d h₄ in
    let (lifetime, lives, h₆) = and_then-some _ _ d h₅ in
    let (ranges, h₇) = refuse_if-some _ _ d h₆ in
    let (delays, waits, h₈) = and_then-some _ _ d h₇ in
    let (some_delays, h₉) = refuse_if-some _ _ d h₈ in
    let (headers, static, h₁₀) = and_then-some _ _ d h₉ in
    let (secrets, secret, made) = and_then-some _ _ d h₁₀ in
    let both =
      of_not_both (in_range 1 32 raw.max_attempts) (in_range 1 1000 raw.concurrency_limit) ranges in
    subst (λ x. IsValid parsers x × (x.id ≡ raw.id)) (some_inj made)
      (
        record {
          has_id = unequal (trim_space raw.id) "" named;
          url = allowed_url parsers raw.url url parsed allowed;
          static_headers =
              parse_static-IsSafeHeader parsers raw.static_headers [] headers tt static;
          secret_headers =
              parse_secrets-IsSecretHeader parsers raw.secret_headers [] secrets tt secret;
          method = method_of (parsers.to_upper raw.method) method;
          timeout = parse_bounded-bounds parsers (seconds 30) raw.timeout timeout short;
          lifetime = parse_bounded-bounds parsers (seconds 604800) raw.lifetime lifetime lives;
          attempts = in_range-bounds 1 32 raw.max_attempts both.0;
          limit = in_range-bounds 1 1000 raw.concurrency_limit both.1;
          delays = parse_delays-bounds parsers lifetime raw.retry_delays delays waits;
          has_delays = needs_delays raw.max_attempts (is_nil delays) some_delays;
        },
        refl,
      )

abbrev pub same_destination : Destination → Destination → Bool
same_destination a b = a.id =ₛ b.id

load_all-IsValid :
    (parsers : Parsers) (raws : List RawDestination) (items registry : Registry)
    → All (IsValid parsers) items
    → DistinctBy same_destination items
    → load_all parsers raws items ≡ some registry
    → All (IsValid parsers) registry × DistinctBy same_destination registry
unfolding load_all
load_all-IsValid parsers [] items registry valid distinct h =
    let same : items ≡ registry = some_inj h in
    (subst (All (IsValid parsers)) same valid, subst (DistinctBy same_destination) same distinct)
load_all-IsValid parsers (raw ∷ raws) items registry valid distinct h =
    elim (Bool-cases (any_where (named raw.id) items)) [
      | inl used ↦ absurd (ground (arith, h, used))
      | inr new ↦ elim (Option-cases (parse_destination parsers raw)) [
        | inl bad ↦ absurd (ground (arith, h, new, bad))
        | inr (d, good) ↦
            let (is_valid, same_id) = parse_destination-IsValid parsers raw d good in
            load_all-IsValid parsers raws (items ++ d ∷ []) registry
              (All-append (IsValid parsers) items (d ∷ []) valid (is_valid, tt))
              (DistinctBy-append same_destination items d (rw same_id new) distinct)
              (ground (arith, h, new, good))
      ]
    ]

-- Every destination of a loaded registry is what parseDestination asks for, and no two have the same
-- identifier: the URL is a parsed one with https, with a host that is no disallowed address, and
-- without user and fragment; no stored header is Authorization or has a line break in its value; each
-- secret header names a variable that is set; the method is POST, PUT or PATCH; and the timeout, the
-- lifetime, the attempts, the delays and the concurrency are within their limits.
pub load-IsValid :
    (parsers : Parsers) (raws : List RawDestination) (registry : Registry)
    → load parsers raws ≡ some registry
    → All (IsValid parsers) registry × DistinctBy same_destination registry
unfolding load
load-IsValid parsers raws registry h =
    load_all-IsValid parsers raws [] registry tt tt (ground (arith, h))
