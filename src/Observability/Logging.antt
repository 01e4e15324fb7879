-- ===== src/Observability/Logging.antt =====
-- internal/observability/logging.go: the redaction of attributes before they reach a handler. The
-- lower case of a key, which package strings makes, is a parameter.
use rc_pangjiahui.Prelude.{
  String, Bool, true, ◌||◌, ◌≡◌, refl, ap, List, [], ◌∷◌, is_some, arith, inl, inr, Bool-cases,
  any_where, if◌then◌else◌,
}
use rc_pangjiahui.Text.{after_prefix}

-- strings.Contains
unfoldable pub contains : String → String → Bool
contains String.[] fragment = is_some (after_prefix fragment String.[])
contains (String.◌∷◌ c s) fragment =
    is_some (after_prefix fragment (String.◌∷◌ c s)) || contains s fragment

abbrev pub fragments : List String
fragments = "authorization" ∷ "token" ∷ "secret" ∷ "password" ∷ "body" ∷ "payload" ∷ []

-- A value of slog: a group of attributes, a value that is computed by its LogValue method when a
-- handler asks for it, or any other, which is a text here.
mutual
  pub data Value : Type 0 where
    text : String → Value
    group : Attrs → Value
    log_valuer : Value → Value

  pub data Attr : Type 0 where
    attr : String → Value → Attr

  pub data Attrs : Type 0 where
    nil : Attrs
    cons : Attr → Attrs → Attrs

abbrev redacted : Value
redacted = text "[REDACTED]"

module _ (to_lower : String → String) where
  abbrev pub is_sensitive : String → Bool
  is_sensitive key = any_where (contains (to_lower key)) fragments

  unfoldable mutual
    -- redact: `redact_value` is what becomes of the value under a harmless key.
    pub redact : Attr → Attr
    redact (attr key value) =
        let rest = redact_value value in attr key (if is_sensitive key then redacted else rest)

    pub redact_value : Value → Value
    redact_value (text t) = text t
    redact_value (group children) = group (redact_all children)
    redact_value (log_valuer v) = log_valuer v

    pub redact_all : Attrs → Attrs
    redact_all nil = nil
    redact_all (cons a rest) = cons (redact a) (redact_all rest)

  -- No attribute at any depth of the groups keeps its value under a sensitive key.
  mutual
    pub IsSafe : Attr → Type 0
    IsSafe (attr key value) = (is_sensitive key ≡ true → value ≡ redacted) × IsSafeValue value

    pub IsSafeValue : Value → Type 0
    IsSafeValue (text t) = Unit
    IsSafeValue (group children) = AreSafe children
    IsSafeValue (log_valuer v) = Unit

    pub AreSafe : Attrs → Type 0
    AreSafe nil = Unit
    AreSafe (cons a rest) = IsSafe a × AreSafe rest

  mutual
    unfolding redact redact_value redact_all IsSafe IsSafeValue AreSafe

    safe : (a : Attr) → IsSafe (redact a)
    safe (attr key value) = elim (Bool-cases (is_sensitive key)) [
      | inl bad ↦ rw bad ((λ _. refl), tt)
      | inr good ↦ rw good ((λ q. absurd (ground (arith, q, good))), safe_value value)
    ]

    safe_value : (v : Value) → IsSafeValue (redact_value v)
    safe_value (text t) = tt
    safe_value (group children) = safe_all children
    safe_value (log_valuer v) = tt

    safe_all : (children : Attrs) → AreSafe (redact_all children)
    safe_all nil = tt
    safe_all (cons a rest) = (safe a, safe_all rest)

  -- An attribute that is safe already is left as it is.
  mutual
    unfolding redact redact_value redact_all IsSafe IsSafeValue AreSafe

    kept : (a : Attr) → IsSafe a → redact a ≡ a
    kept (attr key value) h = elim (Bool-cases (is_sensitive key)) [
      | inl bad ↦ rw (bad, h.0 bad) refl
      | inr good ↦ rw good (ap (attr key) (kept_value value h.1))
    ]

    kept_value : (v : Value) → IsSafeValue v → redact_value v ≡ v
    kept_value (text t) h = refl
    kept_value (group children) h = ap group (kept_all children h)
    kept_value (log_valuer v) h = refl

    kept_all : (children : Attrs) → AreSafe children → redact_all children ≡ children
    kept_all nil h = refl
    kept_all (cons a rest) h = cc (kept a h.0, kept_all rest h.1)

  -- After the redaction no attribute, at any depth of the groups, has a value under a key with one of
  -- the fragments; and an attribute of which that holds already is left as it is. What a LogValue
  -- method will return is not looked into.
  pub redact-IsSafe : (a : Attr) → IsSafe (redact a) × (IsSafe a → redact a ≡ a)
  redact-IsSafe a = (safe a, kept a)
