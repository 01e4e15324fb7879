-- ===== src/Config/Laws.antt =====
-- What a configuration that is loaded is known to hold.
use rc_pangjiahui.Prelude.{
  String, false, not, ◌&&◌, ◌≡◌, ◌≢◌, refl, sym, subst, Option, some, List, [], ◌∷◌, ◌⊎◌, ◌=ₛ◌,
  eq_iff, arith, All, All-append, Bool-cases, Option-cases, inl, inr, ◌↔◌,
}
use rc_pangjiahui.Prelude.RowLaws.{All-select_where}
use rc_pangjiahui.Text.{trim_space, split, cut}
use rc_pangjiahui.Config.{
  Role, text_of, parse_role, Tokens, assign, parse_entries, parse_tokens, is_empty, Runtime,
  needs_broker, needs_destinations, needs_tokens, get_env, or_default, load_runtime,
}

text_of-parses : (r : Role) → parse_role (text_of r) ≡ some r
unfolding parse_role
text_of-parses Role.api = refl
text_of-parses Role.publisher = refl
text_of-parses Role.worker = refl
text_of-parses Role.scheduler = refl
text_of-parses Role.all = refl

-- The texts that are read as a role are exactly its text.
pub parse_role_iff : (value : String) (r : Role) → (parse_role value ≡ some r) ↔ (value ≡ text_of r)
unfolding parse_role
parse_role_iff value r = (
  λ h. ground (
    arith,
    h,
    eq_iff value "api",
    eq_iff value "publisher",
    eq_iff value "worker",
    eq_iff value "scheduler",
    eq_iff value "all",
  ),
  λ h. subst (λ v. parse_role v ≡ some r) (sym h) (text_of-parses r),
)

-- A token and an identity, both not empty.
abbrev pub IsEntry : String × String → Type 0
IsEntry p = (p.0 ≢ "") × (p.1 ≢ "")

assigned :
    (token identity : String) (tokens : Tokens)
    → IsEntry (token, identity)
    → All IsEntry tokens
    → All IsEntry (assign token identity tokens)
assigned token identity tokens entry h =
    All-append IsEntry _ ((token, identity) ∷ [])
      (All-select_where IsEntry (λ (p : String × String). not (p.0 =ₛ token)) tokens h) (entry, tt)

parse_entries-entries :
    (entries : List String) (result : Tokens)
    → All IsEntry result
    → All IsEntry (parse_entries entries result)
unfolding parse_entries
parse_entries-entries [] result h = h
parse_entries-entries (entry ∷ entries) result h =
    elim (Option-cases (cut 0x3a (trim_space entry))) [
      | inl missing ↦ rw (missing, parse_entries) (parse_entries-entries entries result h)
      | inr (p, found) ↦
          rw (found, parse_entries)
            (elim (Bool-cases (not (p.0 =ₛ "") && not (p.1 =ₛ ""))) [
              | inl both ↦ rw both (
                  parse_entries-entries entries (assign p.0 p.1 result) (
                    assigned p.0 p.1 result
                      (
                        λ e. ground (arith, both, eq_iff p.0 "", e),
                        λ e. ground (arith, both, eq_iff p.1 "", e),
                      )
                      h))
              | inr other ↦ rw other (parse_entries-entries entries result h)
            ])
    ]

filled : (t u : Tokens) → t ≡ u → is_empty u ≡ false → t ≢ []
filled [] u e h f = ground (arith, sym e, h)
filled (p ∷ t) u e h f = cc

defaulted : (s value default : String) → s ≡ or_default value default → default ≢ "" → s ≢ ""
defaulted s value default same filled e = elim (Bool-cases (value =ₛ "")) [
  | inl empty ↦ filled (ground (arith, same, e, empty))
  | inr other ↦ ground (arith, same, e, other, eq_iff value "")
]

token_entries : (t : Tokens) (value : String) → (t ≡ parse_tokens value) ⊎ (t ≡ []) → All IsEntry t
unfolding parse_tokens
token_entries t value (inl e) =
    subst (All IsEntry) (sym e) (parse_entries-entries (split 0x2c value) [] tt)
token_entries t value (inr e) = subst (All IsEntry) (sym e) tt

-- A process that starts has what its role needs: a database, a broker to publish or to consume, the
-- destinations to accept or to deliver, tokens to serve requests, and an address to listen on.
-- Neither a token nor an identity is empty.
pub load_runtime_complete :
    (role : Role) (lookup : String → Option String) (config : Runtime)
    → load_runtime role lookup ≡ some config
    → (config.role ≡ role)
      × (config.database_url ≢ "")
      × ((needs_broker role ≡ false) ⊎ (config.rabbitmq_url ≢ ""))
      × ((needs_destinations role ≡ false) ⊎ (config.destinations_file ≢ ""))
      × (((config.http_addr ≢ "") × (config.caller_tokens ≢ []) × (config.admin_tokens ≢ []))
          ⊎ ((needs_tokens role ≡ false) × (config.metrics_addr ≢ "")))
      × All IsEntry config.caller_tokens
      × All IsEntry config.admin_tokens
unfolding load_runtime
load_runtime_complete role lookup config h =
    let database = get_env lookup "DATABASE_URL" in
    let broker = get_env lookup "RABBITMQ_URL" in
    let destinations = get_env lookup "DESTINATIONS_FILE" in
    let callers = parse_tokens (get_env lookup "CALLER_TOKENS") in
    let admins = parse_tokens (get_env lookup "ADMIN_TOKENS") in
    (
      ground (arith, h),
      λ e. ground (arith, h, e, eq_iff database ""),
      elim (Bool-cases (needs_broker role)) [
        | inl need ↦ inr (λ e. ground (arith, h, need, e, eq_iff broker ""))
        | inr free ↦ inl free
      ],
      elim (Bool-cases (needs_destinations role)) [
        | inl need ↦ inr (λ e. ground (arith, h, need, e, eq_iff destinations ""))
        | inr free ↦ inl free
      ],
      elim (Bool-cases (needs_tokens role)) [
        | inl need ↦ inl (
          defaulted config.http_addr (get_env lookup "HTTP_ADDR") ":8080" (ground (arith, h, need))
              (λ e. ground (arith, (eq_iff ":8080" "").1 e)),
          filled config.caller_tokens callers (ground (arith, h, need)) (ground (arith, h, need)),
          filled config.admin_tokens admins (ground (arith, h, need)) (ground (arith, h, need)),
        )
        | inr free ↦ inr (
          free,
          defaulted config.metrics_addr (get_env lookup "METRICS_ADDR") ":9090"
              (ground (arith, h, free)) (λ e. ground (arith, (eq_iff ":9090" "").1 e)),
        )
      ],
      token_entries config.caller_tokens (get_env lookup "CALLER_TOKENS")
          (elim (Bool-cases (needs_tokens role)) [
            | inl need ↦ inl (ground (arith, h, need))
            | inr free ↦ inr (ground (arith, h, free))
          ]),
      token_entries config.admin_tokens (get_env lookup "ADMIN_TOKENS")
          (elim (Bool-cases (needs_tokens role)) [
            | inl need ↦ inl (ground (arith, h, need))
            | inr free ↦ inr (ground (arith, h, free))
          ]),
    )
