-- ===== src/Destination.antt =====
-- internal/destination/config.go: the destinations and their registry. A URL is its text, and a nil
-- pointer to one is none.
pub mod Address
pub mod Parse
use rc_pangjiahui.Prelude.{
  ℕ, String, Bool, not, ◌||◌, ◌≡◌, ◌≢◌, refl, Option, none, some, is_some, List, [], ◌∷◌, ◌++◌,
  ◌=ₛ◌, eq_iff, if◌then◌else◌, any_where, find_where, All, arith,
}
use rc_pangjiahui.Notification.Model.{Duration, RetryPolicy, Header}

pub record Destination : Type 0 where
  pub id : String
  pub method : String
  pub url : Option String
  pub static_headers : Header
  pub secret_headers : List (String × String)
  pub timeout : Duration
  pub retry : RetryPolicy
  pub concurrency_limit : ℕ

-- The map of a registry, as the list of its destinations.
abbrev pub Registry : Type 0
Registry = List Destination

abbrev pub named : String → Destination → Bool
named id d = d.id =ₛ id

-- The loop of NewRegistry. No registry stands for an error.
unfoldable pub register : Registry → List Destination → Option Registry
register items [] = some items
register items (d ∷ ds) =
    let rest = register (items ++ d ∷ []) ds in
    if d.id =ₛ "" || not (is_some d.url)
    then none
    else if any_where (named d.id) items
    then none
    else rest

unfoldable pub new_registry : List Destination → Option Registry
unfolding register
new_registry ds = register [] ds

unfoldable pub get : Registry → String → Option Destination
get r id = find_where (named id) r
