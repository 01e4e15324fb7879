-- ===== src/Prelude/RowLaws.antt =====
-- What the statements over a table do to tests and predicates on its rows.
use mathlib.Core.Path.{◌≡◌, refl, subst}
use mathlib.Core.Bool.{Bool, true, false, ◌||◌}
use mathlib.Core.Option.{none, some}
use mathlib.Core.Logic.{◌⊎◌, inl, inr}
use mathlib.Core.List.{List, [], ◌∷◌, ◌++◌}
use native.Mathlib.Omega.{arith}
use rc_pangjiahui.Prelude.Tests.{if◌then◌else◌, Bool-cases}
use rc_pangjiahui.Prelude.Lists.{All, All-always}
use rc_pangjiahui.Prelude.Rows.{
  update_where, count_where, find_where, select_where, any_where, insert_by, order_by,
}

module _ {ℓ κ} {A : Type ℓ} (P : A → Type κ) where
  -- A predicate that the new rows satisfy is kept.
  pub All-update_where :
      (p : A → Bool) (f : A → A)
      → ((r : A) → p r ≡ true → P r → P (f r))
      → (rs : List A) → All P rs
      → All P (update_where p f rs)
  unfolding update_where
  All-update_where p f keep [] h = tt
  All-update_where p f keep (r ∷ rs) h = elim (Bool-cases (p r)) [
    | inl e ↦ (rw e (keep r e h.0), All-update_where p f keep rs h.1)
    | inr e ↦ (rw e h.0, All-update_where p f keep rs h.1)
  ]

  pub All-select_where : (p : A → Bool) (rs : List A) → All P rs → All P (select_where p rs)
  unfolding select_where
  All-select_where p [] h = tt
  All-select_where p (r ∷ rs) h = elim (Bool-cases (p r)) [
    | inl e ↦ rw e (h.0, All-select_where p rs h.1)
    | inr e ↦ rw e (All-select_where p rs h.1)
  ]

  pub All-insert_by :
      (before : A → A → Bool) (x : A) (rs : List A) → P x → All P rs → All P (insert_by before x rs)
  unfolding insert_by
  All-insert_by before x [] hx h = (hx, tt)
  All-insert_by before x (r ∷ rs) hx h = elim (Bool-cases (before r x)) [
    | inl e ↦ rw e (h.0, All-insert_by before x rs hx h.1)
    | inr e ↦ rw e (hx, h)
  ]

  pub All-order_by : (before : A → A → Bool) (rs : List A) → All P rs → All P (order_by before rs)
  unfolding order_by
  All-order_by before [] h = tt
  All-order_by before (r ∷ rs) h =
      All-insert_by before r (order_by before rs) h.0 (All-order_by before rs h.1)

  -- What holds of all rows holds of the row that a query finds.
  pub All-find_where :
      (p : A → Bool) (rs : List A) {r : A}
      → find_where p rs ≡ some r
      → All P rs
      → P r × (p r ≡ true)
  unfolding find_where
  All-find_where p [] e h = cc
  All-find_where p (x ∷ rs) {r} e h = elim (Bool-cases (p x)) [
    | inl q ↦
        let same : some x ≡ some r =
          subst (λ b. (if b then some x else find_where p rs) ≡ some r) q e in
        ground (arith, same, q, h.0)
    | inr q ↦
        All-find_where p rs (subst (λ b. (if b then some x else find_where p rs) ≡ some r) q e) h.1
  ]

-- The changed rows satisfy a predicate for one reason and the others for another.
pub All-update_into {ℓ κ μ} :
    {A : Type ℓ} (P : A → Type κ) (Q : A → Type μ) (p : A → Bool) (f : A → A)
    → ((r : A) → p r ≡ true → P r → Q (f r))
    → ((r : A) → p r ≡ false → P r → Q r)
    → (rs : List A) → All P rs
    → All Q (update_where p f rs)
unfolding update_where
All-update_into P Q p f changed kept [] h = tt
All-update_into P Q p f changed kept (r ∷ rs) h = elim (Bool-cases (p r)) [
  | inl e ↦ (rw e (changed r e h.0), All-update_into P Q p f changed kept rs h.1)
  | inr e ↦ (rw e (kept r e h.0), All-update_into P Q p f changed kept rs h.1)
]

-- The selected rows pass the test of the selection.
pub All-select_into {ℓ κ μ} :
    {A : Type ℓ} (P : A → Type κ) (Q : A → Type μ) (p : A → Bool)
    → ((r : A) → p r ≡ true → P r → Q r)
    → (rs : List A) → All P rs
    → All Q (select_where p rs)
unfolding select_where
All-select_into P Q p keep [] h = tt
All-select_into P Q p keep (r ∷ rs) h = elim (Bool-cases (p r)) [
  | inl e ↦ rw e (keep r e h.0, All-select_into P Q p keep rs h.1)
  | inr e ↦ rw e (All-select_into P Q p keep rs h.1)
]

module _ {ℓ} {A : Type ℓ} where
  -- A test that the new rows pass as the old ones did finds the same.
  pub any_where-update_where :
      (q p : A → Bool) (f : A → A)
      → ((r : A) → p r ≡ true → q (f r) ≡ q r)
      → (rs : List A) → any_where q (update_where p f rs) ≡ any_where q rs
  unfolding any_where update_where
  any_where-update_where q p f same [] = refl
  any_where-update_where q p f same (r ∷ rs) = elim (Bool-cases (p r)) [
    | inl e ↦ rw (e, same r e, any_where-update_where q p f same rs)
    | inr e ↦ rw (e, any_where-update_where q p f same rs)
  ]

  -- A change after which no row passes a test.
  pub any_where-cleared :
      (q p : A → Bool) (f : A → A)
      → ((r : A) → p r ≡ true → q (f r) ≡ false)
      → ((r : A) → p r ≡ false → q r ≡ true → ⊥)
      → (rs : List A) → any_where q (update_where p f rs) ≡ false
  unfolding any_where update_where
  any_where-cleared q p f changed kept [] = refl
  any_where-cleared q p f changed kept (r ∷ rs) =
      ground (arith, changed r, kept r, any_where-cleared q p f changed kept rs)

  -- A change that gives no row that passes a test where none did.
  pub any_where-still_none :
      (q p : A → Bool) (f : A → A)
      → ((r : A) → p r ≡ true → q (f r) ≡ false)
      → (rs : List A) → any_where q rs ≡ false
      → any_where q (update_where p f rs) ≡ false
  unfolding any_where update_where
  any_where-still_none q p f changed [] h = refl
  any_where-still_none q p f changed (r ∷ rs) h =
      ground (arith, changed r, any_where-still_none q p f changed rs)

  pub any_where-append :
      (q : A → Bool) (xs ys : List A) → any_where q (xs ++ ys) ≡ (any_where q xs || any_where q ys)
  unfolding any_where
  any_where-append q [] ys = refl
  any_where-append q (x ∷ xs) ys = ground (arith, any_where-append q xs ys)

  pub find_where-absent :
      (q : A → Bool) (rs : List A) → any_where q rs ≡ false → find_where q rs ≡ none
  unfolding any_where find_where
  find_where-absent q [] h = refl
  find_where-absent q (r ∷ rs) h = ground (arith, find_where-absent q rs)

  -- A search that fails on the rows before the last finds the last, if that passes.
  pub find_where-last :
      (q : A → Bool) (xs : List A) (x : A)
      → any_where q xs ≡ false
      → q x ≡ true
      → find_where q (xs ++ x ∷ []) ≡ some x
  unfolding any_where find_where
  find_where-last q [] x new passes = ground (arith, passes)
  find_where-last q (y ∷ xs) x new passes = ground (arith, find_where-last q xs x)

  -- Rows that a selection drops are not missed by a test that fails on them.
  pub any_where-select_where :
      (q p : A → Bool)
      → ((r : A) → q r ≡ true → p r ≡ true)
      → (rs : List A) → any_where q (select_where p rs) ≡ any_where q rs
  unfolding any_where select_where
  any_where-select_where q p keep [] = refl
  any_where-select_where q p keep (r ∷ rs) =
      ground (arith, keep r, any_where-select_where q p keep rs)

  pub any_where→All :
      (q : A → Bool) (rs : List A) → any_where q rs ≡ false → All (λ r. q r ≡ false) rs
  unfolding any_where
  any_where→All q [] h = tt
  any_where→All q (r ∷ rs) h = (ground arith, any_where→All q rs (ground arith))

  pub All→any_where :
      (q : A → Bool) (rs : List A) → All (λ r. q r ≡ false) rs → any_where q rs ≡ false
  unfolding any_where
  All→any_where q [] h = refl
  All→any_where q (r ∷ rs) h = ground (arith, h.0, All→any_where q rs h.1)

  -- A query finds a row exactly if a test does.
  pub find_where-any_where :
      (q : A → Bool) (rs : List A) → (find_where q rs ≡ none) ⊎ (any_where q rs ≡ true)
  unfolding find_where any_where
  find_where-any_where q [] = inl refl
  find_where-any_where q (r ∷ rs) = elim (Bool-cases (q r)) [
    | inl e ↦ inr (rw e)
    | inr e ↦ rw e (find_where-any_where q rs)
  ]

  pub find_where-none :
      (q : A → Bool) (rs : List A) → find_where q rs ≡ none → any_where q rs ≡ false
  unfolding find_where any_where
  find_where-none q [] h = refl
  find_where-none q (r ∷ rs) h = ground (arith, find_where-none q rs)

  pub update_where-none :
      (q : A → Bool) (f : A → A) (rs : List A) → any_where q rs ≡ false → update_where q f rs ≡ rs
  unfolding update_where any_where
  update_where-none q f [] h = refl
  update_where-none q f (r ∷ rs) h = ground (arith, update_where-none q f rs)

  pub count_where-none :
      (q : A → Bool) (rs : List A) → any_where q rs ≡ false → count_where q rs ≡ 0
  unfolding count_where any_where
  count_where-none q [] h = refl
  count_where-none q (r ∷ rs) h = ground (arith, count_where-none q rs)

  pub All-find :
      (q : A → Bool) (rs : List A) {r : A} → find_where q rs ≡ some r → any_where q rs ≡ true
  unfolding find_where any_where
  All-find q [] h = cc
  All-find q (x ∷ rs) {r} h = ground (arith, All-find q rs {r = r})

pub find_where-passes {ℓ} :
    {A : Type ℓ} (q : A → Bool) (rs : List A) {r : A} → find_where q rs ≡ some r → q r ≡ true
find_where-passes q rs {r} e =
    (All-find_where (λ x. Unit {0}) q rs {r = r} e (All-always (λ x. Unit {0}) (λ x. tt) rs)).1

-- A second statement that changes exactly the rows that the first has changed.
module _ {ℓ} {A : Type ℓ} (p q : A → Bool) (f : A → A)
    (moved : (r : A) → p r ≡ true → q (f r) ≡ true) where
  pub update_where-twice :
      (g : A → A) (rs : List A)
      → All (λ r. p r ≡ false → q r ≡ false) rs
      → update_where q g (update_where p f rs) ≡ update_where p (λ r. g (f r)) rs
  unfolding update_where
  update_where-twice g [] h = refl
  update_where-twice g (r ∷ rs) h = elim (Bool-cases (p r)) [
    | inl e ↦ rw (e, moved r e, update_where-twice g rs h.1)
    | inr e ↦ rw (e, h.0 e, update_where-twice g rs h.1)
  ]

  pub count_where-twice :
      (rs : List A)
      → All (λ r. p r ≡ false → q r ≡ false) rs
      → count_where q (update_where p f rs) ≡ count_where p rs
  unfolding update_where count_where
  count_where-twice [] h = refl
  count_where-twice (r ∷ rs) h = elim (Bool-cases (p r)) [
    | inl e ↦ rw (e, moved r e, count_where-twice rs h.1)
    | inr e ↦ rw (e, h.0 e, count_where-twice rs h.1)
  ]
