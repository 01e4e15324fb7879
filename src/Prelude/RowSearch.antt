-- ===== src/Prelude/RowSearch.antt =====
-- What a test finds in a table that was searched, selected from, ordered or mapped.
use rc_pangjiahui.Prelude.{
  Bool, true, ◌&&◌, ◌||◌, ◌≡◌, refl, ap, ◌∙◌, inl, inr, some, List, [], ◌∷◌, arith, any_where,
  find_where, update_where, select_where, insert_by, order_by, Bool-cases,
}

module _ {ℓ} {A : Type ℓ} where
  -- A row that a search finds passes a test of the table.
  pub any_where-found :
      (q p : A → Bool) (rs : List A) {x : A}
      → find_where q rs ≡ some x
      → p x ≡ true
      → any_where p rs ≡ true
  unfolding find_where any_where
  any_where-found q p [] e h = cc
  any_where-found q p (r ∷ rs) {x} e h = elim (Bool-cases (q r)) [
    | inl hit ↦ let same : r ≡ x = ground (arith, e, hit) in rw same (rw h refl)
    | inr miss ↦
        let rest = any_where-found q p rs {x = x} (ground (arith, e, miss)) h in
        ground (arith, rest)
  ]

  -- A change that makes of each row that passes one test a row that passes another.
  pub any_where-reached :
      (p q : A → Bool) (f : A → A)
      → ((r : A) → p r ≡ true → q (f r) ≡ true)
      → (rs : List A) → any_where p rs ≡ true
      → any_where q (update_where p f rs) ≡ true
  unfolding any_where update_where
  any_where-reached p q f reached [] h = h
  any_where-reached p q f reached (r ∷ rs) h =
      ground (arith, h, reached r, any_where-reached p q f reached rs)

  pub any_where-selected :
      (q p : A → Bool) (rs : List A)
      → any_where (λ r. q r && p r) rs ≡ true
      → any_where q (select_where p rs) ≡ true
  unfolding any_where select_where
  any_where-selected q p [] h = h
  any_where-selected q p (r ∷ rs) h = ground (arith, h, any_where-selected q p rs)

  any_where-insert_by :
      (q : A → Bool) (before : A → A → Bool) (x : A) (rs : List A)
      → any_where q (insert_by before x rs) ≡ (q x || any_where q rs)
  unfolding any_where insert_by
  any_where-insert_by q before x [] = refl
  any_where-insert_by q before x (r ∷ rs) = ground (arith, any_where-insert_by q before x rs)

  pub any_where-order_by :
      (q : A → Bool) (before : A → A → Bool) (rs : List A)
      → any_where q (order_by before rs) ≡ any_where q rs
  unfolding any_where order_by
  any_where-order_by q before [] = refl
  any_where-order_by q before (r ∷ rs) =
      any_where-insert_by q before r (order_by before rs)
      ∙ ap (λ b. q r || b) (any_where-order_by q before rs)
