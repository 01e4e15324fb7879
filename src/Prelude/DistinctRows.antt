-- ===== src/Prelude/DistinctRows.antt =====
-- Tables in which no two rows have the same key.
use mathlib.Core.Path.{◌≡◌, refl, ap, sym, subst, ◌∙◌, fun_ext}
use mathlib.Core.Bool.{Bool, true, false, false≢true}
use mathlib.Core.Option.{some}
use mathlib.Core.Logic.{inl, inr}
use mathlib.Core.List.{List, [], ◌∷◌, ◌++◌}
use Prim.Native.Nat.{ℕ, zero, suc}
use native.Mathlib.Omega.{arith}
use rc_pangjiahui.Prelude.Tests.{if◌then◌else◌, Bool-cases}
use rc_pangjiahui.Prelude.Lists.{All, All-imp, All₂_imp, take}
use rc_pangjiahui.Prelude.Rows.{
  update_where, count_where, find_where, select_where, any_where, insert_by, order_by,
}
use rc_pangjiahui.Prelude.RowLaws.{
  All-find_where, All-insert_by, All-order_by, All-select_where, All-update_where, All→any_where,
  count_where-none,
}

-- No two rows are the same by the given test.
abbrev pub DistinctBy {ℓ} : {A : Type ℓ} → (A → A → Bool) → List A → Type 0
DistinctBy same [] = Unit
DistinctBy same (x ∷ xs) = All (λ y. same x y ≡ false) xs × DistinctBy same xs

module _ {ℓ} {A : Type ℓ} (same : A → A → Bool) where
  All-take-false :
      (x : A) (n : ℕ) (rs : List A)
      → All (λ y. same x y ≡ false) rs
      → All (λ y. same x y ≡ false) (take n rs)
  All-take-false x zero rs h = tt
  All-take-false x (suc n) [] h = tt
  All-take-false x (suc n) (r ∷ rs) h = (h.0, All-take-false x n rs h.1)

  pub DistinctBy-take : (n : ℕ) (rs : List A) → DistinctBy same rs → DistinctBy same (take n rs)
  DistinctBy-take zero rs h = tt
  DistinctBy-take (suc n) [] h = tt
  DistinctBy-take (suc n) (r ∷ rs) h = (All-take-false r n rs h.0, DistinctBy-take n rs h.1)

  pub DistinctBy-select_where :
      (p : A → Bool) (rs : List A) → DistinctBy same rs → DistinctBy same (select_where p rs)
  unfolding select_where
  DistinctBy-select_where p [] h = tt
  DistinctBy-select_where p (r ∷ rs) h = elim (Bool-cases (p r)) [
    | inl e ↦
        rw e (All-select_where (λ y. same r y ≡ false) p rs h.0, DistinctBy-select_where p rs h.1)
    | inr e ↦ rw e (DistinctBy-select_where p rs h.1)
  ]

  -- An insertion that a uniqueness constraint lets through.
  pub DistinctBy-append :
      (rs : List A) (x : A)
      → any_where (λ y. same y x) rs ≡ false
      → DistinctBy same rs
      → DistinctBy same (rs ++ x ∷ [])
  unfolding any_where
  DistinctBy-append [] x h d = (tt, tt)
  DistinctBy-append (r ∷ rs) x h d =
      (All_snoc r rs d.0 (ground arith), DistinctBy-append rs x (ground arith) d.1)
    where
      All_snoc :
          (r : A) (rs : List A)
          → All (λ y. same r y ≡ false) rs
          → same r x ≡ false
          → All (λ y. same r y ≡ false) (rs ++ x ∷ [])
      All_snoc r [] h e = (e, tt)
      All_snoc r (y ∷ rs) h e = (h.0, All_snoc r rs h.1 e)

  All-update_same :
      (p : A → Bool) (f : A → A)
      → ((r s : A) → same r (f s) ≡ same r s)
      → (x : A) (rs : List A) → All (λ y. same x y ≡ false) rs
      → All (λ y. same x y ≡ false) (update_where p f rs)
  All-update_same p f right x rs h =
      All-update_where (λ y. same x y ≡ false) p f (λ r _ e. right x r ∙ e) rs h

  -- A change that keeps the columns of the key.
  pub DistinctBy-update_where :
      (p : A → Bool) (f : A → A)
      → ((r s : A) → same (f r) s ≡ same r s)
      → ((r s : A) → same r (f s) ≡ same r s)
      → (rs : List A) → DistinctBy same rs
      → DistinctBy same (update_where p f rs)
  unfolding update_where
  DistinctBy-update_where p f left right [] h = tt
  DistinctBy-update_where p f left right (r ∷ rs) h =
      let rest = All-update_same p f right r rs h.0 in
      let ih = DistinctBy-update_where p f left right rs h.1 in
      elim (Bool-cases (p r)) [
        | inl e ↦ rw (e, fun_ext (λ y. ap (λ b. b ≡ false) (left r y))) (rest, ih)
        | inr e ↦ rw e (rest, ih)
      ]

  -- Rows that the test takes for the same are the same in everything.
  pub DistinctBy-agree {κ} :
      {B : Type κ} (f : A → B)
      → ((r s : A) → same r s ≡ same s r)
      → (rs : List A) → DistinctBy same rs
      → All (λ a. All (λ b. same b a ≡ true → f b ≡ f a) rs) rs
  DistinctBy-agree f symmetric [] h = tt
  DistinctBy-agree f symmetric (r ∷ rs) h = (
    (
      λ _. refl,
      All-imp (λ b. same r b ≡ false) (λ b. same b r ≡ true → f b ≡ f r)
          (λ b q e. absurd (ground (arith, q, e, symmetric r b))) rs h.0,
    ),
    All₂_imp (λ a. same r a ≡ false) (λ a. All (λ b. same b a ≡ true → f b ≡ f a) rs)
        (λ a. All (λ b. same b a ≡ true → f b ≡ f a) (r ∷ rs))
        (λ a q m. (λ e. absurd (ground (arith, q, e)), m)) rs h.0
        (DistinctBy-agree f symmetric rs h.1),
  )

  -- Sorting keeps it, if the test is symmetric.
  pub DistinctBy-insert_by :
      (before : A → A → Bool)
      → ((r s : A) → same r s ≡ same s r)
      → (x : A) (rs : List A) → All (λ y. same x y ≡ false) rs
      → DistinctBy same rs
      → DistinctBy same (insert_by before x rs)
  unfolding insert_by
  DistinctBy-insert_by before sym_same x [] h d = (tt, tt)
  DistinctBy-insert_by before sym_same x (r ∷ rs) h d = elim (Bool-cases (before r x)) [
    | inl e ↦ rw e (
      All-insert_by (λ y. same r y ≡ false) before x rs (sym_same r x ∙ h.0) d.0,
      DistinctBy-insert_by before sym_same x rs h.1 d.1,
    )
    | inr e ↦ rw e (h, d)
  ]

  pub DistinctBy-order_by :
      (before : A → A → Bool)
      → ((r s : A) → same r s ≡ same s r)
      → (rs : List A) → DistinctBy same rs
      → DistinctBy same (order_by before rs)
  unfolding order_by
  DistinctBy-order_by before sym_same [] d = tt
  DistinctBy-order_by before sym_same (r ∷ rs) d =
      DistinctBy-insert_by before sym_same r (order_by before rs)
        (All-order_by (λ y. same r y ≡ false) before rs d.0)
        (DistinctBy-order_by before sym_same rs d.1)

  -- What a query finds is the only row with its key.
  pub find_where-unique_key :
      (q key : A → Bool)
      → ((r : A) → q r ≡ true → key r ≡ true)
      → ((r s : A) → key r ≡ true → key s ≡ true → same r s ≡ true)
      → (rs : List A) {x : A} → DistinctBy same rs
      → find_where q rs ≡ some x
      → All (λ r. key r ≡ true → r ≡ x) rs
  unfolding find_where
  find_where-unique_key q key has_key same_key [] d e = tt
  find_where-unique_key q key has_key same_key (r ∷ rs) {x} d e = elim (Bool-cases (q r)) [
    | inl h ↦
        let found : some r ≡ some x =
          subst (λ b. (if b then some r else find_where q rs) ≡ some x) h e in
        (
          (λ _. ground (arith, found)),
          All-imp (λ y. same r y ≡ false) (λ y. key y ≡ true → y ≡ x)
              (λ y apart hy. absurd (false≢true (sym apart ∙ same_key r y (has_key r h) hy))) rs
              d.0,
        )
    | inr h ↦
        let later = subst (λ b. (if b then some r else find_where q rs) ≡ some x) h e in
        let (apart, at) = All-find_where (λ y. same r y ≡ false) q rs later d.0 in
        (
          (λ hr. absurd (false≢true (sym apart ∙ same_key r x hr (has_key x at)))),
          find_where-unique_key q key has_key same_key rs d.1 later,
        )
  ]

  pub find_where_unique :
      (q : A → Bool)
      → ((r s : A) → q r ≡ true → q s ≡ true → same r s ≡ true)
      → (rs : List A) {x : A} → DistinctBy same rs
      → find_where q rs ≡ some x
      → All (λ r. q r ≡ true → r ≡ x) rs
  find_where_unique q key rs d e = find_where-unique_key q q (λ r h. h) key rs d e

  -- A test by a key counts one row if it finds any.
  pub count_where_unique :
      (q : A → Bool)
      → ((r s : A) → q r ≡ true → q s ≡ true → same r s ≡ true)
      → (rs : List A) → DistinctBy same rs
      → any_where q rs ≡ true
      → count_where q rs ≡ 1
  unfolding count_where any_where
  count_where_unique q key [] d h = cc
  count_where_unique q key (r ∷ rs) d h = elim (Bool-cases (q r)) [
    | inl e ↦
        let rest = All→any_where q rs (
          All-imp (λ y. same r y ≡ false) (λ y. q y ≡ false)
            (λ y apart. ground (arith, apart, key r y e)) rs d.0) in
        rw e (omega (arith, count_where-none q rs rest))
    | inr e ↦ rw e (omega (arith, count_where_unique q key rs d.1 (ground (arith, h, e))))
  ]
