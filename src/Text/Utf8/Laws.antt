-- ===== src/Text/Utf8/Laws.antt =====
-- A well-formed text is read back as it was written.
use rc_pangjiahui.Prelude.{
  ℕ, ◌+◌, ◌/◌, ◌%◌, ◌≤◌, ◌<◌, true, ◌≡◌, refl, ◌⊎◌, inl, inr, ap, ◌∙◌, List, [], ◌∷◌, ◌++◌, All,
  arith,
}
use rc_pangjiahui.Notification.Model.{Bytes}
use rc_pangjiahui.Text.Utf8.{
  is_valid_utf8, decoded, decode_two, decode_three, decode_four, decode_rune, runes_from, runes,
  valid_from, encode_rune, encode,
}

-- A Unicode scalar value.
abbrev pub IsScalar : ℕ → Type 0
IsScalar r = (r < 0xd800) ⊎ ((0xe000 ≤ r) × (r < 0x110000))

-- What is read at the front of the bytes of a rune, by the number of its bytes.
pub decode_one : (r : ℕ) (rest : Bytes) → r < 0x80 → decode_rune r rest ≡ decoded r 1
unfolding decode_rune
decode_one r rest h = ground arith

pub decode_pair :
    (r : ℕ) (rest : Bytes)
    → 0x80 ≤ r
    → r < 0x800
    → decode_rune (0xc0 + r / 0x40) ((0x80 + r % 0x40) ∷ rest) ≡ decoded r 2
unfolding decode_rune decode_two
decode_pair r rest lo hi = ground arith

pub decode_triple :
    (r : ℕ) (rest : Bytes)
    → 0x800 ≤ r
    → r < 0x10000
    → IsScalar r
    → decode_rune (0xe0 + r / 0x1000) ((0x80 + r / 0x40 % 0x40) ∷ (0x80 + r % 0x40) ∷ rest)
      ≡ decoded r 3
unfolding decode_rune decode_three
decode_triple r rest lo hi s = ground arith

pub decode_quad :
    (r : ℕ) (rest : Bytes)
    → 0x10000 ≤ r
    → r < 0x110000
    → decode_rune
        (0xf0 + r / 0x40000)
        ((0x80 + r / 0x1000 % 0x40) ∷ (0x80 + r / 0x40 % 0x40) ∷ (0x80 + r % 0x40) ∷ rest)
      ≡ decoded r 4
unfolding decode_rune decode_four
decode_quad r rest lo hi = ground arith

-- The four forms of a rune's bytes.
pub encode_rune_forms :
    (r : ℕ)
    → IsScalar r
    → ((r < 0x80) × (encode_rune r ≡ r ∷ []))
      ⊎ ((0x80 ≤ r) × (r < 0x800) × (encode_rune r ≡ (0xc0 + r / 0x40) ∷ (0x80 + r % 0x40) ∷ []))
      ⊎ ((0x800 ≤ r)
          × (r < 0x10000)
          × (encode_rune r
              ≡ (0xe0 + r / 0x1000) ∷ (0x80 + r / 0x40 % 0x40) ∷ (0x80 + r % 0x40) ∷ []))
      ⊎ ((0x10000 ≤ r)
          × (r < 0x110000)
          × (encode_rune r
              ≡ (0xf0 + r / 0x40000)
                ∷ (0x80 + r / 0x1000 % 0x40)
                ∷ (0x80 + r / 0x40 % 0x40)
                ∷ (0x80 + r % 0x40)
                ∷ []))
unfolding encode_rune
encode_rune_forms r s = ground arith

runes-encode_rune :
    (r : ℕ) (rest : Bytes)
    → IsScalar r
    → runes_from 0 (encode_rune r ++ rest) ≡ r ∷ runes_from 0 rest
unfolding runes_from
runes-encode_rune r rest s = elim (encode_rune_forms r s) [
  | inl (hi, e) ↦ rw (e, decode_one r rest hi) refl
  | inr (inl (lo, hi, e)) ↦ rw (e, decode_pair r rest lo hi) refl
  | inr (inr (inl (lo, hi, e))) ↦ rw (e, decode_triple r rest lo hi s) refl
  | inr (inr (inr (lo, hi, e))) ↦ rw (e, decode_quad r rest lo hi) refl
]

valid-encode_rune :
    (r : ℕ) (rest : Bytes) → IsScalar r → valid_from 0 (encode_rune r ++ rest) ≡ valid_from 0 rest
unfolding valid_from
valid-encode_rune r rest s = elim (encode_rune_forms r s) [
  | inl (hi, e) ↦ rw (e, decode_one r rest hi) refl
  | inr (inl (lo, hi, e)) ↦ rw (e, decode_pair r rest lo hi) refl
  | inr (inr (inl (lo, hi, e))) ↦ rw (e, decode_triple r rest lo hi s) refl
  | inr (inr (inr (lo, hi, e))) ↦ rw (e, decode_quad r rest lo hi) refl
]

-- A text of scalar values is well-formed and is read back as it was written.
pub runes-encode :
    (rs : List ℕ) → All IsScalar rs → (runes (encode rs) ≡ rs) × (is_valid_utf8 (encode rs) ≡ true)
unfolding encode runes_from valid_from
runes-encode [] h = (refl, refl)
runes-encode (r ∷ rs) h =
    let rest = runes-encode rs h.1 in
    (
      runes-encode_rune r (encode rs) h.0 ∙ ap (◌∷◌ r) rest.0,
      valid-encode_rune r (encode rs) h.0 ∙ rest.1,
    )
