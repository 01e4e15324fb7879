-- ===== src/Delivery/Sender/Diagnostics.antt =====
-- What sanitize of internal/delivery/http_sender.go makes of a supplier's answer.
use rc_pangjiahui.Prelude.{
  ℕ, zero, suc, ◌+◌, ◌*◌, ◌/◌, ◌%◌, ◌≤◌, ◌<◌, true, false, ◌&&◌, ◌||◌, ltb, leb, ◌≡◌, ◌≢◌, refl,
  sym, ap, ◌∙◌, ◌⊎◌, inl, inr, List, [], ◌∷◌, ◌++◌, map, length, take, subst, length-append,
  length-take-le, All, All-take, All-append, arith, Bool-cases,
}
use rc_pangjiahui.Notification.Model.{Bytes}
use rc_pangjiahui.Text.Utf8.{
  rune_error, decode_three, decode_rune, runes_from, runes, valid_from, is_valid_utf8, encode_rune,
  encode,
}
use rc_pangjiahui.Text.Utf8.Laws.{IsScalar, decode_triple, runes-encode}
use rc_pangjiahui.Delivery.Reading.{clean, sanitize}

module _ {ℓ} {A : Type ℓ} where
  pub take_all : (n : ℕ) (xs : List A) → length xs ≤ n → take n xs ≡ xs
  take_all zero [] h = refl
  take_all zero (x ∷ xs) h = absurd (omega arith)
  take_all (suc n) [] h = refl
  take_all (suc n) (x ∷ xs) h = ap (◌∷◌ x) (take_all n xs (omega arith))

-- Shorter messages stay whole, so sanitize is a cut in every case.
pub sanitize_cut_lem :
    (value : Bytes) (limit : ℕ)
    → sanitize value limit ≡ take limit (encode (map clean (runes value)))
unfolding sanitize
sanitize_cut_lem value limit =
    elim (Bool-cases (ltb limit (length (encode (map clean (runes value)))))) [
      | inl long ↦ rw long refl
      | inr short ↦
          rw short (sym (take_all limit (encode (map clean (runes value))) (ground (arith, short))))
    ]

-- A tab, or a byte from the space on.
abbrev pub IsAboveControls : ℕ → Type 0
IsAboveControls b = (b ≡ 0x09) ⊎ (0x20 ≤ b)

encode_rune-IsAboveControls : (r : ℕ) → IsAboveControls r → All IsAboveControls (encode_rune r)
unfolding encode_rune
encode_rune-IsAboveControls r h = elim (Bool-cases (ltb r 0x80)) [
  | inl e ↦ rw e (h, tt)
  | inr e ↦ rw e (elim (Bool-cases (ltb r 0x800)) [
    | inl e₂ ↦ rw e₂ (inr (omega arith), (inr (omega arith), tt))
    | inr e₂ ↦ rw e₂ (elim (Bool-cases ((leb 0xd800 r && leb r 0xdfff) || ltb 0x10ffff r)) [
      | inl e₃ ↦ rw e₃ (inr (omega arith), (inr (omega arith), (inr (omega arith), tt)))
      | inr e₃ ↦ rw e₃ (elim (Bool-cases (ltb r 0x10000)) [
        | inl e₄ ↦ rw e₄ (inr (omega arith), (inr (omega arith), (inr (omega arith), tt)))
        | inr e₄ ↦
            rw e₄
              (inr (omega arith), (inr (omega arith), (inr (omega arith), (inr (omega arith), tt))))
      ])
    ])
  ])
]

encode-IsAboveControls : (rs : List ℕ) → All IsAboveControls (encode (map clean rs))
unfolding encode
encode-IsAboveControls [] = tt
encode-IsAboveControls (r ∷ rs) =
    All-append IsAboveControls (encode_rune (clean r)) (encode (map clean rs))
      (encode_rune-IsAboveControls (clean r) (ground arith)) (encode-IsAboveControls rs)

-- Whatever a supplier answers, a diagnostic message has at most as many bytes as the limit, and no byte
-- below the space (0x20) but the tab.
pub sanitize_bounds :
    (value : Bytes) (limit : ℕ)
    → (length (sanitize value limit) ≤ limit) × All IsAboveControls (sanitize value limit)
sanitize_bounds value limit = rw (sanitize_cut_lem value limit) (
  length-take-le limit (encode (map clean (runes value))),
  All-take IsAboveControls limit (encode (map clean (runes value)))
      (encode-IsAboveControls (runes value)),
)

clean-IsScalar : (rs : List ℕ) → All IsScalar rs → All IsScalar (map clean rs)
clean-IsScalar [] h = tt
clean-IsScalar (r ∷ rs) h = (ground (arith, h.0), clean-IsScalar rs h.1)

length-encode_rune-clean : (r : ℕ) → length (encode_rune (clean r)) ≡ length (encode_rune r)
unfolding encode_rune
length-encode_rune-clean r = elim (Bool-cases (ltb r 0x20)) [
  | inl low ↦ ground (arith, low)
  | inr high ↦ let kept : clean r ≡ r = ground (arith, high) in rw kept refl
]

length-encode-clean : (rs : List ℕ) → length (encode (map clean rs)) ≡ length (encode rs)
unfolding encode
length-encode-clean [] = refl
length-encode-clean (r ∷ rs) =
    length-append (encode_rune (clean r)) (encode (map clean rs))
    ∙ ap (λ n. length (encode_rune (clean r)) + n) (length-encode-clean rs)
    ∙ ap (λ n. n + length (encode rs)) (length-encode_rune-clean r)
    ∙ sym (length-append (encode_rune r) (encode rs))

-- Rune by rune: a rune below the space that is no tab has become a space, any other is there as it was.
abbrev pub AreSpaced : List ℕ → List ℕ → Type 0
AreSpaced [] [] = Unit
AreSpaced (r ∷ rs) (q ∷ qs) =
    (r ≢ 0x09 → r < 0x20 → q ≡ 0x20) × (r ≡ 0x09 → q ≡ 0x09) × (0x20 ≤ r → q ≡ r) × AreSpaced rs qs
AreSpaced _ _ = ⊥

clean-AreSpaced : (rs : List ℕ) → AreSpaced rs (map clean rs)
clean-AreSpaced [] = tt
clean-AreSpaced (r ∷ rs) = (ground arith, ground arith, ground arith, clean-AreSpaced rs)

-- A well-formed text that is not longer than the limit stays well-formed and is kept rune by rune, but
-- for the runes below the space other than the tab, in whose place there are spaces.
pub sanitize_whole :
    (rs : List ℕ) (limit : ℕ)
    → All IsScalar rs
    → length (encode rs) ≤ limit
    → AreSpaced rs (runes (sanitize (encode rs) limit))
      × (is_valid_utf8 (sanitize (encode rs) limit) ≡ true)
sanitize_whole rs limit h fits =
    let whole : sanitize (encode rs) limit ≡ encode (map clean rs) =
      sanitize_cut_lem (encode rs) limit
      ∙ ap (λ x. take limit (encode (map clean x))) (runes-encode rs h).0
      ∙ take_all limit (encode (map clean rs)) (omega (arith, length-encode-clean rs)) in
    let (same, valid) = runes-encode (map clean rs) (clean-IsScalar rs h) in
    rw whole (subst (AreSpaced rs) (sym same) (clean-AreSpaced rs), valid)

-- A rune of three bytes, such as those of Chinese or Japanese.
abbrev pub IsTriple : ℕ → Type 0
IsTriple r = (0x800 ≤ r) × (r < 0x10000) × IsScalar r

-- What is left of the message that the sender makes of a body.
abbrev message : Bytes → ℕ → Bytes
message body limit = take limit (encode (map clean (runes (take limit body))))

encode_triple :
    (r : ℕ)
    → IsTriple r
    → encode_rune r ≡ (0xe0 + r / 0x1000) ∷ (0x80 + r / 0x40 % 0x40) ∷ (0x80 + r % 0x40) ∷ []
unfolding encode_rune
encode_triple r h = ground arith

-- Bytes that end within a rune of three bytes are read one by one.
decode-lone : (r : ℕ) → r < 0x10000 → decode_rune (0xe0 + r / 0x1000) [] ≡ rune_error
unfolding decode_rune decode_three
decode-lone r h = ground arith

decode-short : (r c : ℕ) → r < 0x10000 → decode_rune (0xe0 + r / 0x1000) (c ∷ []) ≡ rune_error
unfolding decode_rune decode_three
decode-short r c h = ground arith

decode-tail : (x : ℕ) → decode_rune (0x80 + x % 0x40) [] ≡ rune_error
unfolding decode_rune
decode-tail x = ground arith

cut_one : valid_from 0 (take 1 (encode (map clean (0xfffd ∷ [])))) ≡ false
unfolding decode_rune decode_three valid_from encode encode_rune
cut_one = refl

cut_two : valid_from 0 (take 2 (encode (map clean (0xfffd ∷ 0xfffd ∷ [])))) ≡ false
unfolding decode_rune decode_three valid_from encode encode_rune
cut_two = refl

-- A body that is cut within its first rune.
cut-first :
    (r : ℕ) (rest : Bytes) (limit : ℕ)
    → IsTriple r
    → 0 < limit
    → limit < 3
    → is_valid_utf8 (message (encode_rune r ++ rest) limit) ≡ false
unfolding runes_from valid_from encode
cut-first r rest zero h lo hi = absurd (omega arith)
cut-first r rest (suc zero) h lo hi = rw (encode_triple r h, decode-lone r h.1) cut_one
cut-first r rest (suc (suc zero)) h lo hi =
    rw (encode_triple r h, decode-short r (0x80 + r / 0x40 % 0x40) h.1, decode-tail (r / 0x40))
      cut_two
cut-first r rest (suc (suc (suc l))) h lo hi = absurd (omega arith)

-- A whole rune of three bytes in front changes nothing.
message-cons :
    (r : ℕ) (rest : Bytes) (l : ℕ)
    → IsTriple r
    → is_valid_utf8 (message (encode_rune r ++ rest) (suc (suc (suc l))))
      ≡ is_valid_utf8 (message rest l)
unfolding runes_from valid_from encode
message-cons r rest l h =
    let kept : clean r ≡ r = ground (arith, h) in
    rw
      (
        encode_triple r h,
        decode_triple r (take l rest) h.0 h.1 h.2,
        kept,
        encode_triple r h,
        decode_triple r (take l (encode (map clean (runes (take l rest))))) h.0 h.1 h.2,
      )
      refl

-- A body that is longer than the limit, of runes of three bytes, leaves a message that is no
-- well-formed text, unless the limit is a multiple of three.
pub message-malformed :
    (rs : List ℕ) (limit : ℕ)
    → All IsTriple rs
    → limit % 3 ≢ 0
    → limit < 3 * length rs
    → is_valid_utf8 (message (encode rs) limit) ≡ false
unfolding encode
message-malformed [] limit h apart long = absurd (omega arith)
message-malformed (r ∷ rs) zero h apart long = absurd (apart (omega arith))
message-malformed (r ∷ rs) (suc zero) h apart long =
    cut-first r (encode rs) 1 h.0 (omega arith) (omega arith)
message-malformed (r ∷ rs) (suc (suc zero)) h apart long =
    cut-first r (encode rs) 2 h.0 (omega arith) (omega arith)
message-malformed (r ∷ rs) (suc (suc (suc l))) h apart long =
    message-cons r (encode rs) l h.0
    ∙ message-malformed rs l h.1 (λ e. apart (omega arith)) (omega arith)
