-- ===== src/Text/Utf8.antt =====
-- UTF-8 as Go's ranges over a string and its conversions read and write it: a byte that starts no
-- well-formed sequence is read as the replacement character and skipped alone.
pub mod Laws
use rc_pangjiahui.Prelude.{
  ℕ, zero, suc, ◌+◌, ◌-◌, ◌*◌, ◌/◌, ◌%◌, Bool, true, false, ◌&&◌, ◌||◌, ◌==◌, ltb, leb, List, [],
  ◌∷◌, ◌++◌, if◌then◌else◌,
}
use rc_pangjiahui.Notification.Model.{Bytes}

-- A rune with the number of bytes that it takes. For a malformed sequence `is_error` holds.
pub record Decoded : Type 0 where
  pub rune : ℕ
  pub size : ℕ
  pub is_error : Bool

abbrev pub rune_error : Decoded
rune_error = record { rune = 0xfffd; size = 1; is_error = true }

abbrev pub decoded : ℕ → ℕ → Decoded
decoded rune size = record { rune = rune; size = size; is_error = false }

abbrev pub is_tail : ℕ → Bool
is_tail b = leb 0x80 b && leb b 0xbf

-- The bounds of the second byte after the first.
abbrev pub second_low : ℕ → ℕ
second_low b = if b == 0xe0 then 0xa0 else if b == 0xf0 then 0x90 else 0x80

abbrev pub second_high : ℕ → ℕ
second_high b = if b == 0xed then 0x9f else if b == 0xf4 then 0x8f else 0xbf

unfoldable pub decode_two : ℕ → Bytes → Decoded
decode_two b [] = rune_error
decode_two b (c ∷ rest) = if is_tail c then decoded (b % 0x20 * 0x40 + c % 0x40) 2 else rune_error

unfoldable pub decode_three : ℕ → Bytes → Decoded
decode_three b [] = rune_error
decode_three b (c ∷ []) = rune_error
decode_three b (c ∷ d ∷ rest) =
    if leb (second_low b) c && leb c (second_high b) && is_tail d
    then decoded (b % 0x10 * 0x1000 + c % 0x40 * 0x40 + d % 0x40) 3
    else rune_error

unfoldable pub decode_four : ℕ → Bytes → Decoded
decode_four b [] = rune_error
decode_four b (c ∷ []) = rune_error
decode_four b (c ∷ d ∷ []) = rune_error
decode_four b (c ∷ d ∷ e ∷ rest) =
    if leb (second_low b) c && leb c (second_high b) && is_tail d && is_tail e
    then decoded (b % 0x08 * 0x40000 + c % 0x40 * 0x1000 + d % 0x40 * 0x40 + e % 0x40) 4
    else rune_error

unfoldable pub decode_rune : ℕ → Bytes → Decoded
decode_rune b rest =
    if ltb b 0x80
    then decoded b 1
    else if leb 0xc2 b && leb b 0xdf
    then decode_two b rest
    else if leb 0xe0 b && leb b 0xef
    then decode_three b rest
    else if leb 0xf0 b && leb b 0xf4
    then decode_four b rest
    else rune_error

-- The runes of a string, where `skip` bytes belong to the rune before.
unfoldable pub runes_from : ℕ → Bytes → List ℕ
runes_from skip [] = []
runes_from (suc skip) (b ∷ rest) = runes_from skip rest
runes_from zero (b ∷ rest) = let r = decode_rune b rest in r.rune ∷ runes_from (r.size - 1) rest

abbrev pub runes : Bytes → List ℕ
runes = runes_from 0

-- utf8.ValidString, in the same way.
unfoldable pub valid_from : ℕ → Bytes → Bool
valid_from zero [] = true
valid_from (suc skip) [] = false
valid_from (suc skip) (b ∷ rest) = valid_from skip rest
valid_from zero (b ∷ rest) =
    let r = decode_rune b rest in
    let more = valid_from (r.size - 1) rest in if r.is_error then false else more

abbrev pub is_valid_utf8 : Bytes → Bool
is_valid_utf8 = valid_from 0

-- The bytes of a rune; a surrogate or a number above the last rune is written as U+FFFD.
unfoldable pub encode_rune : ℕ → Bytes
encode_rune r =
    if ltb r 0x80
    then r ∷ []
    else if ltb r 0x800
    then (0xc0 + r / 0x40) ∷ (0x80 + r % 0x40) ∷ []
    else if (leb 0xd800 r && leb r 0xdfff) || ltb 0x10ffff r
    then 0xef ∷ 0xbf ∷ 0xbd ∷ []
    else if ltb r 0x10000
    then (0xe0 + r / 0x1000) ∷ (0x80 + r / 0x40 % 0x40) ∷ (0x80 + r % 0x40) ∷ []
    else (0xf0 + r / 0x40000)
      ∷ (0x80 + r / 0x1000 % 0x40)
      ∷ (0x80 + r / 0x40 % 0x40)
      ∷ (0x80 + r % 0x40)
      ∷ []

unfoldable pub encode : List ℕ → Bytes
encode [] = []
encode (r ∷ rs) = encode_rune r ++ encode rs
