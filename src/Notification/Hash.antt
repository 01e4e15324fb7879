-- ===== src/Notification/Hash.antt =====
-- internal/notification/hash.go. The canonical form of a JSON document (encoding/json) and SHA-256
-- are parameters.
use Prim.Native.Char.{code}
use Prim.Native.String.{String}
use rc_pangjiahui.Prelude.{
  ℕ, ◌+◌, ◌/◌, ◌%◌, ◌≡◌, ◌≢◌, refl, Option, none, some, [], ◌∷◌, ◌++◌, ltb, if◌then◌else◌, All,
}
use rc_pangjiahui.Notification.Model.{Bytes}

-- The bytes of a code point in UTF-8.
abbrev pub encode : ℕ → Bytes
encode c =
    if ltb c 0x80
    then c ∷ []
    else if ltb c 0x800
    then (0xc0 + c / 0x40) ∷ (0x80 + c % 0x40) ∷ []
    else if ltb c 0x10000
    then (0xe0 + c / 0x1000) ∷ (0x80 + c / 0x40 % 0x40) ∷ (0x80 + c % 0x40) ∷ []
    else (0xf0 + c / 0x40000)
      ∷ (0x80 + c / 0x1000 % 0x40)
      ∷ (0x80 + c / 0x40 % 0x40)
      ∷ (0x80 + c % 0x40)
      ∷ []

abbrev pub utf8 : String → Bytes
utf8 String.[] = []
utf8 (String.◌∷◌ c s) = encode (code c) ++ utf8 s

-- What is hashed: the destination, a zero byte, and the canonical payload.
unfoldable pub hash_input : String → Bytes → Bytes
hash_input destination canonical = utf8 destination ++ 0 ∷ canonical

-- `canonical` is none where the payload is not one JSON value.
unfoldable pub request_hash :
    (Bytes → Option Bytes) → (Bytes → Bytes) → String → Bytes → Option Bytes
unfolding hash_input
request_hash canonical sha256 destination payload = elim (canonical payload) [
  | none ↦ none
  | some c ↦ some (sha256 (hash_input destination c))
]

split_at_zero :
    (a b c d : Bytes)
    → All (λ x. x ≢ 0) a
    → All (λ x. x ≢ 0) b
    → a ++ 0 ∷ c ≡ b ++ 0 ∷ d
    → (a ≡ b) × (c ≡ d)
split_at_zero [] [] c d ha hb e = (refl, cc)
split_at_zero [] (y ∷ b) c d ha hb e = absurd (hb.0 (cc))
split_at_zero (x ∷ a) [] c d ha hb e = absurd (ha.0 (cc))
split_at_zero (x ∷ a) (y ∷ b) c d ha hb e =
    let (same, rest) = split_at_zero a b c d ha.1 hb.1 (cc) in (cc, rest)

-- Requests to destinations whose names hold no zero byte have the same input of the hash only for
-- the same name and the same canonical payload.
pub hash_input-injective :
    (d e : String) (c c' : Bytes)
    → All (λ x. x ≢ 0) (utf8 d)
    → All (λ x. x ≢ 0) (utf8 e)
    → hash_input d c ≡ hash_input e c'
    → (utf8 d ≡ utf8 e) × (c ≡ c')
unfolding hash_input
hash_input-injective d e c c' hd he h = split_at_zero (utf8 d) (utf8 e) c c' hd he h
