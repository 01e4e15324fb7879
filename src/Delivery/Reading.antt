-- ===== src/Delivery/Reading.antt =====
-- What internal/delivery/http_sender.go makes of texts: sanitize, and the numbers of parseRetryAfter.
use rc_pangjiahui.Prelude.{
  ℕ, ◌+◌, ◌-◌, ◌*◌, ◌%◌, String, Bool, true, false, not, ◌||◌, ◌&&◌, ◌==◌, ltb, leb, leb_ℤ, ℤ, pos,
  negsuc, Option, none, some, List, [], ◌∷◌, map, length, take, if◌then◌else◌,
}
use Prim.Native.Char.{code}
use rc_pangjiahui.Text.Utf8.{runes, encode}
use rc_pangjiahui.Notification.Model.{Bytes}

-- The mapping of sanitize.
abbrev pub clean : ℕ → ℕ
clean r = if ltb r 0x20 && not (r == 0x09) then 0x20 else r

unfoldable pub sanitize : Bytes → ℕ → Bytes
sanitize value limit =
    let cleaned = encode (map clean (runes value)) in
    if ltb limit (length cleaned) then take limit cleaned else cleaned

-- strconv.Atoi
abbrev pub codes : String → List ℕ
codes String.[] = []
codes (String.◌∷◌ c s) = code c ∷ codes s

unfoldable pub digits : ℕ → List ℕ → Option ℕ
digits n [] = some n
digits n (c ∷ cs) =
    let rest = digits (n * 10 + (c - 0x30)) cs in if leb 0x30 c && leb c 0x39 then rest else none

abbrev pub number : List ℕ → Option ℕ
number [] = none
number (c ∷ cs) = digits 0 (c ∷ cs)

abbrev pub in_int64 : ℤ → Bool
in_int64 n = leb_ℤ (negsuc 9_223_372_036_854_775_807) n && leb_ℤ n (pos 9_223_372_036_854_775_807)

abbrev pub signed : Bool → ℕ → ℤ
signed false n = pos n
signed true n = if n == 0 then pos 0 else negsuc (n - 1)

abbrev pub checked : ℤ → Option ℤ
checked n = if in_int64 n then some n else none

unfoldable pub atoi : String → Option ℤ
unfolding digits
atoi s = elim (codes s) [
  | [] ↦ none
  | c ∷ cs ↦
      let is_negative = c == 0x2d in
      let unsigned = number (if is_negative || c == 0x2b then cs else c ∷ cs) in
      elim unsigned [ none ↦ none | some n ↦ checked (signed is_negative n) ]
]

-- The int64 with the given bits.
unfoldable pub wrap64 : ℕ → ℤ
wrap64 n =
    let m = n % 18_446_744_073_709_551_616 in
    if ltb m 9_223_372_036_854_775_808 then pos m else negsuc (18_446_744_073_709_551_615 - m)

-- time.Duration(seconds) * time.Second, a product of two values of 64 bits.
abbrev pub seconds_duration : ℕ → ℤ
seconds_duration n = wrap64 (n * 1_000_000_000)
