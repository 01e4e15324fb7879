-- ===== src/Destination/Address.antt =====
-- internal/destination/resolver.go, and disallowedIP of internal/destination/validate.go. An address
-- is its number; an IPv4 address in its IPv6 form is an IPv4 address, as the package net reads it.
use rc_pangjiahui.Prelude.{
  ℕ, ◌/◌, ◌%◌, ◌≤◌, ◌<◌, Bool, true, false, not, ◌||◌, ◌&&◌, ◌==◌, ◌≡◌, ◌⊎◌, ◌↔◌, List, [], ◌∷◌,
  arith, any_where,
}

pub data Ip : Type 0 where
  v4 : ℕ → Ip
  v6 : ℕ → Ip

-- The first and the second byte.
abbrev first_byte : Ip → ℕ
first_byte (Ip.v4 n) = n / 0x1000000
first_byte (Ip.v6 n) = n / 0x1000000000000000000000000000000

abbrev second_byte : Ip → ℕ
second_byte (Ip.v4 n) = n / 0x10000 % 0x100
second_byte (Ip.v6 n) = n / 0x10000000000000000000000000000 % 0x100

abbrev third_byte : Ip → ℕ
third_byte (Ip.v4 n) = n / 0x100 % 0x100
third_byte (Ip.v6 n) = n / 0x100000000000000000000000000 % 0x100

abbrev pub is_loopback : Ip → Bool
is_loopback (Ip.v4 n) = first_byte (Ip.v4 n) == 127
is_loopback (Ip.v6 n) = n == 1

abbrev pub is_private : Ip → Bool
is_private (Ip.v4 n) =
    first_byte (Ip.v4 n) == 10
    || (first_byte (Ip.v4 n) == 172 && second_byte (Ip.v4 n) / 16 == 1)
    || (first_byte (Ip.v4 n) == 192 && second_byte (Ip.v4 n) == 168)
is_private (Ip.v6 n) = first_byte (Ip.v6 n) / 2 == 126

abbrev pub is_link_local_unicast : Ip → Bool
is_link_local_unicast (Ip.v4 n) = first_byte (Ip.v4 n) == 169 && second_byte (Ip.v4 n) == 254
is_link_local_unicast (Ip.v6 n) = first_byte (Ip.v6 n) == 254 && second_byte (Ip.v6 n) / 64 == 2

abbrev pub is_link_local_multicast : Ip → Bool
is_link_local_multicast (Ip.v4 n) =
    first_byte (Ip.v4 n) == 224 && second_byte (Ip.v4 n) == 0 && third_byte (Ip.v4 n) == 0
is_link_local_multicast (Ip.v6 n) = first_byte (Ip.v6 n) == 255 && second_byte (Ip.v6 n) % 16 == 2

abbrev pub is_multicast : Ip → Bool
is_multicast (Ip.v4 n) = first_byte (Ip.v4 n) / 16 == 14
is_multicast (Ip.v6 n) = first_byte (Ip.v6 n) == 255

abbrev pub is_unspecified : Ip → Bool
is_unspecified (Ip.v4 n) = n == 0
is_unspecified (Ip.v6 n) = n == 0

unfoldable pub disallowed_ip : Ip → Bool
disallowed_ip ip =
    is_loopback ip
    || is_private ip
    || is_link_local_unicast ip
    || is_link_local_multicast ip
    || is_multicast ip
    || is_unspecified ip

-- Whether there is no error.
unfoldable pub validate_resolved_ips : List Ip → Bool
validate_resolved_ips [] = false
validate_resolved_ips (ip ∷ ips) = not (any_where disallowed_ip (ip ∷ ips))

-- The reserved blocks, as intervals: 0.0.0.0, 10.0.0.0/8, 127.0.0.0/8, 169.254.0.0/16,
-- 172.16.0.0/12, 192.168.0.0/16 and 224.0.0.0/4; ::, ::1, fc00::/7, fe80::/10 and ff00::/8.
abbrev pub IsReserved : Ip → Type 0
IsReserved (Ip.v4 n) =
    (n ≡ 0)
    ⊎ ((0x0a000000 ≤ n) × (n < 0x0b000000))
    ⊎ ((0x7f000000 ≤ n) × (n < 0x80000000))
    ⊎ ((0xa9fe0000 ≤ n) × (n < 0xa9ff0000))
    ⊎ ((0xac100000 ≤ n) × (n < 0xac200000))
    ⊎ ((0xc0a80000 ≤ n) × (n < 0xc0a90000))
    ⊎ ((0xe0000000 ≤ n) × (n < 0xf0000000))
IsReserved (Ip.v6 n) =
    (n ≡ 0)
    ⊎ (n ≡ 1)
    ⊎ ((0xfc000000000000000000000000000000 ≤ n) × (n < 0xfe000000000000000000000000000000))
    ⊎ ((0xfe800000000000000000000000000000 ≤ n) × (n < 0xfec00000000000000000000000000000))
    ⊎ ((0xff000000000000000000000000000000 ≤ n) × (n < 0x100000000000000000000000000000000))

-- An address is disallowed exactly if it lies in one of the reserved blocks.
pub disallowed_ip_iff : (ip : Ip) → (disallowed_ip ip ≡ true) ↔ IsReserved ip
unfolding disallowed_ip
disallowed_ip_iff (Ip.v4 n) = (λ h. ground (arith, h), λ h. ground (arith, h))
disallowed_ip_iff (Ip.v6 n) = (λ h. ground (arith, h), λ h. ground (arith, h))
