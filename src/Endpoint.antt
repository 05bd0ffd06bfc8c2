-- ===== src/Endpoint.antt =====
-- Addresses (src/lib-core/src/Network/Endpoint.cpp and
-- src/lib-core/include/core/Network/Endpoint.hpp): a `sockaddr_storage` as its bytes on a
-- little-endian machine. The child holds what the getters return of what was constructed.
pub mod RoundTrip
mod Tests
use my_server_project.Common.{
  ℕ, ◌+◌, ◌*◌, ◌/◌, ◌%◌, Bool, true, false, Option, none, some, List, [], ◌∷◌, ◌==◌, if◌then◌else◌,
  Memory, load, store,
}

-- `eIPVersion`.
pub data IpVersion : Type 0 where
  no_version ipv4 ipv6 : IpVersion

-- `AF_INET` and `AF_INET6` of the system's headers.
abbrev pub af_inet : ℕ
af_inet = 2

abbrev pub af_inet6 : ℕ
af_inet6 = 10

-- Where the fields of `sockaddr_in` and `sockaddr_in6` lie.
abbrev pub family_offset : ℕ
family_offset = 0

abbrev pub port_offset : ℕ
port_offset = 2

-- Bytes as a number, the lowest first.
unfoldable pub value : List ℕ → ℕ
value [] = 0
value (b ∷ bs) = b + 256 * value bs

unfoldable pub load_u16 : Memory → ℕ → ℕ
unfolding value load
load_u16 m at = value (load m at 2)

unfoldable pub store_u16 : Memory → ℕ → ℕ → Memory
unfolding store
store_u16 m at v = store m at (v % 256 ∷ v / 256 % 256 ∷ [])

-- `htons` and `ntohs`: the two bytes change places.
unfoldable pub swap_bytes : ℕ → ℕ
swap_bytes v = v % 256 * 256 + v / 256 % 256

-- The first constructor copies a `sockaddr_in` (16 bytes) or a `sockaddr_in6` (28 bytes); of any
-- other family nothing.
unfoldable pub construct_sockaddr : Memory → Memory → Memory
unfolding load_u16 load store
construct_sockaddr raw addr =
    if load_u16 addr family_offset == af_inet
    then store raw 0 (load addr 0 16)
    else if load_u16 addr family_offset == af_inet6
    then store raw 0 (load addr 0 28)
    else raw

-- `inet_pton` is the system's: the address's bytes for a text that it accepts.
abbrev pub InetPton : Type 0
InetPton = ℕ → List ℕ → Option (List ℕ)

-- The second constructor after `inet_pton` wrote to `at`; `none` is a result other than 1.
unfoldable pub write_address : Memory → ℕ → ℕ → ℕ → Option (List ℕ) → Memory
unfolding store_u16 swap_bytes store
write_address raw family at port none = raw
write_address raw family at port (some bytes) =
    store_u16 (store_u16 (store raw at bytes) family_offset family) port_offset (swap_bytes port)

unfoldable pub construct_text : InetPton → Memory → IpVersion → List ℕ → ℕ → Memory
unfolding write_address
construct_text pton raw no_version text port = raw
construct_text pton raw ipv4 text port = write_address raw af_inet 4 port (pton af_inet text)
construct_text pton raw ipv6 text port = write_address raw af_inet6 8 port (pton af_inet6 text)

unfoldable pub get_ip_version : Memory → IpVersion
unfolding load_u16
get_ip_version m =
    if load_u16 m family_offset == af_inet
    then ipv4
    else if load_u16 m family_offset == af_inet6
    then ipv6
    else no_version

-- `inet_ntop` is the system's, for the buffer it is given; `none` is a null pointer.
abbrev pub InetNtop : Type 0
InetNtop = ℕ → List ℕ → Option (List ℕ)

-- The text written, or `none` for -1.
unfoldable pub get_ip_address_string : InetNtop → Memory → Option (List ℕ)
unfolding load_u16 load
get_ip_address_string ntop m =
    if load_u16 m family_offset == af_inet
    then ntop af_inet (load m 4 4)
    else if load_u16 m family_offset == af_inet6
    then ntop af_inet6 (load m 8 16)
    else none

unfoldable pub get_port : Memory → ℕ
unfolding load_u16 swap_bytes
get_port m =
    if load_u16 m family_offset == af_inet
    then swap_bytes (load_u16 m port_offset)
    else if load_u16 m family_offset == af_inet6
    then swap_bytes (load_u16 m port_offset)
    else 0
