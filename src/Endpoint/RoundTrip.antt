-- ===== src/Endpoint/RoundTrip.antt =====
-- What the getters return of an endpoint that was constructed.
use my_server_project.Common.{
  ℕ, ◌+◌, ◌/◌, ◌%◌, ◌^◌, ◌≤◌, ◌<◌, ◌≡◌, ◌≢◌, ◌⊎◌, inl, inr, Bool-cases, zero, suc, refl, sym, ap,
  ◌∙◌, some, List, [], ◌∷◌, length, ◌==◌, Memory, load, store, load-store_self, load-store_before,
  load-store_after, load_ext, arith,
}
use my_server_project.Endpoint.{
  IpVersion, no_version, ipv4, ipv6, af_inet, af_inet6, family_offset, port_offset, value, load_u16,
  store_u16, swap_bytes, construct_sockaddr, InetPton, write_address, construct_text,
  get_ip_version, InetNtop, get_ip_address_string, get_port,
}

swap_bytes-swap_bytes : (v : ℕ) → v < 2 ^ 16 → swap_bytes (swap_bytes v) ≡ v
unfolding swap_bytes
swap_bytes-swap_bytes v h = omega arith

swap_bytes-lt : (v : ℕ) → swap_bytes v < 2 ^ 16
unfolding swap_bytes
swap_bytes-lt v = omega arith

load_u16-store_u16 : (m : Memory) (at v : ℕ) → v < 2 ^ 16 → load_u16 (store_u16 m at v) at ≡ v
unfolding load_u16 store_u16 value
load_u16-store_u16 m at v h =
    ap value (load-store_self m at (v % 256 ∷ v / 256 % 256 ∷ []) {n = 2} refl) ∙ omega arith

load-store_u16 : (m : Memory) (at v b n : ℕ) → at + 2 ≤ b → load (store_u16 m at v) b n ≡ load m b n
unfolding store_u16
load-store_u16 m at v b n h = load-store_after m at (v % 256 ∷ v / 256 % 256 ∷ []) b n (omega arith)

load_u16-store_u16_before :
    (m : Memory) (at v b : ℕ) → b + 2 ≤ at → load_u16 (store_u16 m at v) b ≡ load_u16 m b
unfolding load_u16 store_u16
load_u16-store_u16_before m at v b h =
    ap value (load-store_before m at (v % 256 ∷ v / 256 % 256 ∷ []) b 2 (omega arith))

-- What a storage says: its family, its port, and the bytes of its address.
pub record Says (m : Memory) (family at port : ℕ) (bytes : List ℕ) : Type 0 where
  pub says_family : load_u16 m family_offset ≡ family
  pub says_port : swap_bytes (load_u16 m port_offset) ≡ port
  pub says_address : load m at (length bytes) ≡ bytes

write_address-Says :
    (raw : Memory) (family at port : ℕ) (bytes : List ℕ)
    → family < 2 ^ 16
    → port < 2 ^ 16
    → 4 ≤ at
    → Says (write_address raw family at port (some bytes)) family at port bytes
unfolding write_address
write_address-Says raw family at port bytes f p h =
    let m1 = store raw at bytes in
    let m2 = store_u16 m1 family_offset family in
    record {
      says_family =
          load_u16-store_u16_before m2 port_offset (swap_bytes port) family_offset (omega arith)
          ∙ load_u16-store_u16 m1 family_offset family f;
      says_port =
          ap swap_bytes (load_u16-store_u16 m2 port_offset (swap_bytes port) (swap_bytes-lt port))
          ∙ swap_bytes-swap_bytes port p;
      says_address =
          load-store_u16 m2 port_offset (swap_bytes port) at (length bytes) (omega arith)
          ∙ load-store_u16 m1 family_offset family at (length bytes) (omega arith)
          ∙ load-store_self raw at bytes refl;
    }

-- The family, and the place and size of the address, of a version.
abbrev pub family_of : IpVersion → ℕ
family_of no_version = 0
family_of ipv4 = af_inet
family_of ipv6 = af_inet6

abbrev pub address_size : IpVersion → ℕ
address_size no_version = 0
address_size ipv4 = 4
address_size ipv6 = 16

-- When `inet_pton` accepts the text and writes an address of the version's size, the endpoint has the
-- version and the 16-bit port that it was given, and its text is that of the address's bytes.
pub construct_text-getters :
    (pton : InetPton) (ntop : InetNtop) (raw : Memory) (version : IpVersion) (text : List ℕ)
    (port : ℕ) (bytes : List ℕ)
    → version ≢ no_version
    → pton (family_of version) text ≡ some bytes
    → length bytes ≡ address_size version
    → port < 2 ^ 16
    → let m = construct_text pton raw version text port in
      (get_ip_version m ≡ version)
      × (get_port m ≡ port)
      × (get_ip_address_string ntop m ≡ ntop (family_of version) bytes)
unfolding construct_text get_ip_version get_port get_ip_address_string
construct_text-getters pton ntop raw no_version text port bytes v e n p = absurd (v refl)
construct_text-getters pton ntop raw ipv4 text port bytes v e n p =
    let says = write_address-Says raw af_inet 4 port bytes (omega arith) p (omega arith) in
    rw (e, says.says_family)
      (refl, says.says_port, ap (ntop af_inet) (ap (load _ 4) (sym n) ∙ says.says_address))
construct_text-getters pton ntop raw ipv6 text port bytes v e n p =
    let says = write_address-Says raw af_inet6 8 port bytes (omega arith) p (omega arith) in
    rw (e, says.says_family)
      (refl, says.says_port, ap (ntop af_inet6) (ap (load _ 8) (sym n) ∙ says.says_address))

store-load : (raw m : Memory) (a n i : ℕ) → a ≤ i → i < a + n → store raw a (load m a n) i ≡ m i
unfolding store load
store-load raw m a zero i h l = absurd (omega arith)
store-load raw m a (suc n) i h l = elim (Bool-cases (i == a)) [
  | inl e ↦ let same : i ≡ a = ground arith in rw (e, same) refl
  | inr e ↦ rw e (store-load raw m (suc a) n i (ground arith) (omega arith))
]

-- A block of a copy is that of the original.
load-copy :
    (raw m : Memory) (n b k : ℕ) → b + k ≤ n → load (store raw 0 (load m 0 n)) b k ≡ load m b k
load-copy raw m n b k h =
    load_ext _ m b k (λ i p q. store-load raw m 0 n i (omega arith) (omega arith))

load_u16-copy :
    (raw m : Memory) (n b : ℕ) → b + 2 ≤ n → load_u16 (store raw 0 (load m 0 n)) b ≡ load_u16 m b
unfolding load_u16
load_u16-copy raw m n b h = ap value (load-copy raw m n b 2 h)

-- An endpoint made from the socket address of one of the two families has its version, its port and
-- its text, whatever lay in the storage.
pub construct_sockaddr-getters :
    (ntop : InetNtop) (raw m : Memory)
    → (load_u16 m family_offset ≡ af_inet) ⊎ (load_u16 m family_offset ≡ af_inet6)
    → let c = construct_sockaddr raw m in
      (get_ip_version c ≡ get_ip_version m)
      × (get_port c ≡ get_port m)
      × (get_ip_address_string ntop c ≡ get_ip_address_string ntop m)
unfolding construct_sockaddr get_ip_version get_port get_ip_address_string
construct_sockaddr-getters ntop raw m (inl e) =
    rw
      (
        e,
        load_u16-copy raw m 16 family_offset (omega arith),
        load_u16-copy raw m 16 port_offset (omega arith),
        e,
        load-copy raw m 16 4 4 (omega arith),
      )
      (refl, refl, refl)
construct_sockaddr-getters ntop raw m (inr e) =
    rw
      (
        e,
        load_u16-copy raw m 28 family_offset (omega arith),
        load_u16-copy raw m 28 port_offset (omega arith),
        e,
        load-copy raw m 28 8 16 (omega arith),
      )
      (refl, refl, refl)
