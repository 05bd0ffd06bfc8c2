-- ===== src/Endpoint/Tests.antt =====
-- The endpoint's theorems at concrete addresses.
use my_server_project.Common.{ℕ, ◌≡◌, refl, none, some, List, [], ◌∷◌, Memory, load, store, arith}
use my_server_project.Endpoint.{
  ipv4, value, InetPton, construct_text, get_ip_version, InetNtop, get_ip_address_string, get_port,
}
use my_server_project.Endpoint.RoundTrip.{construct_text-getters}

-- An `inet_pton` that takes a text of four characters for the bytes of an address, and back.
abbrev pton : InetPton
pton family (a ∷ b ∷ c ∷ d ∷ []) = some (a ∷ b ∷ c ∷ d ∷ [])
pton family text = none

abbrev ntop : InetNtop
ntop family bytes = some bytes

abbrev garbage : Memory
garbage i = 255

abbrev loopback : List ℕ
loopback = 127 ∷ 0 ∷ 0 ∷ 1 ∷ []

-- Family 2, port 7799, in the network's order.
abbrev accepted_address : Memory
accepted_address = store (λ i. 0) 0 (2 ∷ 0 ∷ 30 ∷ 119 ∷ 127 ∷ 0 ∷ 0 ∷ 1 ∷ [])

construct_text-getters_example :
    (get_ip_version (construct_text pton garbage ipv4 loopback 7799) ≡ ipv4)
    × (get_port (construct_text pton garbage ipv4 loopback 7799) ≡ 7799)
    × (get_ip_address_string ntop (construct_text pton garbage ipv4 loopback 7799) ≡ some loopback)
construct_text-getters_example =
    construct_text-getters pton ntop garbage ipv4 loopback 7799 loopback (λ e. cc) refl refl
      (omega arith)

port_of_accepted : get_port accepted_address ≡ 7799
unfolding get_port load store value
port_of_accepted = refl
