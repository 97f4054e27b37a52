-- ===== src/Address/Tests.antt =====
-- Runs on the addresses of a local network, and on short texts.
use apexstorm.Common.{
  ℕ, ◌+◌, ◌-◌, ◌*◌, ◌/◌, ◌%◌, ◌^◌, ◌≡◌, ◌⊎◌, refl, List, [], ◌∷◌, true, false, some, arith,
}
use apexstorm.Common.Results.{ok}
use apexstorm.Address.{
  SockaddrIn, SockaddrIn6, broadcast_address, network_address, subnet_mask, broadcast_address6,
  network_address6, subnet_mask6, less, equal, UnixAddress, new_unix, insert_unix, lookup_parts,
  count_bytes, new_ipv4,
}
use apexstorm.Address.Subnets.{block, host_order, subnets-parts}
use apexstorm.Address.Order.{less-trichotomy}

-- 192.168.1.77
abbrev local : SockaddrIn
local = record { family = 2; port = 0x1f90; addr = 0x4d01a8c0 }

-- The block of 24 bits ends with 192.168.1.255, and its host is 0.0.0.77.
subnets_test : broadcast_address 24 local ≡ ok (some (record local { addr = 0xff01a8c0 }))
unfolding broadcast_address apexstorm.Address.create_mask apexstorm.ByteArray.Integers.byteswap
    apexstorm.ByteArray.Integers.of_bytes apexstorm.ByteArray.Integers.to_bytes
subnets_test = refl

subnets-parts_example :
    ((b : SockaddrIn) × (broadcast_address 24 local ≡ ok (some b))
      × (host_order b ≡ block 24 - 1 + host_order local / block 24 * block 24)
      × (b.port ≡ local.port)
      × (b.family ≡ local.family))
    × ((n : SockaddrIn) × (network_address 24 local ≡ ok (some n))
        × (host_order n ≡ host_order local % block 24)
        × (n.port ≡ local.port)
        × (n.family ≡ local.family))
    × ((m : SockaddrIn) × (subnet_mask 24 ≡ ok m) × (host_order m ≡ 2 ^ 32 - block 24))
subnets-parts_example = subnets-parts 24 local (omega arith) (omega arith)

abbrev loopback : SockaddrIn6
loopback = record {
  port = 0;
  bytes = 0 ∷ 0 ∷ 0 ∷ 0 ∷ 0 ∷ 0 ∷ 0 ∷ 0 ∷ 0 ∷ 0 ∷ 0 ∷ 0 ∷ 0 ∷ 0 ∷ 0 ∷ 1 ∷ [];
}

abbrev low : List ℕ
low = 1 ∷ []

abbrev high : List ℕ
high = 2 ∷ []

less-trichotomy_example :
    (((less low high ≡ true) × (equal low high ≡ false) × (less high low ≡ false))
      ⊎ (((low ≡ high)
            × (less low high ≡ false)
            × (equal low high ≡ true)
            × (less high low ≡ false))
          ⊎ ((less low high ≡ false) × (equal low high ≡ false) × (less high low ≡ true))))
    × ((m : List ℕ) → less low m ≡ true → less m high ≡ true → less low high ≡ true)
less-trichotomy_example = less-trichotomy low high
