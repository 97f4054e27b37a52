-- ===== src/Address/Subnets.antt =====
-- lib/address.cpp, `broadcastAddress`, `networkAddress` and `subnetMask` of both kinds, by what the
-- address is as a number, its first byte the highest.
use Prim.Native.Nat.{bit_and, bit_or, bit_xor}
use native.Mathlib.Nat.{pow-le-pow_right}
use apexstorm.Common.{
  ℕ, zero, suc, ◌+◌, ◌-◌, ◌*◌, ◌/◌, ◌%◌, ◌^◌, ◌≤◌, ◌<◌, ◌≡◌, refl, sym, ap, ◌∙◌, List, [], ◌∷◌,
  false, some, ltb, leb, length, replicate, arith,
}
use apexstorm.Common.Results.{ok, fault}
use apexstorm.Common.Words.{sub64}
use apexstorm.Common.Bits.{bit_xor-ones}
use apexstorm.Common.Bytewise.{
  and-Digitwise, or-Digitwise, xor-Digitwise, pow_pos, bit_or-ones, bit_and-ones,
}
use apexstorm.ByteArray.Integers.{byteswap, to_bytes, of_bytes}
use apexstorm.ByteArray.Integers.RoundTrip.{byteswap_twice}
use apexstorm.Address.{
  create_mask, SockaddrIn, broadcast_address, network_address, subnet_mask, SockaddrIn6, byte_at,
  broadcast_address6, network_address6, subnet_mask6,
}
use apexstorm.Address.Swap.{byteswap-op}

-- The number of addresses in a block of the prefix.
abbrev pub block : ℕ → ℕ
block p = 2 ^ (32 - p)

abbrev pub host_order : SockaddrIn → ℕ
host_order a = byteswap 4 a.addr

block_bound : (p : ℕ) → 0 < p → block p ≤ 2 ^ 31
block_bound p h =
    let exponent : 32 - p ≤ 31 = omega arith in pow-le-pow_right (omega arith) exponent

create_mask-block : (p : ℕ) → 0 < p → p ≤ 32 → create_mask 32 p ≡ ok (block p - 1)
unfolding create_mask
create_mask-block p low high =
    let shift : sub64 32 p ≡ 32 - p = ground arith in
    let fits : (block p - 1) % 2 ^ 32 ≡ block p - 1 =
      omega (arith, block_bound p low, pow_pos (32 - p)) in
    let small : leb 32 (32 - p) ≡ false = ground arith in rw (shift, small, fits) refl

mask_swaps : (p : ℕ) → 0 < p → byteswap 4 (byteswap 4 (block p - 1)) ≡ block p - 1
mask_swaps p low = byteswap_twice 4 (block p - 1) (omega (arith, block_bound p low))

byte_at-length : (bs : List ℕ) (i : ℕ) → length bs ≤ i → byte_at bs i ≡ fault
byte_at-length [] i h = refl
byte_at-length (b ∷ bs) zero h = absurd (omega arith)
byte_at-length (b ∷ bs) (suc i) h = byte_at-length bs i (omega arith)

broadcast_address-last :
    (p : ℕ) (a : SockaddrIn)
    → 0 < p
    → p ≤ 32
    → (b : SockaddrIn) × (broadcast_address p a ≡ ok (some b))
      × (host_order b ≡ block p - 1 + host_order a / block p * block p)
      × (b.port ≡ a.port)
      × (b.family ≡ a.family)
unfolding broadcast_address
broadcast_address-last p a low high =
    let within : ltb 32 p ≡ false = ground arith in
    (
      record a { addr = bit_or a.addr (byteswap 4 (block p - 1)) },
      rw (within, create_mask-block p low high) refl,
      byteswap-op or-Digitwise a.addr (byteswap 4 (block p - 1))
          ∙ ap (bit_or (host_order a)) (mask_swaps p low)
          ∙ bit_or-ones (32 - p) (host_order a),
      refl,
      refl,
    )

network_address-behind :
    (p : ℕ) (a : SockaddrIn)
    → 0 < p
    → p ≤ 32
    → (b : SockaddrIn) × (network_address p a ≡ ok (some b))
      × (host_order b ≡ host_order a % block p)
      × (b.port ≡ a.port)
      × (b.family ≡ a.family)
unfolding network_address
network_address-behind p a low high =
    let within : ltb 32 p ≡ false = ground arith in
    (
      record a { addr = bit_and a.addr (byteswap 4 (block p - 1)) },
      rw (within, create_mask-block p low high) refl,
      byteswap-op and-Digitwise a.addr (byteswap 4 (block p - 1))
          ∙ ap (bit_and (host_order a)) (mask_swaps p low)
          ∙ bit_and-ones (32 - p) (host_order a),
      refl,
      refl,
    )

byteswap_bound : (v : ℕ) → byteswap 4 v < 2 ^ 32
unfolding byteswap to_bytes of_bytes
byteswap_bound v = omega arith

byteswap_ones : byteswap 4 (2 ^ 32 - 1) ≡ 2 ^ 32 - 1
unfolding byteswap to_bytes of_bytes
byteswap_ones = refl

subnet_mask-complement :
    (p : ℕ)
    → 0 < p
    → p ≤ 32
    → (m : SockaddrIn) × (subnet_mask p ≡ ok m) × (host_order m ≡ 2 ^ 32 - block p)
unfolding subnet_mask
subnet_mask-complement p low high =
    let swapped = byteswap 4 (block p - 1) in
    let ones = 2 ^ 32 - 1 in
    let complement : ones - swapped ≡ bit_xor swapped ones =
      sym (bit_xor-ones 32 swapped (byteswap_bound (block p - 1))) in
    (
      record { family = 2; port = 0; addr = ones - swapped },
      rw (create_mask-block p low high) refl,
      ap (byteswap 4) complement
          ∙ byteswap-op xor-Digitwise swapped ones
          ∙ ap (bit_xor (byteswap 4 swapped)) byteswap_ones
          ∙ ap (λ m. bit_xor m ones) (mask_swaps p low)
          ∙ bit_xor-ones 32 (block p - 1) (omega (arith, block_bound p low))
          ∙ omega (arith, block_bound p low, pow_pos (32 - p)),
    )

-- For a prefix of 1 to 32 bits, `broadcastAddress` answers the last address of the block: the
-- prefix is kept and every bit behind it is set. `networkAddress` keeps the part behind the prefix,
-- and clears the prefix that names the network. The mask of `subnetMask` has the ones of the
-- prefix.
pub subnets-parts :
    (p : ℕ) (a : SockaddrIn)
    → 0 < p
    → p ≤ 32
    → ((b : SockaddrIn) × (broadcast_address p a ≡ ok (some b))
        × (host_order b ≡ block p - 1 + host_order a / block p * block p)
        × (b.port ≡ a.port)
        × (b.family ≡ a.family))
      × ((n : SockaddrIn) × (network_address p a ≡ ok (some n))
          × (host_order n ≡ host_order a % block p)
          × (n.port ≡ a.port)
          × (n.family ≡ a.family))
      × ((m : SockaddrIn) × (subnet_mask p ≡ ok m) × (host_order m ≡ 2 ^ 32 - block p))
subnets-parts p a low high = (
  broadcast_address-last p a low high,
  network_address-behind p a low high,
  subnet_mask-complement p low high,
)

-- With a prefix of 0, which names all addresses, the three operations of IPv4 shift an `int` by its
-- width, and with a prefix of 128 bits or more those of IPv6 take a byte behind the address.
pub subnets-fault :
    (a : SockaddrIn) (a6 : SockaddrIn6) (p : ℕ)
    → length a6.bytes ≡ 16
    → 128 ≤ p
    → (broadcast_address 0 a ≡ fault)
      × (network_address 0 a ≡ fault)
      × (subnet_mask 0 ≡ fault)
      × (broadcast_address6 p a6 ≡ fault)
      × (network_address6 p a6 ≡ fault)
      × (subnet_mask6 p ≡ fault)
unfolding broadcast_address network_address subnet_mask broadcast_address6 network_address6
    subnet_mask6 create_mask
subnets-fault a a6 p e h =
    let behind = λ (bs : List ℕ) (l : length bs ≡ 16). byte_at-length bs (p / 8) (omega arith) in
    (
      refl,
      refl,
      refl,
      rw (behind a6.bytes e) refl,
      rw (behind a6.bytes e) refl,
      rw (behind (replicate 16 0) refl) refl,
    )
