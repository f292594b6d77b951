-- ===== src/Configuration/Subnet.antt =====
-- The static-address test of Validate as arithmetic on addresses, without masks.
use roo_wifi.Base.{
  ℕ, zero, inl, inr, suc, ◌+◌, ◌-◌, ◌*◌, ◌/◌, ◌%◌, ◌^◌, ◌≤◌, ◌<◌, ◌≡◌, refl, ap, ◌≢◌, ◌↔◌, ◌⊎◌,
  Bool, true, false, ◌&&◌, ◌==◌, passes, test_of-passes, bit_and, IsByte, arith,
}
use roo_wifi.Base.Bits.{bit_and-low_mask, bit_and-high_mask, bit_or-disjoint}
use native.Mathlib.Decide.{ℕ_discrete}
use native.Mathlib.Nat.{one-le-pow, mod-eq_of_lt}
use roo_wifi.Types.{Ipv4Address, StaticIpv4}
use roo_wifi.Configuration.{address, is_unicast, subnet_mask, host_mask, is_reserved, bad_static}

pub record IsIp (ip : Ipv4Address) : Type 0 where
  pub byte0_fits : IsByte ip.byte0
  pub byte1_fits : IsByte ip.byte1
  pub byte2_fits : IsByte ip.byte2
  pub byte3_fits : IsByte ip.byte3

-- The address as a number in base 256.
abbrev pub dotted : Ipv4Address → ℕ
dotted ip = ip.byte0 * 2 ^ 24 + ip.byte1 * 2 ^ 16 + ip.byte2 * 2 ^ 8 + ip.byte3

pub address-dotted : (ip : Ipv4Address) → IsIp ip → address ip ≡ dotted ip
unfolding address
address-dotted ip v = ground (
  arith,
  bit_or-disjoint 16 (ip.byte0 * 2 ^ 8) (ip.byte1 * 2 ^ 16),
  bit_or-disjoint 24 ip.byte0 (ip.byte1 * 2 ^ 16),
  bit_or-disjoint 16 (ip.byte0 * 2 ^ 8 + ip.byte1) (ip.byte2 * 2 ^ 8),
  bit_or-disjoint 8 (ip.byte0 * 2 ^ 16 + ip.byte1 * 2 ^ 8 + ip.byte2) ip.byte3,
)

-- The masks of a prefix, by the number of host bits.
masks_agree : ℕ → Bool
masks_agree p =
    subnet_mask (p + 1) == (2 ^ (p + 1) - 1) * 2 ^ (31 - p) && host_mask (p + 1) == 2 ^ (31 - p) - 1

masks_table : passes 30 masks_agree ≡ true
unfolding passes masks_agree
masks_table = refl

pub subnet_mask_lem : (p : ℕ) → 1 ≤ p → p ≤ 30 → subnet_mask p ≡ (2 ^ p - 1) * 2 ^ (32 - p)
unfolding masks_agree
subnet_mask_lem zero h k = elim h [ ]
subnet_mask_lem (suc p) h k = ground (arith, test_of-passes 30 masks_agree p masks_table)

pub host_mask_lem : (p : ℕ) → 1 ≤ p → p ≤ 30 → host_mask p ≡ 2 ^ (32 - p) - 1
unfolding masks_agree
host_mask_lem zero h k = elim h [ ]
host_mask_lem (suc p) h k = ground (arith, test_of-passes 30 masks_agree p masks_table)

powers_table : passes 33 (λ p. 2 ^ p * 2 ^ (32 - p) == 2 ^ 32) ≡ true
unfolding passes
powers_table = refl

powers : (p : ℕ) → p ≤ 30 → 2 ^ p * 2 ^ (32 - p) ≡ 2 ^ 32
powers p h = ground (arith, test_of-passes 33 (λ p. 2 ^ p * 2 ^ (32 - p) == 2 ^ 32) p powers_table)

-- A host number that is neither the network's nor the broadcast address.
abbrev pub IsUsable : ℕ → ℕ → Type 0
IsUsable p ip = (0 < ip % 2 ^ (32 - p)) × (ip % 2 ^ (32 - p) < 2 ^ (32 - p) - 1)

abbrev pub SameSubnet : ℕ → ℕ → ℕ → Type 0
SameSubnet p a b = a / 2 ^ (32 - p) ≡ b / 2 ^ (32 - p)

-- An ordinary unicast address, by its first octet.
abbrev pub IsUnicast : Ipv4Address → Type 0
IsUnicast ip = (dotted ip ≢ 0) × (ip.byte0 < 224) × (ip.byte0 ≢ 127)

pub is_unicast_iff : (ip : Ipv4Address) → IsIp ip → (is_unicast (address ip) ≡ true) ↔ IsUnicast ip
unfolding is_unicast
is_unicast_iff ip v = rw (address-dotted ip v) (ground arith)

pub is_reserved_iff : (p ip : ℕ) → 1 ≤ p → p ≤ 30 → (is_reserved p ip ≡ false) ↔ IsUsable p ip
unfolding is_reserved
is_reserved_iff p ip h k =
    ground (arith, host_mask_lem p h k, bit_and-low_mask (32 - p) ip, one-le-pow (32 - p) 2)

network_part :
    (p a : ℕ)
    → 1 ≤ p
    → p ≤ 30
    → a < 2 ^ 32
    → bit_and a (subnet_mask p) ≡ a / 2 ^ (32 - p) * 2 ^ (32 - p)
network_part p a h k ha =
    let m = 2 ^ (32 - p) in
    let fits : a / m < 2 ^ p = grind (arith, powers p k, one-le-pow (32 - p) 2) in
    rw (subnet_mask_lem p h k, bit_and-high_mask (32 - p) p a)
      (ap (λ (t : ℕ). t * m) (mod-eq_of_lt fits))

pub SameSubnet-iff :
    (p a b : ℕ)
    → 1 ≤ p
    → p ≤ 30
    → a < 2 ^ 32
    → b < 2 ^ 32
    → ((bit_and a (subnet_mask p) == bit_and b (subnet_mask p)) ≡ true) ↔ SameSubnet p a b
SameSubnet-iff p a b h k ha hb =
    rw (network_part p a h k ha, network_part p b h k hb) (grind (arith, one-le-pow (32 - p) 2))

-- The addresses of static settings hold bytes.
pub record IsAddressed (s : StaticIpv4) : Type 0 where
  pub address_ip : IsIp s.address
  pub gateway_ip : IsIp s.gateway
  pub dns1_ip : IsIp s.dns1
  pub dns2_ip : IsIp s.dns2

-- A gateway other than the station, usable in the same subnet.
pub record IsGateway (s : StaticIpv4) : Type 0 where
  pub unicast : IsUnicast s.gateway
  pub usable : IsUsable s.prefix_length (dotted s.gateway)
  pub same_subnet : SameSubnet s.prefix_length (dotted s.gateway) (dotted s.address)
  pub distinct : dotted s.gateway ≢ dotted s.address

-- Static settings that the documentation of Validate describes.
pub record IsStaticPlan (s : StaticIpv4) : Type 0 where
  pub prefix_lower : 1 ≤ s.prefix_length
  pub prefix_upper : s.prefix_length ≤ 30
  pub address_unicast : IsUnicast s.address
  pub address-IsUsable : IsUsable s.prefix_length (dotted s.address)
  pub gateway_fits : (dotted s.gateway ≡ 0) ⊎ IsGateway s
  pub dns1_unicast : IsUnicast s.dns1
  pub dns2_unicast : s.has_dns2 ≡ true → IsUnicast s.dns2

dotted-lt : (ip : Ipv4Address) → IsIp ip → dotted ip < 2 ^ 32
dotted-lt ip v = omega arith

module _ (s : StaticIpv4) (v : IsAddressed s) where
  prefix_bounds : bad_static s ≡ false → (1 ≤ s.prefix_length) × (s.prefix_length ≤ 30)
  unfolding bad_static
  prefix_bounds h = ground arith

  -- The tests of the code, each read as arithmetic.
  module _ (lower : 1 ≤ s.prefix_length) (upper : s.prefix_length ≤ 30) where
    address-IsUsable :
        bad_static s ≡ false → IsUnicast s.address × IsUsable s.prefix_length (dotted s.address)
    unfolding bad_static
    address-IsUsable h = ground (
      arith,
      address-dotted s.address v.address_ip,
      is_unicast_iff s.address v.address_ip,
      is_reserved_iff s.prefix_length (dotted s.address) lower upper,
    )

    gateway_fits : bad_static s ≡ false → (dotted s.gateway ≡ 0) ⊎ IsGateway s
    unfolding bad_static
    gateway_fits h = elim (ℕ_discrete (dotted s.gateway) 0) [
      | yes zero_gw ↦ inl zero_gw
      | no some_gw ↦ inr (
          ground (
            arith,
            address-dotted s.address v.address_ip,
            address-dotted s.gateway v.gateway_ip,
            is_unicast_iff s.gateway v.gateway_ip,
            is_reserved_iff s.prefix_length (dotted s.gateway) lower upper,
            SameSubnet-iff s.prefix_length (dotted s.gateway) (dotted s.address) lower upper
                (dotted-lt s.gateway v.gateway_ip) (dotted-lt s.address v.address_ip),
          ))
    ]

    dns-IsUnicast : bad_static s ≡ false → IsUnicast s.dns1 × (s.has_dns2 ≡ true → IsUnicast s.dns2)
    unfolding bad_static
    dns-IsUnicast h =
        ground (arith, is_unicast_iff s.dns1 v.dns1_ip, is_unicast_iff s.dns2 v.dns2_ip)

  pub good_static-IsStaticPlan : bad_static s ≡ false → IsStaticPlan s
  good_static-IsStaticPlan h =
      let (lower, upper) = prefix_bounds h in
      record {
        prefix_lower = lower;
        prefix_upper = upper;
        address_unicast = (address-IsUsable lower upper h).0;
        address-IsUsable = (address-IsUsable lower upper h).1;
        gateway_fits = gateway_fits lower upper h;
        dns1_unicast = (dns-IsUnicast lower upper h).0;
        dns2_unicast = (dns-IsUnicast lower upper h).1;
      }

  pub IsStaticPlan-good_static : IsStaticPlan s → bad_static s ≡ false
  unfolding bad_static
  IsStaticPlan-good_static plan =
      let a = dotted s.address in
      let g = dotted s.gateway in
      ground (
        arith,
        address-dotted s.address v.address_ip,
        address-dotted s.gateway v.gateway_ip,
        is_unicast_iff s.address v.address_ip,
        is_unicast_iff s.gateway v.gateway_ip,
        is_unicast_iff s.dns1 v.dns1_ip,
        is_unicast_iff s.dns2 v.dns2_ip,
        is_reserved_iff s.prefix_length a plan.prefix_lower plan.prefix_upper,
        is_reserved_iff s.prefix_length g plan.prefix_lower plan.prefix_upper,
        SameSubnet-iff s.prefix_length g a plan.prefix_lower plan.prefix_upper
            (dotted-lt s.gateway v.gateway_ip) (dotted-lt s.address v.address_ip),
      )

-- Static settings pass the tests of Validate exactly when they form a usable plan.
pub bad_static_iff : (s : StaticIpv4) → IsAddressed s → (bad_static s ≡ false) ↔ IsStaticPlan s
bad_static_iff s v = (good_static-IsStaticPlan s v, IsStaticPlan-good_static s v)
