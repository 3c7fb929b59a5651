-- ===== src/Vpn/Wireguard.antt =====
-- internal/vpn/wireguard.go: client addresses and the text of a client's configuration.
use mathlib.Core.List.{filter_map}
use vpn_price_public.Base.{
  ℕ, zero, suc, ◌+◌, ◌-◌, ◌^◌, Bool, true, false, Option, none, some, List, [], ◌∷◌, ◌++◌, ◌==◌,
  ltb, if◌then◌else◌, any, u32, max_u32, Text, codes, trim_space, is_empty,
}
use vpn_price_public.Vpn.Net.{Network, parse_cidr, parse_ip4, ip_text, cut}
use vpn_price_public.Vpn.Routing.AllowedIps.{full_allowed_ips}
pub mod Lowest

pub data AllocationError : Type 0 where
  bad_subnet : AllocationError  -- no CIDR, or one of IPv6
  subnet_exhausted : AllocationError

pub data Allocation : Type 0 where
  ok : Text → Allocation
  err : AllocationError → Allocation

abbrev before_mask : Text → Option (Text × Text) → Text
before_mask u none = u
before_mask u (some (host, mask)) = host

-- The address that an entry of `used` stands for.
unfoldable pub used_address : Text → Option ℕ
unfolding cut
used_address u = parse_ip4 (trim_space (before_mask u (cut b'/' u)))

abbrev is_some_of : ℕ → Option ℕ → Bool
is_some_of ip none = false
is_some_of ip (some v) = v == ip

-- `_, ok := taken[ip]`
unfoldable pub is_taken : List Text → ℕ → Bool
unfolding used_address
is_taken used ip = any (λ u. is_some_of ip (used_address u)) used

-- The loop over the offsets; the fuel is how many are left.
unfoldable pub free_from : ℕ → ℕ → ℕ → ℕ → List Text → Option ℕ
free_from zero offset end network used = none
free_from (suc fuel) offset end network used =
    let rest = free_from fuel (suc offset) end network used in
    if ltb offset end
    then (if is_taken used (u32 (network + offset)) then rest else some (u32 (network + offset)))
    else none

abbrev pub host_text : ℕ → Text
host_text ip = ip_text ip ++ codes "/32"

abbrev allocation_of : Option ℕ → Allocation
allocation_of none = err subnet_exhausted
allocation_of (some ip) = ok (host_text ip)

abbrev pub allocate_in : List Text → Option Network → Allocation
allocate_in used none = err bad_subnet
allocate_in used (some n) =
    let end : ℕ = u32 (u32 (2 ^ (32 - n.ones)) + max_u32) in
    allocation_of (free_from (end - 2) 2 end n.ip4 used)

unfoldable pub allocate_wireguard_ip : Text → List Text → Allocation
unfolding free_from
allocate_wireguard_ip subnet used = allocate_in used (parse_cidr subnet)

pub record WgParams : Type 0 where
  pub client_private_key : Text
  pub client_address : Text
  pub dns : Text
  pub server_public_key : Text
  pub preshared_key : Text
  pub endpoint : Text
  pub allowed_ips : Text

abbrev pub newline : Text
newline = 10 ∷ []

-- `fmt.Fprintf(&b, "key = %s\n", value)`
abbrev pub setting : Text → Text → Text
setting key value = key ++ (codes " = " ++ (value ++ newline))

unfoldable pub render_wireguard_config : WgParams → Text
render_wireguard_config p =
    (codes "[Interface]" ++ newline)
    ++ (setting (codes "PrivateKey") p.client_private_key
        ++ (setting (codes "Address") p.client_address
            ++ ((if is_empty p.dns then [] else setting (codes "DNS") p.dns)
                ++ ((newline ++ (codes "[Peer]" ++ newline))
                    ++ (setting (codes "PublicKey") p.server_public_key
                        ++ ((if is_empty p.preshared_key
                              then []
                              else setting (codes "PresharedKey") p.preshared_key)
                            ++ (setting (codes "AllowedIPs") (
                                  if is_empty p.allowed_ips
                                  then full_allowed_ips
                                  else p.allowed_ips)
                                ++ (setting (codes "Endpoint") p.endpoint
                                    ++ (codes "PersistentKeepalive = 25" ++ newline)))))))))
