-- ===== src/Vpn/Fleet/Provisioner.antt =====
-- internal/vpn/provisioner.go: what the platform sends to the agents of the nodes.
use vpn_price_public.Base.{
  ℕ, Bool, true, false, Option, none, some, List, [], ◌∷◌, if◌then◌else◌, Text, codes, is_empty,
  text_eq,
}
use vpn_price_public.Vpn.Fleet.Model.{Server, no_agent_url, Result, ok}
use vpn_price_public.Vpn.Fleet.Store.{Request, World, M, access, raise, pure}

-- What stands behind the interface.
pub data Provisioner : Type 0 where
  noop agent : Provisioner

-- `NewProvisioner`
unfoldable pub new_provisioner : Text → Provisioner
new_provisioner mode = if text_eq mode (codes "agent") then Provisioner.agent else Provisioner.noop

abbrev pub has_url : Option Text → Bool
has_url none = false
has_url (some url) = if is_empty url then false else true

abbrev pub accepted : ℕ → Text → List (Text × Text) → World → Result (Unit {0}) × World
accepted server path payload w =
    let r : Request = record { server = server; path = path; payload = payload } in
    (ok tt, record w { requests = r ∷ w.requests })

-- `post`: a call that fails, or a status of 300 or more, is a failed access.
unfoldable pub post : Server → Text → List (Text × Text) → M (Unit {0})
post srv path payload =
    if has_url srv.agent_url then access (accepted srv.id path payload) else raise no_agent_url

-- The noop provisioner does nothing but log.
unfoldable pub send : Provisioner → Server → Text → List (Text × Text) → M (Unit {0})
send Provisioner.noop srv path payload = pure tt
send Provisioner.agent srv path payload = post srv path payload

unfoldable pub add_wireguard_peer : Provisioner → Server → Text → Text → Text → M (Unit {0})
unfolding post
add_wireguard_peer p srv public_key preshared_key allowed_ip = send p srv (codes "/wg/peers") (
    (codes "public_key", public_key)
    ∷ (codes "preshared_key", preshared_key)
    ∷ (codes "allowed_ip", allowed_ip)
    ∷ [])

unfoldable pub remove_wireguard_peer : Provisioner → Server → Text → M (Unit {0})
unfolding post
remove_wireguard_peer p srv public_key =
    send p srv (codes "/wg/peers/remove") ((codes "public_key", public_key) ∷ [])

unfoldable pub add_vless_client : Provisioner → Server → Text → M (Unit {0})
unfolding post
add_vless_client p srv uuid = send p srv (codes "/vless/clients") ((codes "uuid", uuid) ∷ [])

unfoldable pub remove_vless_client : Provisioner → Server → Text → M (Unit {0})
unfolding post
remove_vless_client p srv uuid =
    send p srv (codes "/vless/clients/remove") ((codes "uuid", uuid) ∷ [])

unfoldable pub add_shadowsocks_client : Provisioner → Server → Text → Text → M (Unit {0})
unfolding post
add_shadowsocks_client p srv user_key email =
    send p srv (codes "/ss/clients") ((codes "password", user_key) ∷ (codes "email", email) ∷ [])

unfoldable pub remove_shadowsocks_client : Provisioner → Server → Text → M (Unit {0})
unfolding post
remove_shadowsocks_client p srv email =
    send p srv (codes "/ss/clients/remove") ((codes "email", email) ∷ [])

unfoldable pub add_trojan_client : Provisioner → Server → Text → Text → M (Unit {0})
unfolding post
add_trojan_client p srv password email =
    send p srv (codes "/trojan/clients")
      ((codes "password", password) ∷ (codes "email", email) ∷ [])

unfoldable pub remove_trojan_client : Provisioner → Server → Text → M (Unit {0})
unfolding post
remove_trojan_client p srv email =
    send p srv (codes "/trojan/clients/remove") ((codes "email", email) ∷ [])
