-- ===== src/Agent/Server.antt =====
-- cmd/agent/main.go: the routes and the handlers of the agent.
use vpn_price_public.Base.{
  ℕ, true, false, Option, none, some, [], ◌++◌, if◌then◌else◌, Text, text_eq, codes,
}
use vpn_price_public.Base.Json.{Json, Members, get}
use vpn_price_public.Agent.Xray.{Outcome, ok, err}
use vpn_price_public.Agent.Node.{
  Agent, Node, edit_xray_clients, edit_vless, ss_client, trojan_client, add_wg_peer, remove_wg_peer,
}

-- The header `Authorization`, the path, and the body if it is an object of JSON. All requests that
-- change the node are POST requests.
pub record Request : Type 0 where
  pub authorization : Text
  pub path : Text
  pub body : Option Members

-- The status code, and the one member of the body.
pub record Response : Type 0 where
  pub code : ℕ
  pub key : Text
  pub text : Text

abbrev pub reply : ℕ → Text → Text → Response
reply code key text = record { code = code; key = key; text = text }

-- A field of type string: absent and null leave it empty, another type is an error.
abbrev pub text_of : Json → Option Text
text_of Json.null = some []
text_of (Json.string t) = some t
text_of _ = none

abbrev pub field_of : Option Members → Text → Option Text
field_of none key = none
field_of (some m) key = text_of (get key m)

abbrev pub invalid_body : Response
invalid_body = reply 400 (codes "error") (codes "invalid body")

-- `fail`, or the status of success
abbrev pub answer : Text → Text → Outcome (Unit {0}) × Node → Response × Node
answer context done (ok u, n) = (reply 200 (codes "status") done, n)
answer context done (err e, n) = (reply 500 (codes "error") context, n)

-- `decode`, then the handler
abbrev pub with_text : Option Text → (Text → Node → Response × Node) → Node → Response × Node
with_text none f n = (invalid_body, n)
with_text (some t) f n = f t n

module _ (a : Agent) where
  unfoldable pub add_wg : Option Members → Node → Response × Node
  unfolding add_wg_peer
  add_wg body = with_text (field_of body (codes "public_key")) λ key.
      with_text (field_of body (codes "preshared_key")) λ psk.
        with_text (field_of body (codes "allowed_ip"))
          λ ip n. answer (codes "wg set peer") (codes "added") (add_wg_peer a key psk ip n)

  unfoldable pub remove_wg : Option Members → Node → Response × Node
  unfolding remove_wg_peer
  remove_wg body =
      with_text (field_of body (codes "public_key"))
        λ key n. answer (codes "wg remove peer") (codes "removed") (remove_wg_peer a key n)

  unfoldable pub add_vless : Option Members → Node → Response × Node
  unfolding edit_vless
  add_vless body =
      with_text (field_of body (codes "uuid"))
        λ uuid n. answer (codes "add vless client") (codes "added") (edit_vless a uuid true n)

  unfoldable pub remove_vless : Option Members → Node → Response × Node
  unfolding edit_vless
  remove_vless body =
      with_text (field_of body (codes "uuid"))
        λ uuid n. answer (codes "remove vless client") (codes "removed") (edit_vless a uuid false n)

  unfoldable pub add_ss : Option Members → Node → Response × Node
  unfolding edit_xray_clients
  add_ss body = with_text (field_of body (codes "password")) λ password.
      with_text (field_of body (codes "email")) λ email n.
        answer (codes "add ss client") (codes "added") (
          edit_xray_clients a a.xray_ss_tag (codes "email") email true (ss_client a password email)
            n)

  unfoldable pub remove_ss : Option Members → Node → Response × Node
  unfolding edit_xray_clients
  remove_ss body = with_text (field_of body (codes "email")) λ email n.
      answer (codes "remove ss client") (codes "removed")
        (edit_xray_clients a a.xray_ss_tag (codes "email") email false Json.null n)

  unfoldable pub add_trojan : Option Members → Node → Response × Node
  unfolding edit_xray_clients
  add_trojan body = with_text (field_of body (codes "password")) λ password.
      with_text (field_of body (codes "email")) λ email n.
        answer (codes "add trojan client") (codes "added") (
          edit_xray_clients a a.xray_trojan_tag (codes "email") email true
            (trojan_client a password email) n)

  unfoldable pub remove_trojan : Option Members → Node → Response × Node
  unfolding edit_xray_clients
  remove_trojan body = with_text (field_of body (codes "email")) λ email n.
      answer (codes "remove trojan client") (codes "removed")
        (edit_xray_clients a a.xray_trojan_tag (codes "email") email false Json.null n)

  -- The routes that stand behind `auth` and change the node.
  unfoldable pub route : Text → Option Members → Node → Response × Node
  unfolding add_wg remove_wg add_vless remove_vless add_ss remove_ss add_trojan remove_trojan
  route path body =
      if text_eq path (codes "/wg/peers")
      then add_wg body
      else if text_eq path (codes "/wg/peers/remove")
      then remove_wg body
      else if text_eq path (codes "/vless/clients")
      then add_vless body
      else if text_eq path (codes "/vless/clients/remove")
      then remove_vless body
      else if text_eq path (codes "/ss/clients")
      then add_ss body
      else if text_eq path (codes "/ss/clients/remove")
      then remove_ss body
      else if text_eq path (codes "/trojan/clients")
      then add_trojan body
      else if text_eq path (codes "/trojan/clients/remove")
      then remove_trojan body
      else λ n. (reply 404 [] [], n)

  -- `auth`
  unfoldable pub serve : Request → Node → Response × Node
  unfolding route
  serve r n =
      if text_eq r.authorization (codes "Bearer " ++ a.token)
      then route r.path r.body n
      else (reply 401 (codes "error") (codes "unauthorized"), n)
