-- ===== src/Agent/Tests.antt =====
-- Concrete runs of the agent.
use vpn_price_public.Base.{◌≡◌, refl, true, false, some, List, [], ◌∷◌, Text, codes}
use vpn_price_public.Base.Json.{Json, Items, Members}
use vpn_price_public.Agent.Xray.{
  Outcome, ok, err, edit_clients, edit_config, tag_not_found, reload_failed, write_failed,
}
use vpn_price_public.Agent.Node.{
  Agent, Node, Fault, fine, refused, cut, edit_xray_clients, access, after,
}
use vpn_price_public.Agent.Edits.{edit_config-again}
use vpn_price_public.Agent.Failures.{Ends, IsEdited, IsEarly, edit_xray_clients_lem}

abbrev client : Text → Json
client id = Json.object (Members.member (codes "id") (Json.string id) Members.empty)

abbrev settings_with : Items → Json
settings_with clients =
    Json.object (Members.member (codes "clients") (Json.array clients) Members.empty)

abbrev inbound_with : Items → Json
inbound_with clients = Json.object (
    Members.member (codes "tag") (Json.string (codes "vless-reality"))
      (Members.member (codes "settings") (settings_with clients) Members.empty))

abbrev config_with : Items → Members
config_with clients =
    Members.member (codes "inbounds")
      (Json.array (Items.cons Json.null (Items.cons (inbound_with clients) Items.nil)))
      Members.empty

abbrev one_client : Items
one_client = Items.cons (client (codes "a")) Items.nil

abbrev two_clients : Items
two_clients = Items.cons (client (codes "a")) (Items.cons (client (codes "b")) Items.nil)

abbrev add_b : Items → Items
add_b = edit_clients (codes "id") (codes "b") true (client (codes "b"))

abbrev remove_b : Items → Items
remove_b = edit_clients (codes "id") (codes "b") false Json.null

added :
    edit_config add_b (codes "vless-reality") (config_with one_client)
    ≡ ok (config_with two_clients)
unfolding edit_config
added = refl

removed_again :
    edit_config remove_b (codes "vless-reality") (config_with two_clients)
    ≡ ok (config_with one_client)
unfolding edit_config
removed_again = refl

other_tag : edit_config add_b (codes "trojan") (config_with one_client) ≡ err tag_not_found
unfolding edit_config
other_tag = refl

edit_config-again_example :
    (edit_config add_b (codes "vless-reality") (config_with two_clients)
      ≡ ok (config_with two_clients))
    × (edit_config remove_b (codes "vless-reality") (config_with two_clients)
        ≡ edit_config remove_b (codes "vless-reality") (config_with one_client))
edit_config-again_example =
    edit_config-again (codes "id") (codes "b") (codes "vless-reality") (client (codes "b"))
      Json.null (config_with one_client) refl added

abbrev test_agent : Agent
test_agent = record {
  token = codes "secret";
  wg_interface = codes "wg0";
  xray_tag = codes "vless-reality";
  xray_flow = codes "xtls-rprx-vision";
  xray_ss_tag = codes "shadowsocks";
  xray_trojan_tag = codes "trojan";
  reload_cmd = codes "reload";
  parse = λ t. some (config_with one_client);
  marshal = λ m. codes "written";
}

-- The file is read and written, and the reload fails.
abbrev test_node : List Fault → Node
test_node faults = record {
  xray_config = codes "read";
  ran = [];
  faults = faults;
  temp_path = codes "/tmp/psk";
}

abbrev edit_b : Node → Outcome (Unit {0}) × Node
edit_b n =
    edit_xray_clients test_agent (codes "vless-reality") (codes "id") (codes "b") true
      (client (codes "b")) n

abbrev after_reload : Node
after_reload = record {
  xray_config = codes "written";
  ran = [];
  faults = [];
  temp_path = codes "/tmp/psk";
}

reload_fails : edit_b (test_node (fine ∷ fine ∷ refused ∷ [])) ≡ (err reload_failed, after_reload)
unfolding edit_xray_clients access after edit_config
reload_fails = refl

-- The inbound is not there.
abbrev no_tag : Outcome (Unit {0}) × Node
no_tag =
    edit_xray_clients test_agent (codes "trojan") (codes "id") (codes "b") true (client (codes "b"))
      (test_node [])

no_tag_fails : no_tag ≡ (err tag_not_found, test_node [])
unfolding edit_xray_clients access after edit_config
no_tag_fails = refl

-- Writing the file fails after three bytes.
torn :
    edit_b (test_node (fine ∷ cut 3 ∷ []))
    ≡ (err write_failed, record (test_node []) { xray_config = codes "wri" })
unfolding edit_xray_clients access after edit_config
torn = refl

edit_xray_clients_lem_example :
    Ends
      (IsEdited test_agent
        (codes "vless-reality")
        (codes "id")
        (codes "b")
        true
        (client (codes "b"))
        (codes "read"))
      (IsEarly test_agent
        (codes "vless-reality")
        (codes "id")
        (codes "b")
        true
        (client (codes "b"))
        (test_node (fine ∷ cut 3 ∷ [])))
      (test_node (fine ∷ cut 3 ∷ []))
      (edit_b (test_node (fine ∷ cut 3 ∷ [])))
edit_xray_clients_lem_example =
    edit_xray_clients_lem test_agent (codes "vless-reality") (codes "id") (codes "b") true
      (client (codes "b")) (test_node (fine ∷ cut 3 ∷ []))
