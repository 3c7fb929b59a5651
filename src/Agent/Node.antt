-- ===== src/Agent/Node.antt =====
-- cmd/agent/main.go: what the agent does to its node.
use vpn_price_public.Base.{
  ℕ, Bool, true, false, Option, none, some, List, [], ◌∷◌, ◌++◌, take, if◌then◌else◌, is_empty,
  Text, codes,
}
use vpn_price_public.Base.Json.{Json, Members}
use vpn_price_public.Agent.Xray.{
  AgentError, field_required, read_failed, parse_failed, write_failed, reload_failed,
  command_failed, temp_file_failed, Outcome, ok, err, edit_clients, edit_config,
}

-- The fields of `agent`, and what encoding/json makes of texts.
pub record Agent : Type 0 where
  pub token : Text
  pub wg_interface : Text
  pub xray_tag : Text
  pub xray_flow : Text
  pub xray_ss_tag : Text
  pub xray_trojan_tag : Text
  pub reload_cmd : Text
  pub parse : Text → Option Members
  pub marshal : Members → Text

-- How an access ends: well, or it is refused, or, if it writes a file, it fails with the file cut to
-- that many bytes of the new text.
pub data Fault : Type 0 where
  fine refused : Fault
  cut : ℕ → Fault

abbrev pub fails : Fault → Bool
fails fine = false
fails _ = true

-- The node: the text of the Xray configuration, the commands that were run, the latest first, how
-- the accesses to come end, and the path that the next temporary file gets.
pub record Node : Type 0 where
  pub xray_config : Text
  pub ran : List (List Text)
  pub faults : List Fault
  pub temp_path : Text

abbrev pub Act : Type 0 → Type 0
Act A = Node → Outcome A × Node

unfoldable pub after : {A B : Type 0} → Outcome A × Node → (A → Act B) → Outcome B × Node
after (ok a, n) f = f a n
after (err e, n) f = (err e, n)

infixl 5 ◌>>=◌ ◌>>◌
abbrev pub ◌>>=◌ : {A B : Type 0} → Act A → (A → Act B) → Act B
◌>>=◌ m f n = after (m n) f

abbrev pub ◌>>◌ : {A B : Type 0} → Act A → Act B → Act B
m >> k = m >>= λ _. k

abbrev pub pure : {A : Type 0} → A → Act A
pure a n = (ok a, n)

abbrev pub lift : {A : Type 0} → Outcome A → Act A
lift r n = (r, n)

abbrev pub ignored : {A : Type 0} → Outcome A × Node → Outcome (Unit {0}) × Node
ignored (r, n) = (ok tt, n)

abbrev pub fault_of : List Fault → Fault
fault_of [] = fine
fault_of (b ∷ bs) = b

abbrev pub rest_of : List Fault → List Fault
rest_of [] = []
rest_of (b ∷ bs) = bs

-- An access to the file system or a command, which may fail.
unfoldable pub access : {A : Type 0} → AgentError → A → (Node → Node) → Act A
access e a f n =
    let n' : Node = record n { faults = rest_of n.faults } in
    if fails (fault_of n.faults) then (err e, n') else (ok a, f n')

abbrev pub run : AgentError → List Text → Act (Unit {0})
run e argv = access e tt (λ n. record n { ran = argv ∷ n.ran })

abbrev pub read_config : Act Text
read_config n = access read_failed n.xray_config (λ m. m) n

-- `os.WriteFile` opens the file and cuts it to nothing before it writes: if opening it fails the file
-- is as it was, else a part of the text is there, all of it if only closing the file has failed.
abbrev pub written : Text → Fault → Act (Unit {0})
written text fine n = (ok tt, record n { xray_config = text })
written text refused n = (err write_failed, n)
written text (cut k) n = (err write_failed, record n { xray_config = take k text })

abbrev pub write_config : Text → Act (Unit {0})
write_config text n = written text (fault_of n.faults) (record n { faults = rest_of n.faults })

abbrev pub parsed : Option Members → Outcome Members
parsed none = err parse_failed
parsed (some m) = ok m

module _ (a : Agent) where
  -- `editXrayClients`
  unfoldable pub edit_xray_clients : Text → Text → Text → Bool → Json → Act (Unit {0})
  edit_xray_clients tag field value add new_client =
      if is_empty value then lift (err field_required) else do
        raw ← read_config
        cfg ← lift (parsed (a.parse raw))
        edited ← lift (edit_config (edit_clients field value add new_client) tag cfg)
        write_config (a.marshal edited)
        run reload_failed (codes "sh" ∷ codes "-c" ∷ a.reload_cmd ∷ [])

  abbrev pub vless_client : Text → Json
  vless_client uuid = Json.object (
      Members.member (codes "id") (Json.string uuid)
        (Members.member (codes "flow") (Json.string a.xray_flow) Members.empty))

  abbrev pub ss_client : Text → Text → Json
  ss_client password email = Json.object (
      Members.member (codes "password") (Json.string password)
        (Members.member (codes "email") (Json.string email) Members.empty))

  abbrev pub trojan_client : Text → Text → Json
  trojan_client password email = Json.object (
      Members.member (codes "password") (Json.string password) (
        Members.member (codes "email") (Json.string email)
          (Members.member (codes "flow") (Json.string a.xray_flow) Members.empty)))

  unfoldable pub edit_vless : Text → Bool → Act (Unit {0})
  edit_vless uuid add = edit_xray_clients a.xray_tag (codes "id") uuid add (vless_client uuid)

  -- The preshared key goes through a temporary file: made, written, named to `wg`.
  abbrev pub psk_args : Text → Act (List Text)
  psk_args psk n =
      if is_empty psk
      then (ok [], n)
      else after (access temp_file_failed n.temp_path (λ m. m) n)
          (λ path. access temp_file_failed (codes "preshared-key" ∷ path ∷ []) (λ m. m))

  -- `persistWG`, best-effort
  abbrev pub persist_wg : Act (Unit {0})
  persist_wg n = ignored (
      run command_failed (codes "sh" ∷ codes "-c" ∷ (codes "wg-quick save " ++ a.wg_interface) ∷ [])
        n)

  unfoldable pub add_wg_peer : Text → Text → Text → Act (Unit {0})
  add_wg_peer public_key psk allowed_ip = do
    more ← psk_args psk
    run command_failed (
        (codes "wg"
          ∷ codes "set"
          ∷ a.wg_interface
          ∷ codes "peer"
          ∷ public_key
          ∷ codes "allowed-ips"
          ∷ allowed_ip
          ∷ [])
        ++ more)
    persist_wg

  unfoldable pub remove_wg_peer : Text → Act (Unit {0})
  remove_wg_peer public_key = do
    run command_failed (
        codes "wg" ∷ codes "set" ∷ a.wg_interface ∷ codes "peer" ∷ public_key ∷ codes "remove" ∷ [])
    persist_wg
