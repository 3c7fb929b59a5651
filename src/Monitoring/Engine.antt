-- ===== src/Monitoring/Engine.antt =====
-- internal/monitoring/engine.go: one sweep over the servers. The load is in hundredths, the used
-- memory in percent, both rounded up, as the code only compares them with 0.9 and 90.
use vpn_price_public.Base.{
  ℕ, ◌+◌, ◌-◌, ◌*◌, Bool, true, false, not, ◌&&◌, Option, none, some, List, [], ◌∷◌, ◌++◌, ◌==◌,
  ltb, leb, if◌then◌else◌, length, select, map, update_where, Text, codes, join,
}

pub data ServerStatus : Type 0 where
  provisioning active drain offline archived : ServerStatus

abbrev pub is_active : ServerStatus → Bool
is_active ServerStatus.active = true
is_active _ = false

abbrev pub is_offline : ServerStatus → Bool
is_offline ServerStatus.offline = true
is_offline _ = false

abbrev pub is_archived : ServerStatus → Bool
is_archived ServerStatus.archived = true
is_archived _ = false

-- `blocks` is a map; its order is that of the iteration.
pub record AgentStatus : Type 0 where
  pub cpu_load : ℕ
  pub mem_used_pct : ℕ
  pub xray_up : Bool
  pub blocks : List (Text × Bool)

pub record Server : Type 0 where
  pub id : ℕ
  pub agent_url : Option Text
  pub status : ServerStatus
  pub health_score : ℕ

pub record HealthRecord : Type 0 where
  pub server_id : ℕ
  pub score : ℕ
  pub label : Text
  pub reason : Text

-- `refused` says of the statements to come which the database refuses; `moved` lists the servers
-- for which the migrator was called, the latest first.
pub record Fleet : Type 0 where
  pub servers : List Server
  pub records : List HealthRecord
  pub refused : List Bool
  pub moved : List ℕ

abbrev first_refused : List Bool → Bool
first_refused [] = false
first_refused (b ∷ bs) = b

abbrev rest_refused : List Bool → List Bool
rest_refused [] = []
rest_refused (b ∷ bs) = bs

-- `pool.Exec`, whose error the callers drop.
unfoldable pub exec : (Fleet → Fleet) → Fleet → Fleet
exec f w =
    let w' = record w { refused = rest_refused w.refused } in
    if first_refused w.refused then w' else f w'

unfoldable pub record_health : ℕ → ℕ → Text → Text → Fleet → Fleet
unfolding exec
record_health id score label reason = exec λ w. record w {
  records = record { server_id = id; score = score; label = label; reason = reason } ∷ w.records;
}

abbrev pub server_is : ℕ → Server → Bool
server_is id s = s.id == id

unfoldable pub mark_health : ℕ → ℕ → Fleet → Fleet
unfolding exec
mark_health id score = exec λ w. record w {
  servers =
      update_where (server_is id) (λ (s : Server). record s { health_score = score }) w.servers;
}

-- `UPDATE … WHERE id=$1 AND status<>$2`
unfoldable pub mark_status : ℕ → ServerStatus → Fleet → Fleet
unfolding exec
mark_status id status = exec λ w. record w {
  servers = update_where (server_is id) (λ (s : Server). record s { status = status }) w.servers;
}

abbrev pub is_blocked : Text × Bool → Bool
is_blocked target = not target.1

-- `scoreHealth`: the score ends at 0, as the subtraction on ℕ does.
unfoldable pub score_health : AgentStatus → ℕ × List Text
score_health st =
    let blocked = select is_blocked st.blocks in
    let penalty =
      (if st.xray_up then 0 else 40)
      + 15 * length blocked
      + (if ltb 90 st.cpu_load then 20 else 0)
      + (if ltb 90 st.mem_used_pct then 15 else 0) in
    (100 - penalty, map (λ target. target.0) blocked)

abbrev pub health_label : ℕ → Text
health_label score =
    if leb score 0
    then codes "offline"
    else if ltb score 60
    then codes "degraded"
    else codes "active"

abbrev pub blocked_reason : List Text → Text
blocked_reason [] = []
blocked_reason (t ∷ ts) = codes "blocked: " ++ join (codes ",") (t ∷ ts)

-- `migrate`: the migrator is called; what it does to the subscriptions is its own.
unfoldable pub migrate : ℕ → Fleet → Fleet
migrate id w = record w { moved = id ∷ w.moved }

-- The node is given up, and its clients are moved if it was active.
unfoldable pub give_up : Server → Fleet → Fleet
unfolding mark_status migrate
give_up s w =
    let marked = mark_status s.id ServerStatus.offline w in
    if is_active s.status then migrate s.id marked else marked

-- `check`, after the score is recorded.
unfoldable pub judge : Server → ℕ → List Text → Fleet → Fleet
unfolding give_up
judge s score blocked w =
    if leb 2 (length blocked)
    then give_up s w
    else if leb 60 score && is_offline s.status
    then mark_status s.id ServerStatus.active w
    else w

abbrev pub unreachable : Text
unreachable = codes "unreachable: "

-- `check` with what the poll of the node returned: an error's text, or its status. `s` is the row
-- that the sweep has read.
unfoldable pub check : Server → Text → Option AgentStatus → Fleet → Fleet
unfolding judge score_health record_health mark_health
check s error none w = give_up s (record_health s.id 0 (codes "offline") (unreachable ++ error) w)
check s error (some st) w =
    let (score, blocked) = score_health st in
    judge s score blocked (
      mark_health s.id score
        (record_health s.id score (health_label score) (blocked_reason blocked) w))

abbrev pub has_url : Server → Bool
has_url s = elim s.agent_url [ none ↦ false | some url ↦ true ]

abbrev pub is_polled : Server → Bool
is_polled s = not (is_archived s.status) && has_url s

-- The loop of `sweep`; `poll` is what the nodes answer, with the text of an error.
unfoldable pub check_all : (Server → Text × Option AgentStatus) → List Server → Fleet → Fleet
unfolding check
check_all poll [] w = w
check_all poll (s ∷ rows) w = check_all poll rows (check s (poll s).0 (poll s).1 w)

unfoldable pub sweep_fleet : (Server → Text × Option AgentStatus) → Fleet → Fleet
unfolding check_all
sweep_fleet poll w =
    let rows = select is_polled w.servers in
    let w' = record w { refused = rest_refused w.refused } in
    if first_refused w.refused then w' else check_all poll rows w'
