-- ===== src/Monitoring/Tests.antt =====
-- Concrete checks of a node.
use vpn_price_public.Base.{◌≡◌, refl, true, false, some, [], ◌∷◌, find, codes}
use vpn_price_public.Monitoring.Engine.{
  ServerStatus, AgentStatus, Server, Fleet, server_is, check, score_health,
}
use vpn_price_public.Monitoring.Health.{
  IsChecked, calm_fleet, fails, next_status, check_lem, check-check,
}

abbrev node : Server
node = record {
  id = 3;
  agent_url = some (codes "http://node");
  status = ServerStatus.active;
  health_score = 100;
}

abbrev fleet : Fleet
fleet = record { servers = node ∷ []; records = []; refused = []; moved = [] }

abbrev two_blocked : AgentStatus
two_blocked = record {
  cpu_load = 10;
  mem_used_pct = 20;
  xray_up = true;
  blocks = (codes "a", false) ∷ (codes "b", true) ∷ (codes "c", false) ∷ [];
}

seventy : (score_health two_blocked).0 ≡ 70
unfolding score_health
seventy = refl

check_lem_example :
    IsChecked node
      (fails (some two_blocked))
      (next_status ServerStatus.active (some two_blocked))
      fleet
      (check node [] (some two_blocked) (calm_fleet fleet))
check_lem_example = check_lem node [] (some two_blocked) fleet refl

check-check_example :
    let w1 = check node [] (some two_blocked) (calm_fleet fleet) in
    (x : Server) × (find (server_is 3) w1.servers ≡ some x)
    × ((check x [] (some two_blocked) (calm_fleet w1)).moved ≡ w1.moved)
check-check_example = check-check node [] (some two_blocked) fleet refl
