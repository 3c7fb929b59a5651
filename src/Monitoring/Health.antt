-- ===== src/Monitoring/Health.antt =====
-- internal/monitoring/engine.go, `check`: the row of a node and the calls of the migrator.
use vpn_price_public.Base.{
  ℕ, ◌≡◌, refl, Bool, true, false, ◌&&◌, Option, none, some, List, [], ◌∷◌, arith, leb,
  if◌then◌else◌, length, find, update_where, subst, sym, map, ◌++◌, Text, codes, Bool-cases, inl,
  inr,
}
use vpn_price_public.Monitoring.Engine.{
  ServerStatus, AgentStatus, Server, Fleet, is_active, is_offline, server_is, score_health, check,
  judge, give_up, mark_status, mark_health, record_health, migrate, exec, health_label,
  blocked_reason,
}

abbrev pub calm_fleet : Fleet → Fleet
calm_fleet w = record w { refused = [] }

-- Whether a poll makes the engine give up a node: no answer, or two blocked targets or more.
abbrev pub fails : Option AgentStatus → Bool
fails none = true
fails (some st) = leb 2 (length (score_health st).1)

abbrev pub recovers : Option AgentStatus → Bool
recovers none = false
recovers (some st) = leb 60 (score_health st).0

abbrev pub next_status : ServerStatus → Option AgentStatus → ServerStatus
next_status now_status p =
    if fails p
    then ServerStatus.offline
    else if recovers p && is_offline now_status
    then ServerStatus.active
    else now_status

find-marked :
    (id : ℕ) (status : ServerStatus) (rows : List Server) {s : Server}
    → find (server_is id) rows ≡ some s
    → find
        (server_is id)
        (update_where (server_is id) (λ (x : Server). record x { status = status }) rows)
      ≡ some (record s { status = status })
find-marked id status [] {s} h = ground arith
find-marked id status (r ∷ rows) {s} h = ground (arith, find-marked id status rows {s = s})

find-scored :
    (id score : ℕ) (rows : List Server) {s : Server}
    → find (server_is id) rows ≡ some s
    → find
        (server_is id)
        (update_where (server_is id) (λ (x : Server). record x { health_score = score }) rows)
      ≡ some (record s { health_score = score })
find-scored id score [] {s} h = ground arith
find-scored id score (r ∷ rows) {s} h = ground (arith, find-scored id score rows {s = s})

-- What is shown of a state that has been reached from the state `w` by a check of the row `s`.
abbrev pub IsChecked : Server → Bool → ServerStatus → Fleet → Fleet → Type 0
IsChecked s gives_up status w w' =
    ((x : Server) × (find (server_is s.id) w'.servers ≡ some x)
      × (x.id ≡ s.id)
      × (x.status ≡ status))
    × (w'.moved ≡ (if gives_up && is_active s.status then s.id ∷ w.moved else w.moved))
    × (w'.refused ≡ [])

give_up_lem :
    (s s0 : Server) (w : Fleet)
    → find (server_is s.id) w.servers ≡ some s0
    → s0.id ≡ s.id
    → IsChecked s true ServerStatus.offline w (give_up s (calm_fleet w))
unfolding give_up mark_status migrate exec
give_up_lem s s0 w found same =
    let marked = find-marked s.id ServerStatus.offline w.servers found in
    elim (Bool-cases (is_active s.status)) [
      | inl busy ↦
          rw busy ((record s0 { status = ServerStatus.offline }, marked, same, refl), refl, refl)
      | inr idle ↦
          rw idle ((record s0 { status = ServerStatus.offline }, marked, same, refl), refl, refl)
    ]

judge_lem :
    (s s0 : Server) (score : ℕ) (blocked : List Text) (w : Fleet)
    → find (server_is s.id) w.servers ≡ some s0
    → s0.id ≡ s.id
    → s0.status ≡ s.status
    → IsChecked s
        (leb 2 (length blocked))
        (if leb 2 (length blocked)
          then ServerStatus.offline
          else if leb 60 score && is_offline s.status
          then ServerStatus.active
          else s.status)
        w
        (judge s score blocked (calm_fleet w))
unfolding judge mark_status exec
judge_lem s s0 score blocked w found same status = elim (Bool-cases (leb 2 (length blocked))) [
  | inl many ↦ rw many (give_up_lem s s0 w found same)
  | inr few ↦ rw few (elim (Bool-cases (leb 60 score && is_offline s.status)) [
    | inl back ↦ rw back (
      (
        record s0 { status = ServerStatus.active },
        find-marked s.id ServerStatus.active w.servers found,
        same,
        refl,
      ),
      refl,
      refl,
    )
    | inr unchanged ↦ rw unchanged ((s0, found, same, status), refl, refl)
  ])
]

length-map_first :
    (ts : List (Text × Bool)) → length (map (λ (t : Text × Bool). t.0) ts) ≡ length ts
length-map_first [] = refl
length-map_first (t ∷ ts) = ground (arith, length-map_first ts)

-- With no statement refused, a check of a row that the database still has leaves that row with the
-- status that the poll and its old status call for, and calls the migrator exactly if the node was
-- active and is given up.
pub check_lem :
    (s : Server) (error : Text) (p : Option AgentStatus) (w : Fleet)
    → find (server_is s.id) w.servers ≡ some s
    → IsChecked s (fails p) (next_status s.status p) w (check s error p (calm_fleet w))
unfolding check mark_health record_health exec
check_lem s error none w found =
    give_up_lem s s
      (record w {
        records =
            record {
              server_id = s.id;
              score = 0;
              label = codes "offline";
              reason = codes "unreachable: " ++ error;
            }
            ∷ w.records;
      })
      found refl
check_lem s error (some st) w found =
    let (score, blocked) = score_health st in
    judge_lem s (record s { health_score = score }) score blocked
      (record w {
        servers =
            update_where (server_is s.id) (λ (x : Server). record x { health_score = score })
              w.servers;
        records =
            record {
              server_id = s.id;
              score = score;
              label = health_label score;
              reason = blocked_reason blocked;
            }
            ∷ w.records;
      })
      (find-scored s.id score w.servers found) refl refl

next_status-fails :
    (status : ServerStatus) (p : Option AgentStatus)
    → (fails p && is_active (next_status status p)) ≡ false
next_status-fails status p = elim (Bool-cases (fails p)) [
  | inl bad ↦ rw bad refl
  | inr good ↦ rw good refl
]

-- With no statement refused, if a node answers the same way to two checks in a row, the second does
-- not call the migrator.
pub check-check :
    (s : Server) (error : Text) (p : Option AgentStatus) (w : Fleet)
    → find (server_is s.id) w.servers ≡ some s
    → let w1 = check s error p (calm_fleet w) in
      (x : Server) × (find (server_is s.id) w1.servers ≡ some x)
      × ((check x error p (calm_fleet w1)).moved ≡ w1.moved)
check-check s error p w found =
    let w1 = check s error p (calm_fleet w) in
    let ((x, there, same, status), _, _) = check_lem s error p w found in
    let again =
      check_lem x error p w1
        (subst (λ (i : ℕ). find (server_is i) w1.servers ≡ some x) (sym same) there) in
    let quiet : (fails p && is_active x.status) ≡ false =
      rw status (next_status-fails s.status p) in
    (
      x,
      there,
      subst
          (λ (b : Bool).
            (check x error p (calm_fleet w1)).moved ≡ (if b then x.id ∷ w1.moved else w1.moved))
          quiet again.1,
    )
