-- ===== src/Vpn/Fleet/Ranking.antt =====
-- internal/vpn/repository.go, `SelectServer`: which server is chosen.
use vpn_price_public.Base.{
  ℕ, ◌≡◌, ◌⊎◌, inl, inr, Bool, true, false, ◌&&◌, List, [], ◌∷◌, arith, any, All, ◌≤◌, ◌<◌, ltb,
  Bool-cases,
}
use mathlib.Core.List.{Memᴰ}
use vpn_price_public.Vpn.Fleet.Model.{
  Protocol, Server, ServerRow, no_server_available, Result, ok, err,
}
use vpn_price_public.Vpn.Fleet.Store.{World, fault_of}
use vpn_price_public.Vpn.Fleet.Selection.{less_loaded, preferred, serves, select_server}
use vpn_price_public.Vpn.Fleet.Choice.{preferred-IsOrder, query-Chooses}

-- A server goes before another one, or sorts alike: one that is no reserve before a reserve, else by
-- the priority number, and only for one number by the number of clients.
abbrev pub IsRanked : ServerRow → ServerRow → Type 0
IsRanked row other =
    ((row.reserve ≡ false) × (other.reserve ≡ true))
    ⊎ ((row.reserve ≡ other.reserve)
        × ((row.priority < other.priority)
            ⊎ ((row.priority ≡ other.priority) × (row.client_count ≤ other.client_count))))

-- A choice of a server for a country and a protocol.
abbrev pub Picks : ℕ → Protocol → List ServerRow → Result Server → Type 0
Picks country protocol rows r =
    ((r ≡ err no_server_available) × All (λ other. serves country protocol other ≡ false) rows)
    ⊎ ((row : ServerRow) × Memᴰ row rows
        × (serves country protocol row ≡ true)
        × (r ≡ ok row.server)
        × All (λ other. (serves country protocol other ≡ false) ⊎ IsRanked row other) rows)

not_less_loaded :
    (row other : ServerRow)
    → less_loaded other row ≡ false
    → (row.priority < other.priority)
      ⊎ ((row.priority ≡ other.priority) × (row.client_count ≤ other.client_count))
not_less_loaded row other h = elim (Bool-cases (ltb row.priority other.priority)) [
  | inl lower ↦ inl (ground arith)
  | inr higher ↦ inr (ground arith, ground arith)
]

not_before-IsRanked : (row other : ServerRow) → preferred other row ≡ false → IsRanked row other
not_before-IsRanked row other h = elim (Bool-cases row.reserve) [
  | inl spare ↦ elim (Bool-cases other.reserve) [
    | inl also ↦ inr (ground arith, not_less_loaded row other (ground arith))
    | inr regular ↦ ground arith
  ]
  | inr regular ↦ elim (Bool-cases other.reserve) [
    | inl spare ↦ inl (regular, spare)
    | inr also ↦ inr (ground arith, not_less_loaded row other (ground arith))
  ]
]

eligible-IsRanked :
    (p : ServerRow → Bool) (row : ServerRow) (rows : List ServerRow)
    → any (λ other. p other && preferred other row) rows ≡ false
    → All (λ other. (p other ≡ false) ⊎ IsRanked row other) rows
eligible-IsRanked p row [] h = tt
eligible-IsRanked p row (other ∷ rows) h = elim (Bool-cases (p other)) [
  | inl eligible ↦ (
    inr (not_before-IsRanked row other (ground arith)),
    eligible-IsRanked p row rows (ground arith),
  )
  | inr unfit ↦ (inl unfit, eligible-IsRanked p row rows (ground arith))
]

none_eligible :
    (p : ServerRow → Bool) (rows : List ServerRow)
    → any p rows ≡ false
    → All (λ other. p other ≡ false) rows
none_eligible p [] h = tt
none_eligible p (other ∷ rows) h = (ground arith, none_eligible p rows (ground arith))

-- Unless the database fails, SelectServer fails if no server of the country is active and set up
-- for the protocol, and else returns one that is, to which no other such server is preferred: a
-- server that is no reserve goes before a reserve, then the lower priority number counts, and the
-- lower number of clients only between servers of the same priority number.
pub select_server_lem :
    (country : ℕ) (protocol : Protocol) (w : World)
    → fault_of w.faults ≡ false
    → Picks country protocol w.db.servers (select_server country protocol w).0
unfolding select_server
select_server_lem country protocol w h =
    elim (query-Chooses preferred (serves country protocol) w preferred-IsOrder h) [
      | inl (failed, none_left) ↦ inl (failed, none_eligible (serves country protocol) _ none_left)
      | inr (row, chosen, first) ↦
          inr (
            row,
            first.0,
            first.1,
            chosen,
            eligible-IsRanked (serves country protocol) row _ first.2,
          )
    ]
