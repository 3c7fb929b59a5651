-- ===== src/Vpn/Fleet/Choice.antt =====
-- internal/vpn/repository.go, `SelectServer` and `SelectReserveServer`: the first row of an order.
use vpn_price_public.Base.{
  ℕ, ◌≡◌, refl, sym, ◌∙◌, ap, subst, ◌⊎◌, inl, inr, Bool, true, false, ◌&&◌, List, [], ◌∷◌, arith,
  any, select, if◌then◌else◌, Bool-cases,
}
use mathlib.Core.List.{Memᴰ}
use mathlib.Core.List.Memᴰ
use vpn_price_public.Vpn.Fleet.Model.{
  Protocol, Server, ServerRow, no_server_available, Result, ok, err,
}
use vpn_price_public.Vpn.Fleet.Store.{World, access, statement, fault_of}
use vpn_price_public.Vpn.Fleet.Selection.{
  least_from, least, preferred, reserve_first, serves_instead, server_of, found_or,
  select_reserve_server,
}
use vpn_price_public.Vpn.Fleet.Ends.{query-ok}

-- A strict order in which every two rows compare, or sort alike.
abbrev pub IsOrder : (ServerRow → ServerRow → Bool) → Type 0
IsOrder before =
    ((a b c : ServerRow) → before a b ≡ true → before b c ≡ true → before a c ≡ true)
    × ((a b c : ServerRow) → before a b ≡ false → before b c ≡ false → before a c ≡ false)
    × ((a : ServerRow) → before a a ≡ false)

pub preferred-IsOrder : IsOrder preferred
preferred-IsOrder = (λ a b c h k. ground arith, λ a b c h k. ground arith, λ a. ground arith)

reserve_first-IsOrder : IsOrder reserve_first
reserve_first-IsOrder = (λ a b c h k. ground arith, λ a b c h k. ground arith, λ a. ground arith)

-- A row of a list that passes a test, and that no row passing it comes before.
abbrev pub IsFirst :
    (ServerRow → ServerRow → Bool) → (ServerRow → Bool) → List ServerRow → ServerRow → Type 0
IsFirst before eligible rows row =
    Memᴰ row rows × (eligible row ≡ true) × (any (λ r. eligible r && before r row) rows ≡ false)

least_from-Mem :
    (before : ServerRow → ServerRow → Bool) (x : ServerRow) (rows : List ServerRow)
    → Memᴰ (least_from before x rows) (x ∷ rows)
least_from-Mem before x [] = Memᴰ.head refl
least_from-Mem before x (y ∷ rows) = elim (Bool-cases (before y x)) [
  | inl better ↦ rw better (Memᴰ.tail (least_from-Mem before y rows))
  | inr worse ↦ rw worse (elim (Memᴰ.cases_cons (least_from-Mem before x rows)) [
    | inl same ↦ Memᴰ.head same
    | inr later ↦ Memᴰ.tail (Memᴰ.tail later)
  ])
]

-- No row comes before the one that is left.
least_from-first :
    (before : ServerRow → ServerRow → Bool) (x b : ServerRow) (rows : List ServerRow)
    → IsOrder before
    → least_from before x rows ≡ b
    → (before x b ≡ false) × (any (λ r. before r b) rows ≡ false)
least_from-first before x b [] (up, down, apart) e =
    (subst (λ c. before x c ≡ false) e (apart x), refl)
least_from-first before x b (y ∷ rows) order e = elim (Bool-cases (before y x)) [
  | inl better ↦
      let (low, rest) =
        least_from-first before y b rows order
          (subst (λ (t : Bool). least_from before (if t then y else x) rows ≡ b) better e) in
      elim (Bool-cases (before x b)) [
        | inl under ↦ ground (arith, order.0 y x b better under)
        | inr above ↦ ground arith
      ]
  | inr worse ↦
      let (low, rest) =
        least_from-first before x b rows order
          (subst (λ (t : Bool). least_from before (if t then y else x) rows ≡ b) worse e) in
      (low, ground (arith, order.1 y x b worse low))
]

Mem-select :
    (p : ServerRow → Bool) (rows : List ServerRow) {r : ServerRow}
    → Memᴰ r (select p rows)
    → Memᴰ r rows × (p r ≡ true)
Mem-select p [] {r} m = elim m [ ]
Mem-select p (x ∷ rows) {r} m = elim (Bool-cases (p x)) [
  | inl taken ↦
      elim (Memᴰ.cases_cons
        (subst (λ (b : Bool). Memᴰ r (if b then x ∷ select p rows else select p rows)) taken m)) [
          | inl same ↦ (Memᴰ.head same, ap p same ∙ taken)
          | inr later ↦ let (m', h) = Mem-select p rows later in (Memᴰ.tail m', h)
        ]
  | inr left ↦
      let (m', h) =
        Mem-select p rows
          (subst (λ (b : Bool). Memᴰ r (if b then x ∷ select p rows else select p rows)) left m) in
      (Memᴰ.tail m', h)
]

any-select :
    (p q : ServerRow → Bool) (rows : List ServerRow)
    → any q (select p rows) ≡ any (λ r. p r && q r) rows
any-select p q [] = refl
any-select p q (r ∷ rows) = ground (arith, any-select p q rows)

select-none :
    (p : ServerRow → Bool) (rows : List ServerRow) → select p rows ≡ [] → any p rows ≡ false
select-none p [] e = refl
select-none p (r ∷ rows) e = ground (arith, select-none p rows)

-- A choice among rows: with none that passes the test it fails, else it is a first one.
abbrev pub Chooses :
    (ServerRow → ServerRow → Bool) → (ServerRow → Bool) → List ServerRow → Result Server → Type 0
Chooses before p rows r =
    ((r ≡ err no_server_available) × (any p rows ≡ false))
    ⊎ ((row : ServerRow) × (r ≡ ok row.server) × IsFirst before p rows row)

least-Chooses :
    (before : ServerRow → ServerRow → Bool) (p : ServerRow → Bool) (rows chosen : List ServerRow)
    → IsOrder before
    → select p rows ≡ chosen
    → Chooses before p rows (found_or no_server_available (server_of (least before chosen)))
least-Chooses before p rows [] order e = inl (refl, select-none p rows e)
least-Chooses before p rows (x ∷ xs) order e =
    let best : ServerRow = least_from before x xs in
    let (member, passes) =
      Mem-select p rows (subst (λ c. Memᴰ best c) (sym e) (least_from-Mem before x xs)) in
    let (low, rest) = least_from-first before x best xs order refl in
    inr (
      best,
      refl,
      (
        member,
        passes,
        sym (any-select p (λ r. before r best) rows)
            ∙ (ap (any (λ r. before r best)) e ∙ ground arith),
      ),
    )

-- The query that both functions send.
pub query-Chooses :
    (before : ServerRow → ServerRow → Bool) (p : ServerRow → Bool) (w : World)
    → IsOrder before
    → fault_of w.faults ≡ false
    → Chooses before p w.db.servers
        (statement
          (λ db.
            (found_or no_server_available (server_of (least before (select p db.servers))), db))
          w).0
unfolding access
query-Chooses before p w order h = rw h (least-Chooses before p w.db.servers _ order refl)

pub select_reserve_server_lem :
    (country : ℕ) (protocol : Protocol) (exclude : ℕ) (w : World)
    → fault_of w.faults ≡ false
    → Chooses reserve_first
        (serves_instead country protocol exclude)
        w.db.servers
        (select_reserve_server country protocol exclude w).0
unfolding select_reserve_server
select_reserve_server_lem country protocol exclude w h =
    query-Chooses reserve_first (serves_instead country protocol exclude) w reserve_first-IsOrder h

Chooses-ok :
    (before : ServerRow → ServerRow → Bool) (p : ServerRow → Bool) (rows : List ServerRow)
    (r : Result Server) {srv : Server}
    → Chooses before p rows r
    → r ≡ ok srv
    → (row : ServerRow) × (row.server ≡ srv) × IsFirst before p rows row
Chooses-ok before p rows r {srv} (inl (failed, none_left)) e = ground arith
Chooses-ok before p rows r {srv} (inr (row, chosen, first)) e = (row, ground arith, first)

pub select_reserve_server-ok :
    (country : ℕ) (protocol : Protocol) (exclude : ℕ) (w : World) {srv : Server} {v : World}
    → select_reserve_server country protocol exclude w ≡ (ok srv, v)
    → (row : ServerRow) × (row.server ≡ srv)
      × IsFirst reserve_first (serves_instead country protocol exclude) w.db.servers row
unfolding select_reserve_server
select_reserve_server-ok country protocol exclude w {srv} {v} e =
    let (answer, _) = query-ok _ w e in
    Chooses-ok reserve_first (serves_instead country protocol exclude) w.db.servers _
      (least-Chooses reserve_first (serves_instead country protocol exclude) w.db.servers _
        reserve_first-IsOrder refl)
      answer
