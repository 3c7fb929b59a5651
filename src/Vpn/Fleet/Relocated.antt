-- ===== src/Vpn/Fleet/Relocated.antt =====
-- internal/vpn/service.go, `MigrateServer`: where the subscriptions are afterwards.
use mathlib.Core.List.{Memᴰ}
use vpn_price_public.Base.{
  ℕ, ◌≤◌, ◌≡◌, refl, sym, ◌∙◌, ap, subst, ◌⊎◌, inl, inr, true, false, List, [], ◌∷◌, arith, ==_iff,
  any, count_by, update_where, update_where-none,
}
use vpn_price_public.Vpn.Fleet.Model.{Subscription, ServerRow}
use vpn_price_public.Vpn.Fleet.Queries.{MigrationSub}
use vpn_price_public.Vpn.Fleet.Selection.{is_active, serves_instead}
use vpn_price_public.Vpn.Fleet.Updates.{is_sub, moved_to}
use vpn_price_public.Vpn.Fleet.Clients.{none-counted}

-- A subscription is as before, or it was active on the server that is left and is now active, and
-- otherwise the same, on another server of `servers` that is active, in its country, and set up for
-- its protocol.
abbrev pub Relocated : ℕ → List ServerRow → Subscription → Subscription → Type 0
Relocated from_server servers s s' =
    (s' ≡ s)
    ⊎ ((x : ServerRow) × Memᴰ x servers
        × (serves_instead s.country_id s.protocol from_server x ≡ true)
        × (is_active s.status ≡ true)
        × (s.server_id ≡ from_server)
        × (s' ≡ moved_to x.server.id s))

abbrev pub AllRelocated : ℕ → List ServerRow → List Subscription → List Subscription → Type 0
AllRelocated from_server servers [] [] = Unit
AllRelocated from_server servers (s ∷ ss) (s' ∷ ss') =
    Relocated from_server servers s s' × AllRelocated from_server servers ss ss'
AllRelocated from_server servers _ _ = ⊥

pub relocated_refl :
    (from_server : ℕ) (servers : List ServerRow) (rows : List Subscription)
    → AllRelocated from_server servers rows rows
relocated_refl from_server servers [] = tt
relocated_refl from_server servers (s ∷ rows) = (inl refl, relocated_refl from_server servers rows)

Relocated-twice :
    (from_server : ℕ) (servers : List ServerRow) (s s' s'' : Subscription)
    → Relocated from_server servers s s'
    → Relocated from_server servers s' s''
    → Relocated from_server servers s s''
Relocated-twice from_server servers s s' s'' (inl e) h =
    subst (λ (t : Subscription). Relocated from_server servers t s'') e h
Relocated-twice from_server servers s s' s'' (inr h) (inl e) =
    subst (λ (t : Subscription). Relocated from_server servers s t) (sym e) (inr h)
Relocated-twice from_server servers s s' s'' (inr (x, m, may, was, on, moved))
      (inr (y, n, can, is, here, again)) =
    let there : x.server.id ≡ from_server = sym (ap (λ t. t.server_id) moved) ∙ here in ground arith

pub relocated_trans :
    (from_server : ℕ) (servers : List ServerRow) (rows rows' rows'' : List Subscription)
    → AllRelocated from_server servers rows rows'
    → AllRelocated from_server servers rows' rows''
    → AllRelocated from_server servers rows rows''
relocated_trans from_server servers [] [] [] h k = tt
relocated_trans from_server servers (s ∷ ss) (s' ∷ ss') (s'' ∷ ss'') (h, hs) (k, ks) = (
  Relocated-twice from_server servers s s' s'' h k,
  relocated_trans from_server servers ss ss' ss'' hs ks,
)
relocated_trans from_server servers [] (s' ∷ ss') rows'' h k = elim h [ ]
relocated_trans from_server servers (s ∷ ss) [] rows'' h k = elim h [ ]
relocated_trans from_server servers [] [] (s'' ∷ ss'') h k = elim k [ ]
relocated_trans from_server servers (s ∷ ss) (s' ∷ ss') [] h k = elim k [ ]

-- The subscription that a row of the listing stands for.
abbrev pub Listed : ℕ → List Subscription → MigrationSub → Type 0
Listed from_server rows m =
    (s : Subscription) × Memᴰ s rows
    × (s.id ≡ m.sub_id)
    × (s.server_id ≡ from_server)
    × (is_active s.status ≡ true)
    × (s.country_id ≡ m.country_id)
    × (s.protocol ≡ m.protocol)

Mem-is_sub :
    (sub : ℕ) (rows : List Subscription) {s : Subscription}
    → Memᴰ s rows
    → s.id ≡ sub
    → any (is_sub sub) rows ≡ true
Mem-is_sub sub [] {s} m e = elim m [ ]
Mem-is_sub sub (r ∷ rows) {s} (Memᴰ.head same) e =
    let this : r.id ≡ sub = sym (ap (λ t. t.id) same) ∙ e in ground arith
Mem-is_sub sub (r ∷ rows) {s} (Memᴰ.tail later) e = ground (arith, Mem-is_sub sub rows later e)

-- With distinct identifiers the update moves the listed subscription only.
pub moved-AllRelocated :
    (from_server sub : ℕ) (x : ServerRow) (servers : List ServerRow) (rows : List Subscription)
    {s : Subscription}
    → Memᴰ s rows
    → s.id ≡ sub
    → Memᴰ x servers
    → serves_instead s.country_id s.protocol from_server x ≡ true
    → is_active s.status ≡ true
    → s.server_id ≡ from_server
    → count_by (is_sub sub) rows ≤ 1
    → AllRelocated from_server servers rows (update_where (is_sub sub) (moved_to x.server.id) rows)
moved-AllRelocated from_server sub x servers [] {s} there e m may was on one = elim there [ ]
moved-AllRelocated from_server sub x servers (r ∷ rows) {s} (Memᴰ.head same) e m may was on one =
    let this : is_sub sub r ≡ true = (==_iff r.id sub).1 (sym (ap (λ t. t.id) same) ∙ e) in
    let rest = none-counted sub rows (ground arith) in
    rw (this, update_where-none (is_sub sub) (moved_to x.server.id) rows rest)
      (
        subst (λ (t : Subscription). Relocated from_server servers t (moved_to x.server.id t)) same
            (inr (x, m, may, was, on, refl)),
        relocated_refl from_server servers rows,
      )
moved-AllRelocated from_server sub x servers (r ∷ rows) {s} (Memᴰ.tail later) e m may was on one =
    let other : is_sub sub r ≡ false =
      ground (arith, Mem-is_sub sub rows later e, none-counted sub rows) in
    rw other (
      inl refl,
      moved-AllRelocated from_server sub x servers rows later e m may was on (ground arith),
    )
