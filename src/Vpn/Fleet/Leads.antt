-- ===== src/Vpn/Fleet/Leads.antt =====
-- internal/vpn: rules for the tables that an action leaves, whether it succeeds or not.
use vpn_price_public.Base.{◌≡◌, refl, sym, subst}
use vpn_price_public.Vpn.Fleet.Model.{Result, ok, err}
use vpn_price_public.Vpn.Fleet.Store.{Tables, World, M, continue, attempted}
use vpn_price_public.Vpn.Fleet.Failure.{Undone}
use vpn_price_public.Vpn.Fleet.Same.{Same}

pub record Leads {A : Type 0} (Q : Tables → Type 0) (r : Result A × World) : Type 0 where
  pub leads : Q r.1.db

-- A step that leaves the tables, and what follows it.
pub Leads-Same :
    {A B : Type 0} (Q : Tables → Type 0) (w : World) (r : Result A × World) (f : A → M B)
    → Same w r
    → Q w.db
    → ((a : A) (v : World) → r ≡ (ok a, v) → v.db ≡ w.db → Leads Q (f a v))
    → Leads Q (continue r f)
unfolding continue
Leads-Same Q w (ok a, v) f h q k = k a v refl h.same
Leads-Same Q w (err e, v) f h q k = record { leads = subst Q (sym h.same) q }

pub Leads-kept :
    {A : Type 0} (Q : Tables → Type 0) (w : World) (r : Result A × World)
    → Same w r
    → Q w.db
    → Leads Q r
Leads-kept Q w r h q = record { leads = subst Q (sym h.same) q }

-- A transaction, and what follows it and leaves the tables.
pub Leads-transaction :
    {A B : Type 0} (Q : Tables → Type 0) (w : World) (r : Result A × World) (f : A → M B)
    → Undone w r
    → Q w.db
    → ((a : A) (v : World) → r ≡ (ok a, v) → Q v.db)
    → ((a : A) (v : World) → Same v (f a v))
    → Leads Q (continue r f)
unfolding continue
Leads-transaction Q w (ok a, v) f h q k same = Leads-kept Q v (f a v) (same a v) (k a v refl)
Leads-transaction Q w (err e, v) f h q k same = record { leads = subst Q (sym h) q }

-- What an attempt that may change the tables leaves is there for what follows.
pub Leads-then :
    {A B : Type 0} (P Q : Tables → Type 0) (r : Result A × World) (f : A → M B)
    → Leads P r
    → ((v : World) → P v.db → Q v.db)
    → ((a : A) (v : World) → P v.db → Leads Q (f a v))
    → Leads Q (continue r f)
unfolding continue
Leads-then P Q (ok a, v) f h stop k = k a v h.leads
Leads-then P Q (err e, v) f h stop k = record { leads = stop v h.leads }

pub Leads-attempted :
    {A : Type 0} (Q : Tables → Type 0) (r : Result A × World) → Leads Q r → Leads Q (attempted r)
unfolding attempted
Leads-attempted Q (ok a, v) h = record { leads = h.leads }
Leads-attempted Q (err e, v) h = record { leads = h.leads }
