-- ===== src/Vpn/Fleet/Same.antt =====
-- internal/vpn: actions that leave the tables as they are.
use vpn_price_public.Base.{
  ◌≡◌, refl, ◌∙◌, sym, ap, inl, inr, Bool, Option, none, some, List, Bool-cases, Text,
}
use vpn_price_public.Vpn.Routing.AllowedIps.{SplitCache}
use vpn_price_public.Vpn.Fleet.Model.{Server, VpnError, Result, ok, err}
use vpn_price_public.Vpn.Fleet.Store.{
  Tables, World, M, continue, guard, draw, clock, lift, or_raise, access, statement, attempted,
  tick, fault_of,
}
use vpn_price_public.Vpn.Fleet.Provisioner.{Provisioner, post, send, has_url}
use vpn_price_public.Vpn.Fleet.Issue.{cached, random}

-- The tables are as they were.
pub record Same {A : Type 0} (w : World) (r : Result A × World) : Type 0 where
  pub same : r.1.db ≡ w.db

pub Same-continue :
    {A B : Type 0} (w : World) (r : Result A × World) (f : A → M B)
    → Same w r
    → ((a : A) (v : World) → Same v (f a v))
    → Same w (continue r f)
unfolding continue
Same-continue w (ok a, v) f h k = record { same = (k a v).same ∙ h.same }
Same-continue w (err e, v) f h k = record { same = h.same }

-- The state after an action that succeeds.
pub Same-ok :
    {A : Type 0} (w : World) (r : Result A × World) {a : A} {v : World}
    → Same w r
    → r ≡ (ok a, v)
    → v.db ≡ w.db
Same-ok w r h e = sym (ap (λ x. x.1.db) e) ∙ h.same

pub Same-here : {A : Type 0} (w : World) (r : Result A) → Same w (r, w)
Same-here w r = record { same = refl }

pub Same-or_raise : {A : Type 0} (o : Option A) (e : VpnError) (w : World) → Same w (or_raise o e w)
unfolding or_raise
Same-or_raise none e w = record { same = refl }
Same-or_raise (some a) e w = record { same = refl }

pub Same-access :
    {A : Type 0} (run : World → Result A × World) (w : World)
    → Same (tick w) (run (tick w))
    → Same w (access run w)
unfolding access
Same-access run w h = elim (Bool-cases (fault_of w.faults)) [
  | inl failed ↦ rw failed (record { same = refl })
  | inr done ↦ rw done (record { same = h.same })
]

pub Same-draw : (w : World) → Same w (draw w)
unfolding draw
Same-draw w = record { same = refl }

pub Same-clock : (w : World) → Same w (clock w)
unfolding clock
Same-clock w = record { same = refl }

pub Same-guard : (b : Bool) (e : VpnError) (w : World) → Same w (guard b e w)
unfolding guard
Same-guard b e w = record { same = refl }

pub Same-lift : {A : Type 0} (r : Result A) (w : World) → Same w (lift r w)
unfolding lift
Same-lift r w = record { same = refl }

-- A query.
pub Same-query :
    {A : Type 0} (answer : Tables → Result A) (w : World)
    → Same w (statement (λ db. (answer db, db)) w)
Same-query answer w = Same-access _ w (record { same = refl })

pub Same-attempted :
    {A : Type 0} (w : World) (r : Result A × World) → Same w r → Same w (attempted r)
unfolding attempted
Same-attempted w (ok a, v) h = record { same = h.same }
Same-attempted w (err e, v) h = record { same = h.same }

pub Same-post :
    (srv : Server) (path : Text) (payload : List (Text × Text)) (w : World)
    → Same w (post srv path payload w)
unfolding post
Same-post srv path payload w = elim (Bool-cases (has_url srv.agent_url)) [
  | inl reachable ↦ rw reachable (Same-access _ w (record { same = refl }))
  | inr unknown ↦ rw unknown (record { same = refl })
]

pub Same-send :
    (p : Provisioner) (srv : Server) (path : Text) (payload : List (Text × Text)) (w : World)
    → Same w (send p srv path payload w)
unfolding send
Same-send Provisioner.noop srv path payload w = record { same = refl }
Same-send Provisioner.agent srv path payload w = Same-post srv path payload w

pub Same-cached : (w : World) (o : Option (Text × SplitCache)) → Same w (cached w o)
unfolding cached
Same-cached w none = record { same = refl }
Same-cached w (some (t, cache)) = record { same = refl }

pub Same-random : (w : World) → Same w (random w)
Same-random w = Same-access _ w (Same-draw (tick w))
