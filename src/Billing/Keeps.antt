-- ===== src/Billing/Keeps.antt =====
-- Actions that keep an invariant of the database and call no issuer, whatever fails on the way.
use vpn_price_public.Base.{
  ℕ, ◌≡◌, refl, ◌∙◌, inl, inr, Bool, Option, none, some, List, Bool-cases, subst, sym,
  if◌then◌else◌,
}
use vpn_price_public.Billing.Model.{BillingError, Result, ok, err}
use vpn_price_public.Billing.Store.{
  Db, World, M, ◌>>=◌, statement, guard, or_raise, fault_of, continue, lift, ignore,
}
use vpn_price_public.Billing.Atomic.{Atomic}

module _ (Q : Db → List ℕ → Type 0) where
  pub record KeepsAt {A : Type 0} (w : World) (r : Result A × World) : Type 0 where
    pub silent : r.1.issued ≡ w.issued
    pub kept : (calls : List ℕ) → Q w.db calls → Q r.1.db calls

  -- An action that leaves the world as it is, or spends statements only.
  pub idle-Keeps :
      {A : Type 0} (w w' : World) (r : Result A)
      → w'.issued ≡ w.issued
      → w'.db ≡ w.db
      → KeepsAt w (r, w')
  idle-Keeps w w' r h e = record {
    silent = h;
    kept = λ calls q. subst (λ (db : Db). Q db calls) (sym e) q;
  }

  abbrev pub Keeps : {A : Type 0} → M A → Type 0
  Keeps m = (w : World) → KeepsAt w (m w)

  pub pure-Keeps : {A : Type 0} (r : Result A) → Keeps (lift r)
  pure-Keeps r w = idle-Keeps w w r refl refl

  pub continue-Keeps :
      {A B : Type 0} (w : World) (r : Result A × World) (f : A → M B)
      → KeepsAt w r
      → ((a : A) → Keeps (f a))
      → KeepsAt w (continue r f)
  continue-Keeps w (err e, w') f h k = record { silent = h.silent; kept = h.kept }
  continue-Keeps w (ok a, w') f h k = record {
    silent = (k a w').silent ∙ h.silent;
    kept = λ calls q. (k a w').kept calls (h.kept calls q);
  }

  pub guard-Keeps :
      {B : Type 0} (b : Bool) (e : BillingError) (f : Unit {0} → M B) (w : World)
      → ((u : Unit {0}) → Keeps (f u))
      → KeepsAt w (continue (guard b e w) f)
  guard-Keeps b e f w k =
      continue-Keeps w (guard b e w) f (idle-Keeps w w (if b then ok tt else err e) refl refl) k

  pub bind-Keeps :
      {A B : Type 0} (m : M A) (f : A → M B) → Keeps m → ((a : A) → Keeps (f a)) → Keeps (m >>= f)
  bind-Keeps m f h k w = continue-Keeps w (m w) f (h w) k

  pub statement-Keeps :
      {A : Type 0} (run : Db → Result A × Db)
      → ((db : Db) (calls : List ℕ) → Q db calls → Q (run db).1 calls)
      → Keeps (statement run)
  unfolding statement
  statement-Keeps run h w = elim (Bool-cases (fault_of w.faults)) [
    | inl refused ↦ rw refused record { silent = refl; kept = λ calls q. q }
    | inr sent ↦ rw sent record { silent = refl; kept = h w.db }
  ]

  Atomic-KeepsAt :
      {A : Type 0} (done : Db → A → Db → Type 0) (w : World) (r : Result A × World)
      → ((a : A) (db' : Db) (calls : List ℕ) → done w.db a db' → Q w.db calls → Q db' calls)
      → Atomic done w r
      → KeepsAt w r
  Atomic-KeepsAt done w (ok a, w') h (d, rest) = record {
    silent = rest.1;
    kept = λ calls q. h a w'.db calls d q;
  }
  Atomic-KeepsAt done w (err e, w') h (same, rest) = idle-Keeps w w' (err e) rest.1 same

  pub Atomic-Keeps :
      {A : Type 0} (done : Db → A → Db → Type 0) (m : M A)
      → ((w : World) → Atomic done w (m w))
      → ((db : Db) (a : A) (db' : Db) (calls : List ℕ) → done db a db' → Q db calls → Q db' calls)
      → Keeps m
  Atomic-Keeps done m atomic h w =
      Atomic-KeepsAt done w (m w) (λ a db' calls. h w.db a db' calls) (atomic w)

  pub or_raise-Keeps : {A : Type 0} (o : Option A) (e : BillingError) → Keeps (or_raise o e)
  or_raise-Keeps none e w = idle-Keeps w w (err e) refl refl
  or_raise-Keeps (some a) e w = idle-Keeps w w (ok a) refl refl

  pub ignore-Keeps : {A : Type 0} (m : M A) → Keeps m → Keeps (ignore m)
  ignore-Keeps m h w = record { silent = (h w).silent; kept = (h w).kept }
