-- ===== src/Vpn/Fleet/Ends.antt =====
-- internal/vpn: rules for actions that succeed.
use vpn_price_public.Base.{
  ◌≡◌, refl, sym, inl, inr, Bool, true, false, none, some, arith, if◌then◌else◌, Bool-cases, Option,
  subst,
}
use vpn_price_public.Vpn.Fleet.Model.{VpnError, refused, Result, ok, err}
use vpn_price_public.Vpn.Fleet.Store.{
  Tables, World, M, continue, access, statement, in_db, tick, fault_of, commit, transaction,
}
use vpn_price_public.Vpn.Fleet.Selection.{found_or}

-- A chain that succeeds has succeeded in its first step and in what follows it.
pub continue-ok :
    {A B : Type 0} (r : Result A × World) (f : A → M B) {b : B} {w : World}
    → continue r f ≡ (ok b, w)
    → (a : A) × (v : World) × (r ≡ (ok a, v)) × (f a v ≡ (ok b, w))
unfolding continue
continue-ok (ok a, v) f e = (a, v, refl, e)
continue-ok (err x, v) f e = ground arith

pub access-ok :
    {A : Type 0} (run : World → Result A × World) (w : World) {a : A} {v : World}
    → access run w ≡ (ok a, v)
    → run (tick w) ≡ (ok a, v)
unfolding access
access-ok run w {a} {v} e = elim (Bool-cases (fault_of w.faults)) [
  | inl failed ↦ ground arith
  | inr served ↦
      subst (λ (b : Bool). (if b then (err refused, tick w) else run (tick w)) ≡ (ok a, v)) served e
]

in_db-ok :
    {A : Type 0} (w : World) (r : Result A × Tables) {a : A} {v : World}
    → in_db w r ≡ (ok a, v)
    → r ≡ (ok a, v.db)
in_db-ok w (ok b, db) {a} {v} e = ground arith
in_db-ok w (err x, db) {a} {v} e = ground arith

pub statement-ok :
    {A : Type 0} (run : Tables → Result A × Tables) (w : World) {a : A} {v : World}
    → statement run w ≡ (ok a, v)
    → run w.db ≡ (ok a, v.db)
statement-ok run w e = in_db-ok (tick w) (run w.db) (access-ok _ w e)

-- If it succeeds, then with such a result and in such a state.
pub record Ends {A : Type 0} (P : A → World → Type 0) (r : Result A × World) : Type 0 where
  pub ends : {a : A} {v : World} → r ≡ (ok a, v) → P a v

pub Ends-continue :
    {A B : Type 0} (P : B → World → Type 0) (r : Result A × World) (f : A → M B)
    → ((a : A) (v : World) → r ≡ (ok a, v) → Ends P (f a v))
    → Ends P (continue r f)
Ends-continue P r f k = record {
  ends = λ e. let (a, v, first, rest) = continue-ok r f e in (k a v first).ends rest;
}

pub Ends-pure : {A : Type 0} (P : A → World → Type 0) (a : A) (v : World) → P a v → Ends P (ok a, v)
Ends-pure {A = A} P a v h = record {
  ends = λ {a = b} {v = u} e.
      subst (λ (x : A × World). P x.0 x.1) {x = (a, v)} {y = (b, u)} (ground arith) h;
}

commit-ok :
    {A : Type 0} (saved : Tables) (r : Result A × World) {a : A} {v : World}
    → commit saved r ≡ (ok a, v)
    → (u : World) × (r ≡ (ok a, u)) × (v.db ≡ u.db)
unfolding commit
commit-ok saved (err x, u) {a} {v} e = ground arith
commit-ok saved (ok b, u) {a} {v} e = elim (Bool-cases (fault_of u.faults)) [
  | inl failed ↦ ground arith
  | inr done ↦ (u, ground arith, ground arith)
]

pub transaction-ok :
    {A : Type 0} (body : M A) (w : World) {a : A} {v : World}
    → transaction body w ≡ (ok a, v)
    → (u : World) × (body (tick w) ≡ (ok a, u)) × (v.db ≡ u.db)
unfolding transaction
transaction-ok body w {a} {v} e = elim (Bool-cases (fault_of w.faults)) [
  | inl failed ↦ ground arith
  | inr begun ↦ commit-ok w.db (body (tick w)) (
      subst
        (λ (b : Bool).
          (if b then (err refused, tick w) else commit w.db (body (tick w))) ≡ (ok a, v))
        begun e)
]

pub Ends-transaction :
    {A : Type 0} (P : A → Tables → Type 0) (body : M A) (w : World)
    → Ends (λ a v. P a v.db) (body (tick w))
    → Ends (λ a v. P a v.db) (transaction body w)
Ends-transaction P body w h = record {
  ends = λ {a} {v} e.
      let (u, done, committed) = transaction-ok body w e in
      subst (P a) (sym committed) (h.ends done);
}

pub found_or-ok :
    {A : Type 0} (x : VpnError) (o : Option A) {a : A} → found_or x o ≡ ok a → o ≡ some a
found_or-ok x none {a} e = ground arith
found_or-ok x (some b) {a} e = ground arith

-- The kinds of statement: a query, a write, and an insertion that an index may refuse.
pub query-ok :
    {A : Type 0} (answer : Tables → Result A) (w : World) {a : A} {v : World}
    → statement (λ db. (answer db, db)) w ≡ (ok a, v)
    → (answer w.db ≡ ok a) × (v.db ≡ w.db)
query-ok answer w e = let h = statement-ok _ w e in (ground arith, ground arith)

pub write-ok :
    {A : Type 0} (answer : Tables → A) (f : Tables → Tables) (w : World) {a : A} {v : World}
    → statement (λ db. (ok (answer db), f db)) w ≡ (ok a, v)
    → (a ≡ answer w.db) × (v.db ≡ f w.db)
write-ok answer f w e = let h = statement-ok _ w e in (ground arith, ground arith)

insertion-ok :
    {A : Type 0} (b : Bool) (x : VpnError) (row a : A) (db db' db'' : Tables)
    → ◌≡◌ {A = Result A × Tables} (if b then (err x, db) else (ok row, db')) (ok a, db'')
    → (b ≡ false) × (a ≡ row) × (db'' ≡ db')
insertion-ok true x row a db db' db'' e = ground arith
insertion-ok false x row a db db' db'' e = (refl, ground arith, ground arith)

pub insert-ok :
    {A : Type 0} (taken : Tables → Bool) (x : VpnError) (answer : Tables → A) (f : Tables → Tables)
    (w : World) {a : A} {v : World}
    → statement (λ db. if taken db then (err x, db) else (ok (answer db), f db)) w ≡ (ok a, v)
    → (taken w.db ≡ false) × (a ≡ answer w.db) × (v.db ≡ f w.db)
insert-ok taken x answer f w e = insertion-ok (taken w.db) x _ _ _ _ _ (statement-ok _ w e)
