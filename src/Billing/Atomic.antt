-- ===== src/Billing/Atomic.antt =====
-- Rules for transactions of internal/billing/repository.go.
use vpn_price_public.Base.{◌≡◌, refl, ◌∙◌, inl, inr, Bool-cases}
use vpn_price_public.Billing.Model.{Result, ok, err}
use vpn_price_public.Billing.Store.{
  Db, World, M, ◌>>=◌, fault_of, tick, rest_of, continue, commit, statement, transaction,
}

-- What an action did to a world: the statements that it used up leave the clock and the issuer
-- alone.
abbrev pub SameRest : World → World → Type 0
SameRest w w' = (w'.now ≡ w.now) × (w'.issued ≡ w.issued)

-- An action that failed has left the database as it was; one that succeeded has done `done`.
abbrev pub Atomic : {A : Type 0} → (Db → A → Db → Type 0) → World → Result A × World → Type 0
Atomic done w (ok a, w') = done w.db a w'.db × SameRest w w'
Atomic done w (err e, w') = (w'.db ≡ w.db) × SameRest w w'

-- What is to be shown of the body of a transaction.
abbrev pub Does : {A : Type 0} → (Db → A → Db → Type 0) → World → Result A × World → Type 0
Does done w (ok a, w') = done w.db a w'.db × SameRest w w'
Does done w (err e, w') = SameRest w w'

pub Does-after :
    {B : Type 0} (done : Db → B → Db → Type 0) (w w' : World) (r : Result B × World)
    → SameRest w w'
    → Does (λ db b db'. done w.db b db') w' r
    → Does done w r
Does-after done w w' (ok b, w2) (now, issued) (d, (now', issued')) =
    (d, (now' ∙ now, issued' ∙ issued))
Does-after done w w' (err e, w2) (now, issued) (now', issued') = (now' ∙ now, issued' ∙ issued)

commit-Atomic :
    {A : Type 0} (done : Db → A → Db → Type 0) (w : World) (r : Result A × World)
    → Does done (tick w) r
    → Atomic done w (commit w.db r)
unfolding commit
commit-Atomic done w (err e, w') h = (refl, h)
commit-Atomic done w (ok a, w') h = elim (Bool-cases (fault_of w'.faults)) [
  | inl refused ↦ rw refused (refl, h.1)
  | inr committed ↦ rw committed h
]

pub transaction-Atomic :
    {A : Type 0} (done : Db → A → Db → Type 0) (body : M A)
    → ((w : World) → Does done w (body w))
    → (w : World) → Atomic done w (transaction body w)
unfolding transaction
transaction-Atomic done body works w = elim (Bool-cases (fault_of w.faults)) [
  | inl refused ↦ rw refused (refl, (refl, refl))
  | inr begun ↦ rw begun (commit-Atomic done w (body (tick w)) (works (tick w)))
]

pub Does-continue :
    {A B : Type 0} (first : Db → A → Db → Type 0) (done : Db → B → Db → Type 0) (w : World)
    (r : Result A × World) (f : A → M B)
    → Does first w r
    → ((a : A) (w' : World) → first w.db a w'.db → Does (λ db b db'. done w.db b db') w' (f a w'))
    → Does done w (continue r f)
Does-continue first done w (err e, w') f h k = h
Does-continue first done w (ok a, w') f (step, (now, issued)) k =
    Does-after done w w' (f a w') (now, issued) (k a w' step)

Does-bind :
    {A B : Type 0} (first : Db → A → Db → Type 0) (done : Db → B → Db → Type 0) (w : World)
    (m : M A) (f : A → M B)
    → Does first w (m w)
    → ((a : A) (w' : World) → first w.db a w'.db → Does (λ db b db'. done w.db b db') w' (f a w'))
    → Does done w ((m >>= f) w)
Does-bind first done w m f h k = Does-continue first done w (m w) f h k

Does-run :
    {A : Type 0} (run : Db → Result A × Db) (w : World) (r : Result A × Db)
    → run w.db ≡ r
    → Does
        (λ db a db'. run db ≡ (ok a, db'))
        w
        (r.0, record w { db = r.1; faults = rest_of w.faults })
Does-run run w (ok a, db) e = (e, (refl, refl))
Does-run run w (err x, db) e = (refl, refl)

Does-statement :
    {A : Type 0} (run : Db → Result A × Db) (w : World)
    → Does (λ db a db'. run db ≡ (ok a, db')) w (statement run w)
unfolding statement
Does-statement run w = elim (Bool-cases (fault_of w.faults)) [
  | inl refused ↦ rw refused (refl, refl)
  | inr sent ↦ rw sent (Does-run run w (run w.db) refl)
]

-- A statement, and what follows it.
pub Does-step :
    {A B : Type 0} (done : Db → B → Db → Type 0) (w : World) (run : Db → Result A × Db)
    (f : A → M B)
    → ((a : A) (w' : World)
        → run w.db ≡ (ok a, w'.db)
        → Does (λ _ b db'. done w.db b db') w' (f a w'))
    → Does done w (continue (statement run w) f)
Does-step done w run f k =
    Does-continue (λ db a db'. run db ≡ (ok a, db')) done w (statement run w) f
      (Does-statement run w) k

Does-of :
    {A : Type 0} (done : Db → A → Db → Type 0) (w : World) (r : Result A × Db)
    → ((a : A) (db' : Db) → r ≡ (ok a, db') → done w.db a db')
    → Does done w (r.0, record w { db = r.1; faults = rest_of w.faults })
Does-of done w (ok a, db) k = (k a db refl, (refl, refl))
Does-of done w (err x, db) k = (refl, refl)

pub Does-end :
    {A : Type 0} (done : Db → A → Db → Type 0) (w : World) (run : Db → Result A × Db)
    → ((a : A) (db' : Db) → run w.db ≡ (ok a, db') → done w.db a db')
    → Does done w (statement run w)
unfolding statement
Does-end done w run k = elim (Bool-cases (fault_of w.faults)) [
  | inl refused ↦ rw refused (refl, refl)
  | inr sent ↦ rw sent (Does-of done w (run w.db) k)
]

pub Does-weaken :
    {A : Type 0} (done done' : Db → A → Db → Type 0) (w : World) (r : Result A × World)
    → ((a : A) (db' : Db) → done w.db a db' → done' w.db a db')
    → Does done w r
    → Does done' w r
Does-weaken done done' w (ok a, w') k (d, rest) = (k a w'.db d, rest)
Does-weaken done done' w (err e, w') k rest = rest
