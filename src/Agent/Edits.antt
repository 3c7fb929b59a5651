-- ===== src/Agent/Edits.antt =====
-- cmd/agent/main.go, `editXrayClients`: edits that follow each other, and clients that are there.
use mathlib.Core.Path.{fun_ext}
use vpn_price_public.Base.{
  ◌≡◌, ◌⊎◌, refl, ◌∙◌, ap, inl, inr, true, false, Option, none, some, arith, Bool-cases, Text,
  text_eq, codes, text_eq_refl, text_eq-eq,
}
use vpn_price_public.Base.Json.{Json, Items, Members, get, set, as_array, as_object, append_item}
use vpn_price_public.Agent.Xray.{
  Outcome, ok, err, is_client, exists_client, without_client, edit_clients, items_or_nil,
  edit_settings, members_or_empty, edit_inbound, has_tag, cons_outcome, edit_first, with_inbounds,
  edit_inbounds, edit_config,
}

get-set : (key : Text) (v : Json) (m : Members) → get key (set key v m) ≡ v
get-set key v Members.empty = rw (text_eq_refl key) refl
get-set key v (Members.member k x m) = elim (Bool-cases (text_eq k key)) [
  | inl hit ↦ rw (hit, hit) refl
  | inr miss ↦ rw (miss, miss) (get-set key v m)
]

set-set : (key : Text) (v u : Json) (m : Members) → set key u (set key v m) ≡ set key u m
set-set key v u Members.empty = rw (text_eq_refl key) refl
set-set key v u (Members.member k x m) = elim (Bool-cases (text_eq k key)) [
  | inl hit ↦ rw (hit, hit) refl
  | inr miss ↦ rw (miss, miss) (ap (Members.member k x) (set-set key v u m))
]

get-set-other :
    (key other : Text) (v : Json) (m : Members)
    → text_eq key other ≡ false
    → get other (set key v m) ≡ get other m
get-set-other key other v Members.empty h = rw h refl
get-set-other key other v (Members.member k x m) h = elim (Bool-cases (text_eq k key)) [
  | inl hit ↦
      let apart : text_eq k other ≡ false = rw (text_eq-eq k key hit) h in rw (hit, apart) refl
  | inr miss ↦ rw (miss, get-set-other key other v m h) refl
]

has_tag-object :
    (tag : Text) (ib : Json)
    → has_tag tag ib ≡ true
    → has_tag tag (Json.object (members_or_empty (as_object ib))) ≡ true
has_tag-object tag (Json.object m) h = h
has_tag-object tag Json.null h = ground arith
has_tag-object tag (Json.boolean b) h = ground arith
has_tag-object tag (Json.number t) h = ground arith
has_tag-object tag (Json.string t) h = ground arith
has_tag-object tag (Json.array xs) h = ground arith

cons_outcome-ok :
    (ib : Json) (o : Outcome Items) {ibs : Items}
    → cons_outcome ib o ≡ ok ibs
    → (rest : Items) × (o ≡ ok rest) × (ibs ≡ Items.cons ib rest)
cons_outcome-ok ib (ok rest) {ibs} e = (rest, refl, ground arith)
cons_outcome-ok ib (err x) {ibs} e = ground arith

-- The two ways in which the loop over the inbounds goes on.
edit_first-ok :
    (f : Items → Items) (tag : Text) (ib : Json) (ibs : Items) {ibs' : Items}
    → edit_first f tag (Items.cons ib ibs) ≡ ok ibs'
    → ((has_tag tag ib ≡ true)
        × (ibs' ≡ Items.cons (Json.object (edit_inbound f (members_or_empty (as_object ib)))) ibs))
      ⊎ ((has_tag tag ib ≡ false)
          × ((rest : Items) × (edit_first f tag ibs ≡ ok rest) × (ibs' ≡ Items.cons ib rest)))
edit_first-ok f tag ib ibs {ibs'} e = elim (Bool-cases (has_tag tag ib)) [
  | inl hit ↦ inl (hit, ground arith)
  | inr miss ↦ inr (miss, cons_outcome-ok ib (edit_first f tag ibs) (ground arith))
]

module _ (f g : Items → Items) where
  edit_settings-twice :
      (m : Members) → edit_settings g (edit_settings f m) ≡ edit_settings (λ cs. g (f cs)) m
  edit_settings-twice m =
      rw
        (get-set (codes "clients")
          (Json.array (f (items_or_nil (as_array (get (codes "clients") m))))) m)
        (set-set (codes "clients") _ _ m)

  edit_inbound-twice :
      (m : Members) → edit_inbound g (edit_inbound f m) ≡ edit_inbound (λ cs. g (f cs)) m
  edit_inbound-twice m =
      let inner : Members = members_or_empty (as_object (get (codes "settings") m)) in
      rw
        (
          get-set (codes "settings") (Json.object (edit_settings f inner)) m,
          edit_settings-twice inner,
        )
        (set-set (codes "settings") _ _ m)

  has_tag-edit :
      (tag : Text) (m : Members)
      → has_tag tag (Json.object (edit_inbound f m)) ≡ has_tag tag (Json.object m)
  has_tag-edit tag m =
      rw
        (get-set-other (codes "settings") (codes "tag")
          (Json.object (edit_settings f (members_or_empty (as_object (get (codes "settings") m)))))
          m refl)
        refl

  edit_first-twice :
      (tag : Text) (ibs : Items) {ibs' : Items}
      → edit_first f tag ibs ≡ ok ibs'
      → edit_first g tag ibs' ≡ edit_first (λ cs. g (f cs)) tag ibs
  edit_first-twice tag Items.nil {ibs'} e = ground arith
  edit_first-twice tag (Items.cons ib ibs) {ibs'} e = elim (edit_first-ok f tag ib ibs e) [
    | inl (hit, left) ↦
        let m : Members = members_or_empty (as_object ib) in
        let again = has_tag-edit tag m ∙ has_tag-object tag ib hit in
        rw (left, again, hit, edit_inbound-twice m) refl
    | inr (miss, (rest, found, left)) ↦
        rw (left, miss) (ap (cons_outcome ib) (edit_first-twice tag ibs found))
  ]

  with_inbounds-ok :
      (cfg : Members) (o : Outcome Items) {cfg' : Members}
      → with_inbounds cfg o ≡ ok cfg'
      → (ibs : Items) × (o ≡ ok ibs) × (cfg' ≡ set (codes "inbounds") (Json.array ibs) cfg)
  with_inbounds-ok cfg (ok ibs) {cfg'} e = (ibs, refl, ground arith)
  with_inbounds-ok cfg (err x) {cfg'} e = ground arith

  with_inbounds-set :
      (v : Json) (cfg : Members) (o : Outcome Items)
      → with_inbounds (set (codes "inbounds") v cfg) o ≡ with_inbounds cfg o
  with_inbounds-set v cfg (ok ibs) = ap ok (set-set (codes "inbounds") v (Json.array ibs) cfg)
  with_inbounds-set v cfg (err x) = refl

  edit_inbounds-twice :
      (tag : Text) (cfg : Members) (o : Option Items) {cfg' : Members}
      → edit_inbounds f tag cfg o ≡ ok cfg'
      → edit_config g tag cfg' ≡ edit_inbounds (λ cs. g (f cs)) tag cfg o
  unfolding edit_config
  edit_inbounds-twice tag cfg none {cfg'} e = ground arith
  edit_inbounds-twice tag cfg (some ibs) {cfg'} e =
      let (ibs', found, left) = with_inbounds-ok cfg (edit_first f tag ibs) e in
      rw (left, get-set (codes "inbounds") (Json.array ibs') cfg)
        (with_inbounds-set (Json.array ibs') cfg (edit_first g tag ibs')
          ∙ ap (with_inbounds cfg) (edit_first-twice tag ibs found))

  edit_config-twice :
      (tag : Text) (cfg : Members) {cfg' : Members}
      → edit_config f tag cfg ≡ ok cfg'
      → edit_config g tag cfg' ≡ edit_config (λ cs. g (f cs)) tag cfg
  unfolding edit_config
  edit_config-twice tag cfg e =
      edit_inbounds-twice tag cfg (as_array (get (codes "inbounds") cfg)) e

exists-append :
    (field value : Text) (c : Json) (cs : Items)
    → is_client field value c ≡ true
    → exists_client field value (append_item cs c) ≡ true
exists-append field value c Items.nil h = rw h refl
exists-append field value c (Items.cons d cs) h = ground (arith, exists-append field value c cs h)

without-append :
    (field value : Text) (c : Json) (cs : Items)
    → is_client field value c ≡ true
    → without_client field value (append_item cs c) ≡ without_client field value cs
without-append field value c Items.nil h = rw h refl
without-append field value c (Items.cons d cs) h = ground (arith, without-append field value c cs h)

edit-twice :
    (field value : Text) (c d : Json) (cs : Items)
    → is_client field value c ≡ true
    → (edit_clients field value true c (edit_clients field value true c cs)
        ≡ edit_clients field value true c cs)
      × (edit_clients field value false d (edit_clients field value true c cs)
          ≡ edit_clients field value false d cs)
edit-twice field value c d cs h = elim (Bool-cases (exists_client field value cs)) [
  | inl there ↦ rw (there, there) (refl, refl)
  | inr absent ↦
      rw (absent, exists-append field value c cs h) (refl, without-append field value c cs h)
]

-- If adding a client to the configuration of Xray succeeds, adding it again changes nothing, and
-- removing it gives what removing it from the original configuration gives; for a client that is
-- itself matched by the value.
pub edit_config-again :
    (field value tag : Text) (c d : Json) (cfg : Members) {cfg' : Members}
    → is_client field value c ≡ true
    → edit_config (edit_clients field value true c) tag cfg ≡ ok cfg'
    → (edit_config (edit_clients field value true c) tag cfg' ≡ ok cfg')
      × (edit_config (edit_clients field value false d) tag cfg'
          ≡ edit_config (edit_clients field value false d) tag cfg)
edit_config-again field value tag c d cfg {cfg'} h e =
    let add : Items → Items = edit_clients field value true c in
    let remove : Items → Items = edit_clients field value false d in
    (
      edit_config-twice add add tag cfg e
          ∙ (ap (λ k. edit_config k tag cfg) (fun_ext (λ cs. (edit-twice field value c d cs h).0))
              ∙ e),
      edit_config-twice add remove tag cfg e
          ∙ ap (λ k. edit_config k tag cfg) (fun_ext (λ cs. (edit-twice field value c d cs h).1)),
    )
