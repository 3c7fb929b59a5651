-- ===== src/Agent/Failures.antt =====
-- cmd/agent/main.go, `editXrayClients`: the configuration file after an edit, also one that fails.
use vpn_price_public.Base.{
  ℕ, ◌≡◌, ◌⊎◌, refl, inl, inr, Bool, true, Option, none, some, List, arith, take, is_empty,
  Bool-cases, subst, Text, codes,
}
use vpn_price_public.Base.Json.{Json, Items, Members, get, as_array}
use vpn_price_public.Agent.Xray.{
  AgentError, field_required, no_inbounds, tag_not_found, read_failed, parse_failed, write_failed,
  reload_failed, Outcome, ok, err, has_tag, edit_clients, cons_outcome, edit_first, edit_inbounds,
  edit_config, with_inbounds,
}
use vpn_price_public.Agent.Node.{
  Agent, Node, Act, ◌>>=◌, ◌>>◌, Fault, fine, refused, cut, fails, after, access, run, written,
  write_config, lift, parsed, fault_of, rest_of, edit_xray_clients,
}

-- The text that the edit makes of the text of the file.
abbrev pub IsEdited : Agent → Text → Text → Text → Bool → Json → Text → Text → Type 0
IsEdited a tag field value add c old new =
    (cfg : Members) × (edited : Members) × (a.parse old ≡ some cfg)
    × (edit_config (edit_clients field value add c) tag cfg ≡ ok edited)
    × (new ≡ a.marshal edited)

-- An error before the file is written, with its cause: there is no value to match by, the file
-- cannot be read or parsed, or the inbound is not there.
abbrev pub IsEarly : Agent → Text → Text → Text → Bool → Json → Node → AgentError → Type 0
IsEarly a tag field value add c n e =
    ((e ≡ field_required) × (is_empty value ≡ true))
    ⊎ (((e ≡ read_failed) × (fails (fault_of n.faults) ≡ true))
        ⊎ (((e ≡ parse_failed) × (a.parse n.xray_config ≡ none))
            ⊎ (((e ≡ no_inbounds) ⊎ (e ≡ tag_not_found))
                × ((cfg : Members) × (a.parse n.xray_config ≡ some cfg)
                    × (edit_config (edit_clients field value add c) tag cfg ≡ err e)))))

-- The faults that the write and the reload meet, after the one of the reading.
abbrev pub write_fault : Node → Fault
write_fault n = fault_of (rest_of n.faults)

abbrev pub reload_fault : Node → Fault
reload_fault n = fault_of (rest_of (rest_of n.faults))

-- What is in the file after an error: the old text if it is early; the old text or a first part of
-- the new one if the write fails; the new text if the reload fails.
abbrev pub LeftBy : (Text → Type 0) → (AgentError → Type 0) → Node → AgentError → Text → Type 0
LeftBy New Early n e file =
    (Early e × (file ≡ n.xray_config))
    ⊎ (((e ≡ write_failed)
          × (fails (write_fault n) ≡ true)
          × ((file ≡ n.xray_config) ⊎ ((new : Text) × (k : ℕ) × New new × (file ≡ take k new))))
        ⊎ ((e ≡ reload_failed) × (fails (reload_fault n) ≡ true) × New file))

abbrev pub Ends :
    (Text → Type 0) → (AgentError → Type 0) → Node → Outcome (Unit {0}) × Node → Type 0
Ends New Early n r =
    ((r.0 ≡ ok tt) × New r.1.xray_config)
    ⊎ ((e : AgentError) × (r.0 ≡ err e) × LeftBy New Early n e r.1.xray_config)

cons_outcome-err :
    (ib : Json) (r : Outcome Items) {e : AgentError} → cons_outcome ib r ≡ err e → r ≡ err e
cons_outcome-err ib (ok rest) {e} h = ground arith
cons_outcome-err ib (err x) {e} h = ground arith

edit_first-err :
    (f : Items → Items) (tag : Text) (ibs : Items) {e : AgentError}
    → edit_first f tag ibs ≡ err e
    → e ≡ tag_not_found
edit_first-err f tag Items.nil {e} h = ground arith
edit_first-err f tag (Items.cons ib ibs) {e} h = elim (Bool-cases (has_tag tag ib)) [
  | inl hit ↦ ground arith
  | inr miss ↦ edit_first-err f tag ibs (cons_outcome-err ib _ (ground arith))
]

with_inbounds-err :
    (cfg : Members) (r : Outcome Items) {e : AgentError} → with_inbounds cfg r ≡ err e → r ≡ err e
with_inbounds-err cfg (ok ibs) {e} h = ground arith
with_inbounds-err cfg (err x) {e} h = ground arith

edit_inbounds-err :
    (f : Items → Items) (tag : Text) (cfg : Members) (found : Option Items) {e : AgentError}
    → edit_inbounds f tag cfg found ≡ err e
    → (e ≡ no_inbounds) ⊎ (e ≡ tag_not_found)
edit_inbounds-err f tag cfg none {e} h = inl (ground arith)
edit_inbounds-err f tag cfg (some ibs) {e} h =
    inr (edit_first-err f tag ibs (with_inbounds-err cfg (edit_first f tag ibs) h))

edit_config-err :
    (f : Items → Items) (tag : Text) (cfg : Members) {e : AgentError}
    → edit_config f tag cfg ≡ err e
    → (e ≡ no_inbounds) ⊎ (e ≡ tag_not_found)
unfolding edit_config
edit_config-err f tag cfg {e} h =
    edit_inbounds-err f tag cfg (as_array (get (codes "inbounds") cfg)) h

module _ (New : Text → Type 0) (Early : AgentError → Type 0) (n : Node) where
  Ends-run :
      (argv : List Text) (m : Node)
      → New m.xray_config
      → fault_of m.faults ≡ reload_fault n
      → Ends New Early n (run reload_failed argv m)
  unfolding access
  Ends-run argv m new third = elim (Bool-cases (fails (fault_of m.faults))) [
    | inl failed ↦
        let cause : fails (reload_fault n) ≡ true =
          subst (λ (x : Fault). fails x ≡ true) third failed in
        rw failed (inr (reload_failed, refl, inr (inr (refl, cause, new))))
    | inr done ↦ rw done (inl (refl, new))
  ]

  Ends-written :
      (text : Text) (argv : List Text) (fault : Fault) (m : Node)
      → New text
      → m.xray_config ≡ n.xray_config
      → fault ≡ write_fault n
      → fault_of m.faults ≡ reload_fault n
      → Ends New Early n (after (written text fault m) (λ u. run reload_failed argv))
  unfolding after
  Ends-written text argv fine m new same second third = Ends-run argv _ new third
  Ends-written text argv refused m new same second third = inr (
    write_failed,
    refl,
    inr (inl (refl, subst (λ (x : Fault). fails x ≡ true) second refl, inl same)),
  )
  Ends-written text argv (cut k) m new same second third = inr (
    write_failed,
    refl,
    inr (inl (refl, subst (λ (x : Fault). fails x ≡ true) second refl, inr (text, k, new, refl))),
  )

module _ (a : Agent) (tag field value : Text) (add : Bool) (c : Json) where
  abbrev edited_from : Members → Outcome Members
  edited_from cfg = edit_config (edit_clients field value add c) tag cfg

  -- What follows the reading of the file.
  abbrev edit_text : List Text → Option Members → Act (Unit {0})
  edit_text argv found = do
    cfg ← lift (parsed found)
    edited ← lift (edited_from cfg)
    write_config (a.marshal edited)
    run reload_failed argv

  abbrev after_read : Node → Node
  after_read n = record n { faults = rest_of n.faults }

  Ends-config :
      (New : Text → Type 0) (Early : AgentError → Type 0) (n : Node) (argv : List Text)
      (r : Outcome Members)
      → ((e : AgentError) → r ≡ err e → Early e)
      → ((edited : Members) → r ≡ ok edited → New (a.marshal edited))
      → Ends New Early n (
          (do edited ← lift r; write_config (a.marshal edited); run reload_failed argv)
            (after_read n))
  unfolding after
  Ends-config New Early n argv (ok x) first new =
      Ends-written New Early n (a.marshal x) argv _ _ (new x refl) refl refl refl
  Ends-config New Early n argv (err x) first new = inr (x, refl, inl (first x refl, refl))

  Ends-text :
      (New : Text → Type 0) (Early : AgentError → Type 0) (n : Node) (argv : List Text)
      (found : Option Members)
      → (found ≡ none → Early parse_failed)
      → ((cfg : Members) (e : AgentError) → found ≡ some cfg → edited_from cfg ≡ err e → Early e)
      → ((cfg edited : Members)
          → found ≡ some cfg
          → edited_from cfg ≡ ok edited
          → New (a.marshal edited))
      → Ends New Early n (edit_text argv found (after_read n))
  unfolding after
  Ends-text New Early n argv none garbled missing new =
      inr (parse_failed, refl, inl (garbled refl, refl))
  Ends-text New Early n argv (some cfg) garbled missing new =
      Ends-config New Early n argv (edited_from cfg) (λ e h. missing cfg e refl h)
        (λ edited h. new cfg edited refl h)

  Ends-edit :
      (New : Text → Type 0) (Early : AgentError → Type 0) (n : Node)
      → (is_empty value ≡ true → Early field_required)
      → (fails (fault_of n.faults) ≡ true → Early read_failed)
      → (a.parse n.xray_config ≡ none → Early parse_failed)
      → ((cfg : Members) (e : AgentError)
          → a.parse n.xray_config ≡ some cfg
          → edited_from cfg ≡ err e
          → Early e)
      → ((cfg edited : Members)
          → a.parse n.xray_config ≡ some cfg
          → edited_from cfg ≡ ok edited
          → New (a.marshal edited))
      → Ends New Early n (edit_xray_clients a tag field value add c n)
  unfolding edit_xray_clients after access
  Ends-edit New Early n unnamed unread garbled missing new = elim (Bool-cases (is_empty value)) [
    | inl h ↦ rw h (inr (field_required, refl, inl (unnamed h, refl)))
    | inr given ↦ rw given (elim (Bool-cases (fails (fault_of n.faults))) [
      | inl h ↦ rw h (inr (read_failed, refl, inl (unread h, refl)))
      | inr read ↦ rw read (Ends-text New Early n _ (a.parse n.xray_config) garbled missing new)
    ])
  ]

  -- An edit of the clients either succeeds, with the edited text in the configuration file; or
  -- fails before the file is written, with the old text in it, and then because there is no value
  -- to match by, the file cannot be read, its text cannot be parsed, or the edit of the
  -- configuration fails for want of inbounds or of the tag; or fails because writing fails, with
  -- the old text or the first bytes of the edited one in it; or fails because the reload of Xray
  -- fails, with the edited text in it. The edited text is what the configuration read from the old
  -- text is printed as after the edit.
  pub edit_xray_clients_lem :
      (n : Node)
      → Ends
          (IsEdited a tag field value add c n.xray_config)
          (IsEarly a tag field value add c n)
          n
          (edit_xray_clients a tag field value add c n)
  edit_xray_clients_lem n =
      Ends-edit (IsEdited a tag field value add c n.xray_config) (IsEarly a tag field value add c n)
        n (λ h. inl (refl, h)) (λ h. inr (inl (refl, h))) (λ h. inr (inr (inl (refl, h))))
        (λ cfg e known h. inr (inr (inr (edit_config-err _ tag cfg h, (cfg, known, h)))))
        (λ cfg edited known done. (cfg, edited, known, done, refl))
