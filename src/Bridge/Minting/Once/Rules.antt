-- ===== src/Bridge/Minting/Once/Rules.antt =====
-- How a statement about the machine passes through the parts of a pass.
use obsidion.Prelude.{ℕ, zero, suc, ◌≡◌, ◌≢◌, refl, sym, ◌∙◌, ap, inl, inr, Bool-cases}
use obsidion.Prelude.Eq.{◌=?◌, ℕ_eq, List_eq, =?-ne}
use obsidion.Prelude.Result.{ok, err, >>=-eq-ok, >>-eq-ok, ok-injective, raise_if}
use obsidion.Errors.{Try, value_error, no_receipt}
use obsidion.Prelude.{some}
use obsidion.Table.{lookup}
use obsidion.Table.Laws.{lookup-update}
use obsidion.Bridge.Event.{Text, State_eq, in_flight, done}
use obsidion.Bridge.Ledger.{
  BridgeLedger, set_state, set_outcome, mark_in_flight, mark_done, require_state, can_send,
  can_finish, is_blank,
}
use obsidion.Bridge.Minting.Runtime.{
  Machine, Run, goes_on, raises, dies, Process, continue, spend, settle, on_ledger, on_cluster,
}
use obsidion.Bridge.Minting.Once.{Safe}

module _ {W : Type 0} (can_land : Text → W → ℕ) where
  -- The answer satisfies a statement; a machine that stops early is safe.
  abbrev pub Post : {A : Type 0} → (A → BridgeLedger → W → Type 0) → Run A × Machine W → Type 0
  Post Q (goes_on a, m) = Q a m.ledger m.cluster
  Post Q (raises e, m) = Safe can_land m.ledger m.cluster
  Post Q (dies, m) = Safe can_land m.ledger m.cluster

  pub Post-continue :
      {A B : Type 0} (Q : A → BridgeLedger → W → Type 0) (R : B → BridgeLedger → W → Type 0)
      (first : Run A × Machine W) (next : A → Process W B)
      → Post Q first
      → ((a : A) (m : Machine W) → Q a m.ledger m.cluster → Post R (next a m))
      → Post R (continue first next)
  Post-continue Q R (goes_on a, m) next h f = f a m h
  Post-continue Q R (raises e, m) next h f = h
  Post-continue Q R (dies, m) next h f = h

  pub Post-spend :
      {A : Type 0} (Q : A → BridgeLedger → W → Type 0) (left : ℕ) (action : Process W A)
      (m : Machine W)
      → Safe can_land m.ledger m.cluster
      → ((n : ℕ) → Post Q (action (record m { actions_left = n })))
      → Post Q (spend left action m)
  Post-spend Q zero action m safe h = safe
  Post-spend Q (suc left) action m safe h = h left

  Post-settle :
      (Q : Unit → BridgeLedger → W → Type 0) (done_or_not : Try BridgeLedger) (m : Machine W)
      → Safe can_land m.ledger m.cluster
      → ((l : BridgeLedger) → done_or_not ≡ ok l → Q tt l m.cluster)
      → Post Q (settle done_or_not m)
  Post-settle Q (ok l) m safe h = h l refl
  Post-settle Q (err e) m safe h = safe

  pub Post-on_ledger :
      (Q : Unit → BridgeLedger → W → Type 0) (method : BridgeLedger → Try BridgeLedger)
      (m : Machine W)
      → Safe can_land m.ledger m.cluster
      → ((l : BridgeLedger) → method m.ledger ≡ ok l → Q tt l m.cluster)
      → Post Q (on_ledger method m)
  unfolding on_ledger
  Post-on_ledger Q method m safe h =
      Post-spend Q m.actions_left (λ n. settle (method n.ledger) n) m safe
        (λ n. Post-settle Q (method m.ledger) (record m { actions_left = n }) safe h)

  -- What holds of the cluster by the time of the call, `K`, is kept by what it does on its own.
  pub Post-on_cluster :
      {A : Type 0} (Q : A → BridgeLedger → W → Type 0) (K : W → Type 0) (later : ℕ → W → W)
      (call : W → A × W) (m : Machine W)
      → Safe can_land m.ledger m.cluster
      → ((n : ℕ) → K (later n m.cluster))
      → ((w : W) → K w → Q ((call w).0) m.ledger ((call w).1))
      → Post Q (on_cluster later call m)
  unfolding on_cluster
  Post-on_cluster Q K later call m safe drifts h =
      Post-spend Q m.actions_left
        (λ n. (
          goes_on ((call (later n.actions_left n.cluster)).0),
          record n { cluster = (call (later n.actions_left n.cluster)).1 },
        ))
        m safe (λ n. h (later n m.cluster) (drifts n))

-- The other rows stay.
pub mark_in_flight-other :
    (key other : Text) (l l' : BridgeLedger)
    → key ≢ other
    → mark_in_flight key l ≡ ok l'
    → lookup other l'.events ≡ lookup other l.events
unfolding mark_in_flight set_state
mark_in_flight-other key other l l' apart h =
    let (s, checked, h1) = >>=-eq-ok (require_state key can_send l) _ h in
    ap (λ z. lookup other z.events) (sym (ok-injective h1))
    ∙ lookup-update key other (λ row. record row { state = in_flight }) l.events
    ∙ (rw (=?-ne key other apart) refl)

pub mark_done-other :
    (key receipt other : Text) (l l' : BridgeLedger)
    → key ≢ other
    → mark_done key receipt l ≡ ok l'
    → lookup other l'.events ≡ lookup other l.events
unfolding mark_done set_outcome
mark_done-other key receipt other l l' apart h =
    let (_, _, h1) = >>-eq-ok (raise_if (is_blank receipt) (value_error no_receipt)) _ h in
    let (s, checked, h2) = >>=-eq-ok (require_state key can_finish l) _ h1 in
    elim (Bool-cases (s =? done)) [
      | inl e ↦ ap (λ z. lookup other z.events) (sym (ok-injective (rw e at h2)))
      | inr e ↦
          ap (λ z. lookup other z.events) (sym (ok-injective (rw e at h2)))
          ∙ lookup-update key other (λ row. record row { state = done; receipt = some receipt })
              l.events
          ∙ (rw (=?-ne key other apart) refl)
    ]
