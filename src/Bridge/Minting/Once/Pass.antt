-- ===== src/Bridge/Minting/Once/Pass.antt =====
-- `_resolve_in_flight` keeps the bridge safe.
use obsidion.Prelude.{
  ℕ, ◌≡◌, refl, sym, ◌∙◌, ap, subst, inl, inr, List, [], ◌∷◌, Option, none, some, Bool-cases,
}
use obsidion.Prelude.Int.{ℤ}
use obsidion.Prelude.Eq.{◌=?◌, ℕ_eq, List_eq, =?-eq}
use obsidion.Prelude.Result.{Result, ok, err, ok-injective}
use obsidion.Table.Laws.{lookup-update, update-IsKeyed}
use obsidion.Bridge.Event.{Text, State_eq, ready, Payload}
use obsidion.Bridge.Ledger.{BridgeLedger, set_state, mark_done}
use obsidion.Bridge.Ledger.Forward.Methods.{mark_done-Extends}
use obsidion.Bridge.Minting.{
  Cluster, MintReport, memo_for, return_to_queue, resolve_as, resolve_all,
}
use obsidion.Bridge.Minting.Runtime.{Machine, ◌>>=◌, ◌>>◌, give, on_ledger}
use obsidion.Bridge.Minting.Once.{IsCluster, Safe, Safe-Extends, Safe-fewer}
use obsidion.Bridge.Minting.Once.Rules.{Post, Post-continue, Post-on_ledger, Post-on_cluster}

module _ {W : Type 0} (solana : Cluster W) (can_land : Text → W → ℕ)
    (cluster : IsCluster W solana can_land) where
  -- What the cluster does on its own changes nothing.
  pub Safe-later :
      (n : ℕ) (l : BridgeLedger) (w : W) → Safe can_land l w → Safe can_land l (solana.later n w)
  Safe-later n l w safe =
      Safe-fewer can_land l w (solana.later n w) (λ memo. cluster.sends_nothing n memo w) safe

  -- Back to the queue, if there is no mint.
  Safe-return_to_queue :
      (key : Text) (l l' : BridgeLedger) (w : W)
      → can_land (memo_for key) w ≡ 0
      → Safe can_land l w
      → return_to_queue key l ≡ ok l'
      → Safe can_land l' w
  unfolding return_to_queue set_state
  Safe-return_to_queue key l l' w absent (keyed, counts) h =
      subst (λ z. Safe can_land z w) (ok-injective h)
        (
          update-IsKeyed key (λ row. record row { state = ready }) l.events keyed,
          λ other. elim (Bool-cases (key =? other)) [
            | inl e ↦ inl (ap (λ z. can_land (memo_for z) w) (sym (=?-eq key other e)) ∙ absent)
            | inr e ↦ elim (counts other) [
              | inl none_yet ↦ inl none_yet
              | inr (one, (row, found, sent)) ↦ inr (
                one,
                (
                  row,
                  lookup-update key other (λ r. record r { state = ready }) l.events
                      ∙ (rw (e, found) refl),
                  sent,
                ),
              )
            ]
          ],
        )

  abbrev pub SafeStill : MintReport → BridgeLedger → W → Type 0
  SafeStill report l w = Safe can_land l w

  resolve_as-Safe :
      (key : Text) (answer : Result Text (Option Text)) (report : MintReport) (m : Machine W)
      → answer ≡ solana.minter.find_mint (memo_for key) m.cluster
      → Safe can_land m.ledger m.cluster
      → Post can_land SafeStill (resolve_as solana key answer report m)
  unfolding resolve_as ◌>>=◌ ◌>>◌ give
  resolve_as-Safe key (err reason) report m asked safe = safe
  resolve_as-Safe key (ok none) report m asked safe =
      Post-continue can_land (λ u l w. Safe can_land l w) SafeStill
        (on_ledger (return_to_queue key) m) _
        (Post-on_ledger can_land (λ u l w. Safe can_land l w) (return_to_queue key) m safe
          (λ l h.
            Safe-return_to_queue key m.ledger l m.cluster
              (cluster.finds_none (memo_for key) m.cluster (sym asked)) safe h))
        (λ u n h. h)
  resolve_as-Safe key (ok (some [])) report m asked safe =
      Post-continue can_land (λ u l w. Safe can_land l w) SafeStill
        (on_ledger (return_to_queue key) m) _
        (Post-on_ledger can_land (λ u l w. Safe can_land l w) (return_to_queue key) m safe
          (λ l h.
            Safe-return_to_queue key m.ledger l m.cluster
              (cluster.finds_signature (memo_for key) m.cluster (sym asked)) safe h))
        (λ u n h. h)
  resolve_as-Safe key (ok (some (c ∷ signature))) report m asked safe =
      Post-continue can_land (λ u l w. Safe can_land l w) SafeStill
        (on_ledger (mark_done key (c ∷ signature)) m) _
        (Post-on_ledger can_land (λ u l w. Safe can_land l w) (mark_done key (c ∷ signature)) m safe
          (λ l h.
            Safe-Extends can_land m.ledger l m.cluster
              (mark_done-Extends key (c ∷ signature) m.ledger l h) safe))
        (λ u n h. h)

  pub resolve_all-Safe :
      (rows : List (Text × ℤ × Payload)) (report : MintReport) (m : Machine W)
      → Safe can_land m.ledger m.cluster
      → Post can_land SafeStill (resolve_all solana rows report m)
  unfolding resolve_all ◌>>=◌ give
  resolve_all-Safe [] report m safe = safe
  resolve_all-Safe ((key, amount, payload) ∷ rows) report m safe =
      let Asked : Result Text (Option Text) → BridgeLedger → W → Type 0 =
        λ answer l w. (answer ≡ solana.minter.find_mint (memo_for key) w) × Safe can_land l w in
      Post-continue can_land Asked SafeStill _ _
        (Post-on_cluster can_land Asked (λ w. Safe can_land m.ledger w) solana.later
          (λ w. (solana.minter.find_mint (memo_for key) w, w)) m safe
          (λ n. Safe-later n m.ledger m.cluster safe) (λ w safe1. (refl, safe1)))
        (λ answer n (asked, safe1).
          Post-continue can_land SafeStill SafeStill _ _
            (resolve_as-Safe key answer report n asked safe1)
            (λ report' k safe2. resolve_all-Safe rows report' k safe2))
