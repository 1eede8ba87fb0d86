-- ===== src/Bridge/Minting/Runtime.antt =====
-- The machine that a pass of the bridge runs on. Every action on the ledger or on the cluster uses
-- up one of the actions that are left before the process dies; what the ledger has committed and
-- what the cluster has done stay.
use obsidion.Prelude.{ℕ, zero, suc}
use obsidion.Prelude.Result.{ok, err}
use obsidion.Errors.{Error, Try}
use obsidion.Bridge.Ledger.{BridgeLedger}

pub record Machine (W : Type 0) : Type 0 where
  pub actions_left : ℕ
  pub ledger : BridgeLedger
  pub cluster : W

pub data Run (A : Type 0) : Type 0 where
  goes_on : A → Run A
  raises : Error → Run A
  dies : Run A

abbrev pub Process : Type 0 → Type 0 → Type 0
Process W A = Machine W → Run A × Machine W

module _ {W : Type 0} where
  abbrev pub continue : {A B : Type 0} → Run A × Machine W → (A → Process W B) → Run B × Machine W
  continue (goes_on a, m) next = next a m
  continue (raises e, m) next = (raises e, m)
  continue (dies, m) next = (dies, m)

  infixl 5 ◌>>=◌ ◌>>◌
  unfoldable pub ◌>>=◌ : {A B : Type 0} → Process W A → (A → Process W B) → Process W B
  (first >>= next) m = continue (first m) next

  unfoldable pub ◌>>◌ : {A B : Type 0} → Process W A → Process W B → Process W B
  first >> second = first >>= λ done. second

  unfoldable pub give : {A : Type 0} → A → Process W A
  give a m = (goes_on a, m)

  unfoldable pub raise : {A : Type 0} → Error → Process W A
  raise e m = (raises e, m)

  unfoldable pub ledger_now : Process W BridgeLedger
  ledger_now m = (goes_on m.ledger, m)

  abbrev pub settle : Try BridgeLedger → Machine W → Run Unit × Machine W
  settle (ok l) m = (goes_on tt, record m { ledger = l })
  settle (err e) m = (raises e, m)

  abbrev pub spend : {A : Type 0} → ℕ → Process W A → Process W A
  spend zero action m = (dies, m)
  spend (suc left) action m = action (record m { actions_left = left })

  -- A method of the ledger that commits or raises.
  unfoldable pub on_ledger : (BridgeLedger → Try BridgeLedger) → Process W Unit
  on_ledger method m = spend m.actions_left (λ n. settle (method n.ledger) n) m

  -- A call of the minter, which finds the cluster as it is by then.
  unfoldable pub on_cluster : {A : Type 0} → (ℕ → W → W) → (W → A × W) → Process W A
  on_cluster later call m =
      spend m.actions_left
        (λ n. (
          goes_on ((call (later n.actions_left n.cluster)).0),
          record n { cluster = (call (later n.actions_left n.cluster)).1 },
        ))
        m
