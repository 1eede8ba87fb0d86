-- ===== src/Bridge/Minting/Runs.antt =====
-- The life of a bridge: passes that may die anywhere, restarts, and calls of the ledger's methods.
use obsidion.Prelude.{ℕ, ◌≡◌, ◌≤◌, ◌⊎◌, inl, inr, List, [], ◌∷◌, arith}
use obsidion.Prelude.Eq.{ℕ_eq, List_eq}
use obsidion.Bridge.Event.{Text}
use obsidion.Bridge.Ledger.{BridgeLedger, open_ledger}
use obsidion.Bridge.Ledger.Steps.{Operation, perform, or_same}
use obsidion.Bridge.Ledger.Forward.Runs.{perform-Extends, or_same-Extends}
use obsidion.Bridge.Minting.{Cluster, MintReport, memo_for, run_once}
use obsidion.Bridge.Minting.Runtime.{Machine, Run, goes_on, raises, dies}
use obsidion.Bridge.Minting.Once.{IsCluster, Safe, Safe-Extends, IsSent}
use obsidion.Bridge.Minting.Once.Rules.{Post}
use obsidion.Bridge.Minting.Once.Pass.{Safe-later}
use obsidion.Bridge.Minting.Once.Sends.{run_once-Safe}

-- A pass with the number of actions before the process dies, a call of a method, or a time in which
-- only the cluster does something.
pub data Happening : Type 0 where
  pass : ℕ → Happening
  call : Operation → Happening
  waits : ℕ → Happening

module _ {W : Type 0} (solana : Cluster W) where
  unfoldable pub happen : Happening → BridgeLedger × W → BridgeLedger × W
  happen (pass actions) (l, w) =
      let m = (run_once solana (record { actions_left = actions; ledger = l; cluster = w })).1 in
      (m.ledger, m.cluster)
  happen (call operation) (l, w) = (or_same (perform operation l) l, w)
  happen (waits n) (l, w) = (l, solana.later n w)

  unfoldable pub live : List Happening → BridgeLedger × W → BridgeLedger × W
  live [] s = s
  live (happening ∷ happenings) s = live happenings (happen happening s)

  module _ (can_land : Text → W → ℕ) (cluster : IsCluster W solana can_land) where
    Post-Safe :
        (r : Run MintReport × Machine W)
        → Post can_land (λ report l w. Safe can_land l w) r
        → Safe can_land r.1.ledger r.1.cluster
    Post-Safe (goes_on report, m) h = h
    Post-Safe (raises e, m) h = h
    Post-Safe (dies, m) h = h

    happen-Safe :
        (happening : Happening) (s : BridgeLedger × W)
        → Safe can_land s.0 s.1
        → Safe can_land ((happen happening s).0) ((happen happening s).1)
    unfolding happen
    happen-Safe (pass actions) (l, w) safe =
        let m : Machine W = record { actions_left = actions; ledger = l; cluster = w } in
        Post-Safe (run_once solana m) (run_once-Safe solana can_land cluster m safe)
    happen-Safe (call operation) (l, w) safe =
        Safe-Extends can_land l (or_same (perform operation l) l) w
          (or_same-Extends (perform operation l) l
            (λ l' h. perform-Extends operation l l' safe.0 h))
          safe
    happen-Safe (waits n) (l, w) safe = Safe-later solana can_land cluster n l w safe

    live-Safe :
        (happenings : List Happening) (s : BridgeLedger × W)
        → Safe can_land s.0 s.1
        → Safe can_land ((live happenings s).0) ((live happenings s).1)
    unfolding live
    live-Safe [] s safe = safe
    live-Safe (happening ∷ happenings) s safe =
        live-Safe happenings (happen happening s) (happen-Safe happening s safe)

    -- Suppose that a count of the mints with a memo that are there or may still land bounds those
    -- that are there; that a call of `mint`, whether it returns or raises, adds at most one with its
    -- memo and none with another; that whatever else happens on the cluster between two calls adds
    -- none; and that `find_mint` gives no signature only if no mint with the memo is there or may
    -- still land. If no mint of the bridge is there or may land at first, then, over any sequence of
    -- passes of a new ledger that may die between any two actions, of calls of the ledger's methods
    -- and of times in which only the cluster goes on, no key is minted twice, and a key that is
    -- minted is in flight or done in the ledger.
    pub live-mints_once :
        (mints : Text → W → ℕ) (happenings : List Happening) (confirmations : ℕ) (w : W)
        (key : Text)
        → ((memo : Text) (v : W) → mints memo v ≤ can_land memo v)
        → ((other : Text) → can_land (memo_for other) w ≡ 0)
        → let s = live happenings (open_ledger confirmations, w) in
          (mints (memo_for key) s.1 ≤ 1) × ((mints (memo_for key) s.1 ≡ 0) ⊎ IsSent key s.0)
    unfolding open_ledger
    live-mints_once mints happenings confirmations w key lands clean =
        let (keyed, counts) =
          live-Safe happenings (open_ledger confirmations, w) (tt, λ other. inl (clean other)) in
        let fewer = lands (memo_for key) ((live happenings (open_ledger confirmations, w)).1) in
        elim (counts key) [
          | inl zero_mints ↦
              (omega (arith, fewer, zero_mints), inl (omega (arith, fewer, zero_mints)))
          | inr (one, sent) ↦ (omega (arith, fewer, one), inr sent)
        ]
