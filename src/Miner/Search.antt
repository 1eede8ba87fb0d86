-- ===== src/Miner/Search.antt =====
-- What `grind` finds.
use Prim.Native.String.{String}
use obsidion.Prelude.{
  ℕ, zero, suc, ◌+◌, ◌-◌, ◌≡◌, ◌≤◌, ◌<◌, refl, sym, ap, ◌∙◌, Bool, true, false, inl, inr,
  Bool-cases, arith, leb,
}
use obsidion.Prelude.Result.{ok}
use obsidion.Crypto.{Platform}
use obsidion.Block.Model.{BlockHeader, satisfies_pow}
use obsidion.Miner.{grind_loop, grind}

abbrev pub with_nonce : BlockHeader → ℕ → BlockHeader
with_nonce header nonce = record header { nonce = nonce }

module _ (c : Platform) (algorithm : String) (max_nonce : ℕ) (header : BlockHeader) where
  -- Found at a nonce, or every nonce up to the limit has been tried.
  abbrev pub Ends : ℕ → Bool → BlockHeader → Type 0
  Ends first true header' =
      (nonce : ℕ) × (header' ≡ with_nonce header nonce)
      × (satisfies_pow c header' algorithm ≡ ok true)
      × (nonce ≤ max_nonce)
  Ends first false header' =
      (nonce : ℕ)
      → first ≤ nonce
      → nonce ≤ max_nonce
      → satisfies_pow c (with_nonce header nonce) algorithm ≡ ok false

  Ends-next :
      (first : ℕ) (found : Bool) (header' : BlockHeader)
      → satisfies_pow c (with_nonce header first) algorithm ≡ ok false
      → Ends (first + 1) found header'
      → Ends first found header'
  Ends-next first true header' failed ends = ends
  Ends-next first false header' failed ends = λ nonce low high.
      elim (Bool-cases (leb nonce first)) [
        | inl least ↦
            let same : first ≡ nonce =
              (let k : nonce ≤ first = ground arith in omega (arith, k, low)) in
            ap (λ z. satisfies_pow c (with_nonce header z) algorithm) (sym same) ∙ failed
        | inr above ↦ ends nonce (ground arith) high
      ]

  grind_loop_lem :
      (rounds first : ℕ)
      → ((nonce : ℕ)
          → nonce ≤ max_nonce
          → (b : Bool) × (satisfies_pow c (with_nonce header nonce) algorithm ≡ ok b))
      → first ≤ max_nonce
      → max_nonce - first < rounds
      → (found : Bool) × (header' : BlockHeader) × (grind_loop c algorithm max_nonce rounds
            (with_nonce header first)
          ≡ ok (found, header'))
        × Ends first found header'
  unfolding grind_loop
  grind_loop_lem zero first answers low enough = absurd (omega (arith, enough))
  grind_loop_lem (suc rounds) first answers low enough =
      let (b, tried) = answers first low in
      elim (Bool-cases b) [
        | inl solved ↦
            let yes_solved : satisfies_pow c (with_nonce header first) algorithm ≡ ok true =
              tried ∙ ap ok solved in
            (true, with_nonce header first, rw (tried, solved) refl, (first, refl, yes_solved, low))
        | inr unsolved ↦
            let failed : satisfies_pow c (with_nonce header first) algorithm ≡ ok false =
              tried ∙ ap ok unsolved in
            elim (Bool-cases (leb max_nonce first)) [
              | inl last ↦ (
                false,
                with_nonce header first,
                rw (tried, unsolved, last) refl,
                λ nonce from upto.
                    let same : first ≡ nonce =
                      (let k : max_nonce ≤ first = ground arith in omega (arith, k, from, upto)) in
                    ap (λ z. satisfies_pow c (with_nonce header z) algorithm) (sym same) ∙ failed,
              )
              | inr more ↦
                  let higher : first + 1 ≤ max_nonce = ground arith in
                  let (found, header', done, ends) =
                    grind_loop_lem rounds (first + 1) answers higher
                      (omega (arith, enough, higher)) in
                  (
                    found,
                    header',
                    rw (tried, unsolved, more) done,
                    Ends-next first found header' failed ends,
                  )
            ]
      ]

  -- If the header's own nonce is within the limit and the proof of work of the header can be
  -- decided at every nonce up to the limit, then `grind`
  -- returns: with the header at a nonce within the limit that satisfies the proof of work, or saying
  -- that there is none, after every nonce from the header's own to the limit has failed.
  pub grind_lem :
      ((nonce : ℕ)
        → nonce ≤ max_nonce
        → (b : Bool) × (satisfies_pow c (with_nonce header nonce) algorithm ≡ ok b))
      → header.nonce ≤ max_nonce
      → (found : Bool) × (header' : BlockHeader) × (grind c algorithm max_nonce header
          ≡ ok (found, header'))
        × Ends header.nonce found header'
  unfolding grind
  grind_lem answers low =
      grind_loop_lem (suc (max_nonce - header.nonce)) header.nonce answers low (omega arith)
