-- ===== src/Bridge/Event.antt =====
-- What the bridge keeps of each event: `State`, `Deposit`, `Burn` and a row of the table `events`
-- of bridge/ledger.py. A text is the list of its characters' codes. A payload stands for the JSON
-- object of its fields, which is only ever read back.
use Prim.Native.Char.{code}
use Prim.Native.String.{String}
use obsidion.Prelude.{
  ℕ, zero, suc, ◌+◌, ◌/◌, ◌%◌, ◌≡◌, refl, ◌↔◌, Bool, true, false, List, [], ◌∷◌, ◌++◌, Option, ◌==◌,
  ltb, if◌then◌else◌, ==_iff, ap, sym, ◌∙◌,
}
use obsidion.Prelude.Int.{ℤ}
use obsidion.Prelude.Eq.{Eq}

abbrev pub Text : Type 0
Text = List ℕ

-- The codes of a text.
abbrev pub codes : String → Text
codes String.[] = []
codes (String.◌∷◌ c s) = code c ∷ codes s

-- `State`
pub data State : Type 0 where
  pending ready in_flight done abandoned : State

-- The position of a state in its class, and back.
abbrev position : State → ℕ
position pending = 0
position ready = 1
position in_flight = 2
position done = 3
position abandoned = 4

abbrev state_at : ℕ → State
state_at zero = pending
state_at (suc zero) = ready
state_at (suc (suc zero)) = in_flight
state_at (suc (suc (suc zero))) = done
state_at (suc (suc (suc (suc n)))) = abandoned

state_at-position : (s : State) → state_at (position s) ≡ s
state_at-position pending = refl
state_at-position ready = refl
state_at-position in_flight = refl
state_at-position done = refl
state_at-position abandoned = refl

pub state_beq_iff : (a b : State) → (position a == position b ≡ true) ↔ (a ≡ b)
state_beq_iff a b = (
  λ h. sym (state_at-position a) ∙ ap state_at ((==_iff _ _).0 h) ∙ state_at-position b,
  λ h. (==_iff _ _).1 (ap position h),
)

instance abbrev pub State_eq : Eq State
State_eq = record { beq = λ a b. position a == position b; beq_iff = state_beq_iff }

-- The column `kind`.
pub data Kind : Type 0 where
  deposit burn : Kind

abbrev pub same_kind : Kind → Kind → Bool
same_kind deposit deposit = true
same_kind deposit burn = false
same_kind burn deposit = false
same_kind burn burn = true

pub data Payload : Type 0 where
  deposit_payload : Text → Text → Payload
  burn_payload : Text → Payload

-- A row of `events` without its key.
pub record Event : Type 0 where
  pub kind : Kind
  pub state : State
  pub amount : ℤ
  pub payload : Payload
  pub height : Option ℕ
  pub receipt : Option Text

-- `str(n)`: its decimal digits, the last first. Each division by ten lowers the number, so a
-- fuel of the number and one more is enough.
unfoldable pub digits : ℕ → ℕ → Text → Text
digits zero n rest = rest
digits (suc fuel) n rest =
    let more = digits fuel (n / 10) ((48 + n % 10) ∷ rest) in
    if ltb n 10 then (48 + n) ∷ rest else more

unfoldable pub str : ℕ → Text
str n = digits (suc n) n []

pub record Deposit : Type 0 where
  pub txid : Text
  pub index : ℕ
  pub amount : ℤ
  pub deposit_address : Text
  pub solana_address : Text
  pub height : ℕ

pub record Burn : Type 0 where
  pub signature : Text
  pub amount : ℤ
  pub obsidion_address : Text

-- `Deposit.key`
unfoldable pub deposit_key : Deposit → Text
deposit_key d = d.txid ++ codes ":" ++ str d.index

-- `Burn.key`
unfoldable pub burn_key : Burn → Text
burn_key b = b.signature
