-- ===== src/Wire/Reading.antt =====
-- A calculus of readers: `Decodes read raw v` says that `read` gives `v` wherever the bytes `raw`
-- stand in a buffer, and stops right behind them.
use obsidion.Prelude.{
  ℕ, zero, suc, ◌+◌, ◌-◌, ◌≤◌, ◌≡◌, refl, ap, ◌∙◌, List, [], ◌∷◌, ◌++◌, append_assoc, Bytes, length,
  length-append, take, drop, take-append, drop-append, All, get_elem?, some, arith,
}
use obsidion.Prelude.Result.{ok, ◌>>=◌, >>=-eq-ok}
use obsidion.Errors.{Try}
use obsidion.Wire.{Reader, read_exactly, read_many, join_map}

-- From `offset` on the buffer holds `rest`.
abbrev pub At : Bytes → ℕ → Bytes → Type 0
At buffer offset rest = (offset ≤ length buffer) × (drop offset buffer ≡ rest)

drop-drop : (m n : ℕ) (xs : Bytes) → drop (m + n) xs ≡ drop n (drop m xs)
drop-drop zero n xs = let e : zero + n ≡ n = omega arith in rw e refl
drop-drop (suc m) zero [] = let e : suc m + zero ≡ suc m = omega arith in rw e refl
drop-drop (suc m) (suc n) [] = let e : suc m + suc n ≡ suc (m + suc n) = omega arith in rw e refl
drop-drop (suc m) n (x ∷ xs) =
    let e : suc m + n ≡ suc (m + n) = omega arith in rw e (drop-drop m n xs)

length-drop : (n : ℕ) (xs : Bytes) → length (drop n xs) ≡ length xs - n
length-drop zero xs = omega arith
length-drop (suc n) [] = omega arith
length-drop (suc n) (x ∷ xs) = omega (arith, length-drop n xs)

module _ (buffer : Bytes) (offset : ℕ) (raw rest : Bytes)
    (at : At buffer offset (raw ++ rest)) where
  pub At-length : offset + length raw ≤ length buffer
  At-length = omega (arith, length-drop offset buffer, ap length at.1, length-append raw rest)

  pub At-advance : At buffer (offset + length raw) rest
  At-advance = (
    At-length,
    drop-drop offset (length raw) buffer ∙ ap (drop (length raw)) at.1 ∙ drop-append raw rest,
  )

pub get_elem?-At :
    (buffer : Bytes) (offset b : ℕ) (rest : Bytes)
    → drop offset buffer ≡ b ∷ rest
    → get_elem? buffer offset ≡ some b
get_elem?-At [] zero b rest h = cc
get_elem?-At [] (suc offset) b rest h = cc
get_elem?-At (x ∷ buffer) zero b rest h = cc
get_elem?-At (x ∷ buffer) (suc offset) b rest h = get_elem?-At buffer offset b rest h

abbrev pub Decodes : {A : Type 0} → Reader A → Bytes → A → Type 0
Decodes read raw v =
    (buffer : Bytes) (offset : ℕ) (rest : Bytes)
    → At buffer offset (raw ++ rest)
    → read buffer offset ≡ ok (v, offset + length raw)

-- A slice of known length.
pub Decodes-read_exactly : (raw : Bytes) → Decodes (read_exactly (length raw)) raw raw
unfolding read_exactly
Decodes-read_exactly raw buffer offset rest at =
    ground (
      arith,
      At-length buffer offset raw rest at,
      ap (take (length raw)) at.1,
      take-append raw rest,
    )

pub Decodes-pure : {A : Type 0} (v : A) → Decodes (λ buffer offset. ok (v, offset)) [] v
Decodes-pure v buffer offset rest at = ap (λ o. ok (v, o)) (omega arith)

-- A reader whose result is wrapped up.
pub Decodes-map :
    {A B : Type 0} (read : Reader A) (f : A → B) (raw : Bytes) (v : A)
    → Decodes read raw v
    → Decodes (λ buffer offset. read buffer offset >>= λ (x, o). ok (f x, o)) raw (f v)
Decodes-map read f raw v dv buffer offset rest at = rw (dv buffer offset rest at) refl

-- One reader after the other.
pub Decodes-bind :
    {A B : Type 0} (read : Reader A) (next : A → Reader B) (raw raw' : Bytes) (v : A) (w : B)
    → Decodes read raw v
    → Decodes (next v) raw' w
    → Decodes (λ buffer offset. read buffer offset >>= λ (x, o). next x buffer o) (raw ++ raw') w
Decodes-bind read next raw raw' v w dv dw buffer offset rest (le, e) =
    let at : At buffer offset (raw ++ (raw' ++ rest)) = (le, e ∙ append_assoc raw raw' rest) in
    rw (dv buffer offset (raw' ++ rest) at) (
      dw buffer (offset + length raw) rest (At-advance buffer offset raw (raw' ++ rest) at)
      ∙ ap (λ o. ok (w, o)) (omega (arith, length-append raw raw')))

-- The loops: if every item that `write` accepts is read back, so is a list of them.
module _ {A : Type 0} (write : A → Try Bytes) (read : Reader A) (P : A → Type 0)
    (item : (a : A) (raw : Bytes) → P a → write a ≡ ok raw → Decodes read raw a) where
  pub Decodes-read_many :
      (xs : List A) (raw : Bytes)
      → All P xs
      → join_map write xs ≡ ok raw
      → Decodes (read_many read (length xs)) raw xs
  unfolding join_map read_many
  Decodes-read_many [] raw h e =
      let nothing : [] ≡ raw = ground arith in rw (← nothing) (Decodes-pure [])
  Decodes-read_many (x ∷ xs) raw h e =
      let (first, wrote, e') = >>=-eq-ok (write x) _ e in
      let (others, wrote', e'') = >>=-eq-ok (join_map write xs) _ e' in
      let parts : first ++ others ≡ raw = ground arith in
      rw (← parts) (
        Decodes-bind read _ first others x (x ∷ xs) (item x first h.0 wrote) (
          Decodes-map (read_many read (length xs)) (λ l. x ∷ l) others xs
            (Decodes-read_many xs others h.1 wrote')))
