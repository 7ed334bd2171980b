-- ===== src/Interpreter/Parens.antt =====
-- `parenCheck` of Files/C/NewIServ.c, and the texts that it accepts.
use rabin_fingerprinting.Base.{
  ℕ, zero, suc, ◌+◌, ◌-◌, ◌≡◌, ◌≢◌, ◌≤◌, refl, sym, ap, ◌∙◌, Bool, true, false, List, [], ◌∷◌, ◌++◌,
  replicate, append_assoc, append-nil, arith, ◌==◌, if◌then◌else◌, ==_ne,
}
use mathlib.Core.Logic.{◌↔◌}
use native.Mathlib.Decide.{ℕ_discrete}

-- The loop over the message; a closing parenthesis too many ends it.
unfoldable pub paren_loop : ℕ → List ℕ → Bool
paren_loop count [] = count == 0
paren_loop count (c ∷ msg) =
    let opened : Bool = paren_loop (count + 1) msg in
    let closed : Bool = paren_loop (count - 1) msg in
    let same : Bool = paren_loop count msg in
    if c == b'(' then opened else if c == b')' then (if count == 0 then false else closed) else same

unfoldable pub paren_check : List ℕ → Bool
paren_check msg = paren_loop 0 msg

-- The texts with balanced parentheses, by a grammar.
pub data Balanced : List ℕ → Type 0 where
  nothing : {text : List ℕ} → text ≡ [] → Balanced text
  other :
      {text : List ℕ} (c : ℕ) (rest : List ℕ)
      → c ≢ b'('
      → c ≢ b')'
      → Balanced rest
      → text ≡ c ∷ rest
      → Balanced text
  group :
      {text : List ℕ} (inner rest : List ℕ)
      → Balanced inner
      → Balanced rest
      → text ≡ b'(' ∷ (inner ++ b')' ∷ rest)
      → Balanced text

-- The texts that close `n` open parentheses.
data Closes : ℕ → List ℕ → Type 0 where
  done : {text : List ℕ} → Balanced text → Closes zero text
  close :
      {n : ℕ} {text : List ℕ} (inner rest : List ℕ)
      → Balanced inner
      → Closes n rest
      → text ≡ inner ++ b')' ∷ rest
      → Closes (suc n) text

Closes-other : (n c : ℕ) (text : List ℕ) → c ≢ b'(' → c ≢ b')' → Closes n text → Closes n (c ∷ text)
Closes-other n c text p q (done b) = done (other c text p q b refl)
Closes-other n c text p q (close inner rest b more e) =
    close (c ∷ inner) rest (other c inner p q b refl) more (ap (λ t. c ∷ t) e)

Closes-group :
    (n : ℕ) (inner rest : List ℕ)
    → Balanced inner
    → Closes n rest
    → Closes n (b'(' ∷ (inner ++ b')' ∷ rest))
Closes-group n inner rest b (done more) = done (group inner rest b more refl)
Closes-group n inner rest b (close inner' rest' b' more e) =
    close (b'(' ∷ (inner ++ b')' ∷ inner')) rest' (group inner inner' b b' refl) more
      (rw (e, append_assoc inner (b')' ∷ inner') (b')' ∷ rest')))

Closes-open : (n : ℕ) (text : List ℕ) → Closes (suc n) text → Closes n (b'(' ∷ text)
Closes-open n text (close inner rest b more e) = rw e (Closes-group n inner rest b more)

loop_open : (n : ℕ) (msg : List ℕ) → paren_loop n (b'(' ∷ msg) ≡ paren_loop (suc n) msg
unfolding paren_loop
loop_open n msg = let e : n + 1 ≡ suc n = omega arith in ap (λ k. paren_loop k msg) e

loop_close : (n : ℕ) (msg : List ℕ) → paren_loop (suc n) (b')' ∷ msg) ≡ paren_loop n msg
unfolding paren_loop
loop_close n msg =
    let e : suc n - 1 ≡ n = omega arith in
    rw (==_ne (suc n) 0 (omega arith)) (ap (λ k. paren_loop k msg) e)

loop_other :
    (n c : ℕ) (msg : List ℕ) → c ≢ b'(' → c ≢ b')' → paren_loop n (c ∷ msg) ≡ paren_loop n msg
unfolding paren_loop
loop_other n c msg p q = rw (==_ne c b'(' p, ==_ne c b')' q)

loop_extra : (msg : List ℕ) → paren_loop 0 (b')' ∷ msg) ≡ false
unfolding paren_loop
loop_extra msg = refl

Closes-close :
    (n : ℕ) (msg : List ℕ)
    → ((k : ℕ) → paren_loop k msg ≡ true → Closes k msg)
    → paren_loop n (b')' ∷ msg) ≡ true
    → Closes n (b')' ∷ msg)
Closes-close zero msg ih h = absurd (cc (h, loop_extra msg))
Closes-close (suc n) msg ih h = close [] msg (nothing refl) (ih n (sym (loop_close n msg) ∙ h)) refl

paren_loop-Closes : (n : ℕ) (msg : List ℕ) → paren_loop n msg ≡ true → Closes n msg
paren_loop-Closes zero [] h = done (nothing refl)
paren_loop-Closes (suc n) [] h = unfold paren_loop in absurd (ground arith)
paren_loop-Closes n (c ∷ msg) h = elim (ℕ_discrete c b'(') [
  | yes e ↦
      rw e (Closes-open n msg (paren_loop-Closes (suc n) msg (sym (loop_open n msg) ∙ rw e at h)))
  | no p ↦ elim (ℕ_discrete c b')') [
    | yes e ↦ rw e (Closes-close n msg (λ k g. paren_loop-Closes k msg g) (rw e at h))
    | no q ↦ Closes-other n c msg p q (paren_loop-Closes n msg (sym (loop_other n c msg p q) ∙ h))
  ]
]

pub paren_loop-Balanced :
    (text : List ℕ)
    → Balanced text
    → (n : ℕ) (rest : List ℕ) → paren_loop n (text ++ rest) ≡ paren_loop n rest
paren_loop-Balanced text (nothing e) n rest = rw e
paren_loop-Balanced text (other c more p q b e) n rest =
    rw e (loop_other n c (more ++ rest) p q ∙ paren_loop-Balanced more b n rest)
paren_loop-Balanced text (group inner more b b' e) n rest = rw e (
    loop_open n ((inner ++ b')' ∷ more) ++ rest)
    ∙ ap (paren_loop (suc n)) (append_assoc inner (b')' ∷ more) rest)
    ∙ paren_loop-Balanced inner b (suc n) (b')' ∷ (more ++ rest))
    ∙ loop_close n (more ++ rest)
    ∙ paren_loop-Balanced more b' n rest)

-- `parenCheck` accepts exactly the texts whose parentheses are balanced.
pub paren_check-Balanced : (msg : List ℕ) → (paren_check msg ≡ true) ↔ Balanced msg
unfolding paren_check paren_loop
paren_check-Balanced msg = (
  λ h. elim (paren_loop-Closes 0 msg h) [ done b ↦ b ],
  λ b. ap paren_check (sym (append-nil msg)) ∙ paren_loop-Balanced msg b 0 [],
)

pub loop_opens :
    (n k m : ℕ) (msg : List ℕ)
    → n + k ≡ m
    → paren_loop k (replicate n b'(' ++ msg) ≡ paren_loop m msg
loop_opens zero k m msg e = ap (λ j. paren_loop j msg) (omega (arith, e))
loop_opens (suc n) k m msg e =
    loop_open k (replicate n b'(' ++ msg) ∙ loop_opens n (suc k) m msg (omega (arith, e))

pub loop_closes : (n : ℕ) → paren_loop n (replicate n b')') ≡ true
loop_closes zero = unfold paren_loop in refl
loop_closes (suc n) = loop_close n (replicate n b')') ∙ loop_closes n

-- Parentheses that are only opened, and those that are closed behind a zero byte.
pub opens-not-Balanced : (n : ℕ) → 1 ≤ n → ¬ Balanced (replicate n b'(' ++ b'\n' ∷ [])
unfolding paren_check paren_loop
opens-not-Balanced n h b =
    let checked = (paren_check-Balanced (replicate n b'(' ++ b'\n' ∷ [])).1 b in
    let left = loop_opens n 0 n (b'\n' ∷ []) (omega arith) in
    let some_open : (n == 0) ≡ false = ==_ne n 0 (omega arith) in cc (checked, left, some_open)

pub opens_closed-Balanced : (n : ℕ) → Balanced (replicate n b'(' ++ 0 ∷ replicate n b')')
unfolding paren_check
opens_closed-Balanced n = (paren_check-Balanced (replicate n b'(' ++ 0 ∷ replicate n b')')).0 (
    loop_opens n 0 n (0 ∷ replicate n b')') (omega arith)
    ∙ loop_other n 0 (replicate n b')') (omega arith) (omega arith)
    ∙ loop_closes n)
