-- ===== src/Relay/Forward.antt =====
-- What the relays forward of a request, and when they fail before it.
use rabin_fingerprinting.Base.{
  ℕ, suc, ◌-◌, ◌≤◌, ◌<◌, ◌≡◌, refl, true, false, Option, List, [], ◌∷◌, ◌++◌, All, length,
  replicate, arith, ◌==◌, if◌then◌else◌, ok, fault, null_pointer, out_of_bounds, ==_ne, append-nil,
  lt→ltb, ltb-false, is_negative, Bool-cases, inl, inr,
}
use rabin_fingerprinting.Relay.{
  Startup, passed, refusal, c_bytes, forwarded, pass_on, write_error, hrd_startup,
}

-- A request without a zero byte.
abbrev pub IsText : List ℕ → Type 0
IsText bytes = All (λ b. 1 ≤ b) bytes

pub c_bytes-text : (bs rest : List ℕ) → IsText bs → c_bytes (bs ++ 0 ∷ rest) ≡ ok bs
unfolding c_bytes
c_bytes-text [] rest h = refl
c_bytes-text (b ∷ bs) rest h = rw (==_ne b 0 (omega arith), c_bytes-text bs rest h.1)

c_bytes_full : (bs : List ℕ) → IsText bs → c_bytes bs ≡ fault out_of_bounds
unfolding c_bytes
c_bytes_full [] h = refl
c_bytes_full (b ∷ bs) h = rw (==_ne b 0 (omega arith), c_bytes_full bs h.1)

-- A request that leaves room in the buffer and has no zero byte is forwarded as far as the write takes
-- it; if it takes nothing, the browser is told so, and both sockets are left open.
pass_on-IsText :
    (bytes : List ℕ) (taken : Option ℕ)
    → IsText bytes
    → length bytes < 1000
    → pass_on taken bytes
      ≡ ok (
          if length (forwarded taken bytes) == 0
          then refusal write_error false
          else passed (forwarded taken bytes))
unfolding pass_on
pass_on-IsText bytes taken text room =
    let more : 1000 - length bytes ≡ suc (1000 - length bytes - 1) = omega arith in
    rw (more, c_bytes-text bytes (replicate (1000 - length bytes - 1) 0) text)

-- A request that fills the buffer, with no zero byte, makes `strlen` read past the buffer's end.
pub pass_on_full :
    (bytes : List ℕ) (taken : Option ℕ)
    → IsText bytes
    → length bytes ≡ 1000
    → pass_on taken bytes ≡ fault out_of_bounds
unfolding pass_on
pass_on_full bytes taken text full =
    let none_left : 1000 - length bytes ≡ 0 = omega arith in
    rw (none_left, append-nil bytes, c_bytes_full bytes text)

-- The usage check of hrd.cc asks for one argument where four are used: with two to four words on the
-- command line, the port and the host being in order, the program goes on to use a null pointer.
hrd_startup_null :
    (a : Startup)
    → 2 ≤ a.argc
    → a.argc < 5
    → is_negative a.socket ≡ false
    → is_negative a.bound ≡ false
    → a.host_found ≡ true
    → hrd_startup a ≡ fault null_pointer
unfolding hrd_startup
hrd_startup_null a lo hi s b h = elim (Bool-cases (a.argc == 2)) [
  | inl two ↦ rw (ltb-false a.argc 2 lo, s, b, two)
  | inr other ↦ rw (ltb-false a.argc 2 lo, s, b, other, h, lt→ltb a.argc 5 hi)
]
