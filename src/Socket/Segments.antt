-- ===== src/Socket/Segments.antt =====
-- The bytes that a full read returns do not depend on how the network cuts the stream.
use rabin_fingerprinting.Base.{
  ℕ, zero, suc, ◌+◌, ◌-◌, ◌≤◌, ◌<◌, ◌≡◌, refl, List, [], ◌∷◌, ◌++◌, flatten, arith, length, some,
  All, take, drop, sym, ap, ◌∙◌, length-drop, Option, take_past, drop_past, ==_eq, ==_ne,
  length-append, length-take, take-append-drop, append_assoc, append-nil, leb, Bool-cases, ◌==◌,
  inl, inr, none,
}
use native.Mathlib.Nat.{le_refl}
use rabin_fingerprinting.Socket.{InSocket, read, read_loop, read_full}

-- No read of the segments returns 0 or -1: there is a byte in each.
abbrev pub IsFlowing : InSocket → Type 0
IsFlowing s = All (λ seg. 1 ≤ length seg) s

-- One read takes a first part of the stream, of at least a byte if one is left and wanted.
pub read_splits :
    (s : InSocket) (cap : ℕ)
    → IsFlowing s
    → (flatten s ≡ (read s cap).0 ++ flatten (read s cap).1)
      × (length (read s cap).0 ≤ cap)
      × (1 ≤ cap → 1 ≤ length (flatten s) → 1 ≤ length (read s cap).0)
      × (1 ≤ cap → IsFlowing (read s cap).1)
unfolding read flatten
read_splits [] cap h = (refl, omega arith, λ p q. q, λ p. tt)
read_splits (seg ∷ segs) cap h = elim (Bool-cases (leb (length seg) cap)) [
  | inl e ↦ rw e (refl, ground arith, λ p q. h.0, λ p. h.1)
  | inr e ↦ rw e (
    sym (ap (λ r. r ++ flatten segs) (take-append-drop cap seg))
        ∙ append_assoc (take cap seg) (drop cap seg) (flatten segs),
    omega (arith, length-take cap seg),
    λ p q. ground (arith, length-take cap seg),
    λ p. (ground (arith, length-drop cap seg), h.1),
  )
]

-- The same of one read when the network may also stall.
read_prefix :
    (s : InSocket) (cap : ℕ)
    → (flatten s ≡ (read s cap).0 ++ flatten (read s cap).1) × (length (read s cap).0 ≤ cap)
unfolding read flatten
read_prefix [] cap = (refl, omega arith)
read_prefix (seg ∷ segs) cap = elim (Bool-cases (leb (length seg) cap)) [
  | inl e ↦ rw e (refl, ground arith)
  | inr e ↦ rw e (
    sym (ap (λ r. r ++ flatten segs) (take-append-drop cap seg))
        ∙ append_assoc (take cap seg) (drop cap seg) (flatten segs),
    omega (arith, length-take cap seg),
  )
]

-- What is left of the wanted bytes after one read.
abbrev Reads : ℕ → List ℕ → InSocket → Option (List ℕ) × InSocket → Type 0
Reads want buf s r =
    (r.0 ≡ some (buf ++ take want (flatten s)))
    × (flatten r.1 ≡ drop want (flatten s))
    × IsFlowing r.1

read_loop-Reads :
    (fuel want : ℕ) (buf : List ℕ) (s : InSocket)
    → want ≤ fuel
    → IsFlowing s
    → want ≤ length (flatten s)
    → Reads want buf s (read_loop fuel want buf s)
unfolding read_loop
read_loop-Reads zero want buf s le flow enough =
    let e : want ≡ 0 = omega arith in rw e (ap some (sym (append-nil buf)), refl, flow)
read_loop-Reads (suc fuel) want buf s le flow enough = elim (Bool-cases (want == 0)) [
  | inl z ↦ rw (==_eq want 0 z) (ap some (sym (append-nil buf)), refl, flow)
  | inr nz ↦
      let (split, small, some_bytes, flow') = read_splits s want flow in
      let pos_want : 1 ≤ want = ground arith in
      let got = some_bytes pos_want (omega arith) in
      let total : length (flatten s) ≡ length (read s want).0 + length (flatten (read s want).1) =
        ap length split ∙ length-append (read s want).0 (flatten (read s want).1) in
      let rest =
        read_loop-Reads fuel (want - length (read s want).0) (buf ++ (read s want).0)
          (read s want).1 (omega arith) (flow' pos_want) (omega arith) in
      rw (nz, ==_ne (length (read s want).0) 0 (omega arith))
        (
          rest.0
              ∙ ap some (
                  append_assoc buf (read s want).0 _
                  ∙ ap (λ r. buf ++ r) (sym (take_past want (read s want).0 _ small)))
              ∙ ap (λ r. some (buf ++ take want r)) (sym split),
          rest.1 ∙ sym (drop_past want (read s want).0 _ small) ∙ ap (drop want) (sym split),
          rest.2,
        )
]

-- On a network that keeps flowing, a full read of bytes that the stream has returns the first of
-- them and leaves the others, however the stream is cut into segments.
pub read_full-take :
    (want : ℕ) (s : InSocket)
    → IsFlowing s
    → want ≤ length (flatten s)
    → ((read_full want s).0 ≡ some (take want (flatten s)))
      × (flatten (read_full want s).1 ≡ drop want (flatten s))
      × IsFlowing (read_full want s).1
unfolding read_full
read_full-take want s flow enough = read_loop-Reads want want [] s (le_refl want) flow enough

read_loop_short :
    (fuel want : ℕ) (buf : List ℕ) (s : InSocket)
    → length (flatten s) < want
    → (read_loop fuel want buf s).0 ≡ none
unfolding read_loop
read_loop_short zero want buf s short = rw (==_ne want 0 (omega arith))
read_loop_short (suc fuel) want buf s short =
    let (split, small) = read_prefix s want in
    let total : length (flatten s) ≡ length (read s want).0 + length (flatten (read s want).1) =
      ap length split ∙ length-append (read s want).0 (flatten (read s want).1) in
    rw (==_ne want 0 (omega arith)) (
      ground (
        arith,
        read_loop_short fuel (want - length (read s want).0) (buf ++ (read s want).0)
            (read s want).1,
      ))

-- A stream that ends too early is reported as such, also when the network stalls.
read_full_short :
    (want : ℕ) (s : InSocket) → length (flatten s) < want → (read_full want s).0 ≡ none
unfolding read_full
read_full_short want s short = read_loop_short want want [] s short

read_loop_sound :
    (fuel want : ℕ) (buf : List ℕ) (s : InSocket) (bs : List ℕ)
    → (read_loop fuel want buf s).0 ≡ some bs
    → (buf ++ flatten s ≡ bs ++ flatten (read_loop fuel want buf s).1)
      × (length bs ≡ length buf + want)
unfolding read_loop
read_loop_sound zero want buf s bs h = elim (Bool-cases (want == 0)) [
  | inl z ↦ ground (arith, z, h)
  | inr nz ↦ ground (arith, nz, h)
]
read_loop_sound (suc fuel) want buf s bs h =
    let (split, small) = read_prefix s want in
    ground (
      arith,
      split,
      small,
      length-append buf (read s want).0,
      append_assoc buf (read s want).0 (flatten (read s want).1),
      read_loop_sound fuel (want - length (read s want).0) (buf ++ (read s want).0) (read s want).1
          bs,
    )

-- Whatever a full read returns are the next bytes of the stream, as many as were wanted.
pub read_full_sound :
    (want : ℕ) (s : InSocket) (bs : List ℕ)
    → (read_full want s).0 ≡ some bs
    → (flatten s ≡ bs ++ flatten (read_full want s).1) × (length bs ≡ want)
unfolding read_full
read_full_sound want s bs h =
    let (split, size) = read_loop_sound want want [] s bs h in (split, omega arith)
