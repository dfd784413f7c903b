-- ===== src/Course/Transfer/Whole.antt =====
-- Short writes and short reads lose nothing.
use soper.Common.{
  ℕ, zero, suc, ◌-◌, ◌≡◌, ◌≤◌, ◌<◌, ◌==◌, min, List, [], ◌∷◌, ◌++◌, Option, none, some, All, length,
  take, drop, false, Bool-cases, inl, inr, arith, refl, ap, sym, ◌∙◌, append-nil, append_assoc,
}
use soper.Course.Transfer.{done, write_all, read_size, read_all}

take-drop : (n : ℕ) (xs : List ℕ) → take n xs ++ drop n xs ≡ xs
take-drop zero xs = refl
take-drop (suc n) [] = refl
take-drop (suc n) (x ∷ xs) = ap (λ l. x ∷ l) (take-drop n xs)

length-drop : (n : ℕ) (xs : List ℕ) → length (drop n xs) ≡ length xs - n
length-drop zero xs = omega arith
length-drop (suc n) [] = omega arith
length-drop (suc n) (x ∷ xs) = omega (arith, length-drop n xs)

nothing_left : (xs : List ℕ) → length xs ≡ 0 → xs ≡ []
nothing_left [] e = refl
nothing_left (x ∷ xs) e = absurd (omega arith)

-- A call that writes, and writes something.
abbrev pub Writes : Option ℕ → Type 0
Writes none = ⊥
Writes (some n) = 0 < n

-- Whatever the calls of `write` cut off: if each one writes something and there are as many of them
-- as bytes, the loop ends, and the file holds the message behind what it held.
pub write_all-whole :
    (left : List ℕ) (rs : List (Option ℕ)) (file : List ℕ)
    → 0 < length left
    → length left ≤ length rs
    → All Writes rs
    → write_all left rs file ≡ done (file ++ left)
unfolding write_all
write_all-whole left [] file pos le w = absurd (omega arith)
write_all-whole left (none ∷ rs) file pos le w = absurd w.0
write_all-whole left (some n ∷ rs) file pos le w =
    let k = min n (length left) in
    let split = take-drop k left in
    elim (Bool-cases (length (drop k left) == 0)) [
      | inl end ↦
          let e = nothing_left (drop k left) (ground arith) in
          rw end (
            ap (λ l. done (file ++ l))
              (sym (append-nil (take k left)) ∙ ap (λ x. take k left ++ x) (sym e) ∙ split))
      | inr more ↦ rw more (
          write_all-whole (drop k left) rs (file ++ take k left) (ground arith)
            (omega (arith, length-drop k left)) w.1
          ∙ ap done (append_assoc file (take k left) (drop k left))
          ∙ ap (λ l. done (file ++ l)) split)
    ]

abbrev pub joined : List (List ℕ) → List ℕ
joined [] = []
joined (p ∷ ps) = p ++ joined ps

joined-snoc : (ps : List (List ℕ)) (p : List ℕ) → joined (ps ++ (p ∷ [])) ≡ joined ps ++ p
joined-snoc [] p = append-nil p
joined-snoc (q ∷ ps) p = ap (λ l. q ++ l) (joined-snoc ps p) ∙ sym (append_assoc q (joined ps) p)

abbrev pub Reads : Option ℕ → Type 0
Reads none = ⊥
Reads (some n) = Unit

not_zero : (k : ℕ) → 0 < k → (k == 0) ≡ false
not_zero k h = ground arith

-- However the reads cut the bytes of the pipe: if none fails and there is one more of them than
-- bytes, the loop ends with the end of the pipe, and the pieces are, in order, all the bytes.
pub read_all-whole :
    (left : List ℕ) (rs : List (Option ℕ)) (pieces : List (List ℕ))
    → length left < length rs
    → All Reads rs
    → (ps : List (List ℕ)) × (read_all left rs pieces ≡ done ps)
      × (joined ps ≡ joined pieces ++ left)
unfolding read_all
read_all-whole left [] pieces le w = absurd (omega arith)
read_all-whole left (none ∷ rs) pieces le w = absurd w.0
read_all-whole [] (some n ∷ rs) pieces le w = (pieces, refl, sym (append-nil (joined pieces)))
read_all-whole (x ∷ xs) (some n ∷ rs) pieces le w =
    let k = read_size n (x ∷ xs) in
    let pos : 0 < k = omega arith in
    let (ps, e, j) =
      read_all-whole (drop k (x ∷ xs)) rs (pieces ++ (take k (x ∷ xs) ∷ []))
        (omega (arith, length-drop k (x ∷ xs))) w.1 in
    (
      ps,
      rw (not_zero k pos) e,
      j
          ∙ ap (λ l. l ++ drop k (x ∷ xs)) (joined-snoc pieces (take k (x ∷ xs)))
          ∙ append_assoc (joined pieces) (take k (x ∷ xs)) (drop k (x ∷ xs))
          ∙ ap (λ l. joined pieces ++ l) (take-drop k (x ∷ xs)),
    )
