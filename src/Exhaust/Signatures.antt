-- ===== src/Exhaust/Signatures.antt =====
-- internal/compiler/check/exhaust/exhaust.go: the signatures of a type against the names of a column.
use gicel.Prelude.{
  ◌<◌, ◌≤◌, suc, true, false, List, [], ◌∷◌, length, ◌≡◌, refl, ap, ◌⊎◌, inl, inr, if◌then◌else◌,
  arith, Bool-cases,
}
use gicel.Prelude.Bytes.{Bytes, bytes_eq, bytes_eq_iff_eq}
use gicel.Exhaust.Matrix.{elem_label}
use gicel.Exhaust.Search.{ConSig}
use gicel.Exhaust.Values.{SigIn}

-- No two signatures have one name.
abbrev pub Absent : Bytes → List ConSig → Type 0
Absent c [] = Unit
Absent c (s ∷ ss) = (bytes_eq c s.sig_name ≡ false) × Absent c ss

abbrev pub Distinct : List ConSig → Type 0
Distinct [] = Unit
Distinct (s ∷ ss) = Absent s.sig_name ss × Distinct ss

-- With fewer names than signatures, some signature is not among the names.
unfoldable remove_label : Bytes → List Bytes → List Bytes
remove_label c [] = []
remove_label c (l ∷ ls) = if bytes_eq l c then ls else l ∷ remove_label c ls

length-remove_label :
    (c : Bytes) (ls : List Bytes)
    → elem_label c ls ≡ true
    → length ls ≡ suc (length (remove_label c ls))
unfolding remove_label
length-remove_label c [] e = absurd (ground (arith, e))
length-remove_label c (l ∷ ls) e = ground (arith, e, length-remove_label c ls)

elem-remove_label :
    (c d : Bytes) (ls : List Bytes)
    → bytes_eq c d ≡ false
    → elem_label d ls ≡ true
    → elem_label d (remove_label c ls) ≡ true
unfolding remove_label
elem-remove_label c d [] n e = e
elem-remove_label c d (l ∷ ls) n e = elim (Bool-cases (bytes_eq l c)) [
  | inl t ↦ ground (arith, t, e, n, ap (λ x. bytes_eq x d) (bytes_eq_iff_eq l c t))
  | inr t ↦ ground (arith, t, e, elem-remove_label c d ls n)
]

-- Each name is in the list.
abbrev AllIn : List ConSig → List Bytes → Type 0
AllIn [] ls = Unit
AllIn (s ∷ ss) ls = (elem_label s.sig_name ls ≡ true) × AllIn ss ls

AllIn-remove_label :
    (c : Bytes) (ss : List ConSig) (ls : List Bytes)
    → Absent c ss
    → AllIn ss ls
    → AllIn ss (remove_label c ls)
AllIn-remove_label c [] ls a h = tt
AllIn-remove_label c (s ∷ ss) ls (a, b) (h, t) =
    (elem-remove_label c s.sig_name ls a h, AllIn-remove_label c ss ls b t)

length-AllIn :
    (ss : List ConSig) (ls : List Bytes) → Distinct ss → AllIn ss ls → length ss ≤ length ls
length-AllIn [] ls d h = omega arith
length-AllIn (s ∷ ss) ls (a, d) (h, t) =
    let ih =
      length-AllIn ss (remove_label s.sig_name ls) d (AllIn-remove_label s.sig_name ss ls a t) in
    omega (arith, ih, length-remove_label s.sig_name ls h)

absent_or_AllIn :
    (ss : List ConSig) (ls : List Bytes)
    → ((s : ConSig) × SigIn s.sig_name s.sig_arity ss × (elem_label s.sig_name ls ≡ false))
      ⊎ AllIn ss ls
absent_or_AllIn [] ls = inr tt
absent_or_AllIn (s ∷ ss) ls = elim (Bool-cases (elem_label s.sig_name ls)) [
  | inr f ↦ inl (s, inl (refl, refl), f)
  | inl t ↦ elim (absent_or_AllIn ss ls) [ inl (r, m, f) ↦ inl (r, inr m, f) | inr h ↦ inr (t, h) ]
]

pub absent_sig :
    (ss : List ConSig) (ls : List Bytes)
    → Distinct ss
    → length ls < length ss
    → (s : ConSig) × SigIn s.sig_name s.sig_arity ss × (elem_label s.sig_name ls ≡ false)
absent_sig ss ls d l = elim (absent_or_AllIn ss ls) [
  | inl p ↦ p
  | inr h ↦ absurd (omega (arith, l, length-AllIn ss ls d h))
]
