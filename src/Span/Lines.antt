-- ===== src/Span/Lines.antt =====
-- internal/infra/span/span.go: Location finds the line and the column that reading up to the position gives.
use gicel.Prelude.{
  ℕ, zero, suc, ◌+◌, ◌-◌, ◌/◌, ◌≤◌, ◌<◌, true, false, some, List, [], ◌∷◌, length, get_elem?, take,
  if◌then◌else◌, ltb, leb, ◌==◌, ◌≡◌, refl, sym, ap, ◌∙◌, arith, Bool-cases, inl, inr,
}
use gicel.Prelude.Int.{pos, ◌-ℤ◌, ◌+ℤ◌}
use gicel.Prelude.Outcome.{returns}
use gicel.Prelude.Bytes.{Bytes}
use gicel.Span.{newline, line_starts, new_source, location_loop, at_line, location}

-- The line and the column behind the bytes, from those in front of them.
abbrev pub read : Bytes → ℕ → ℕ → ℕ × ℕ
read [] l c = (l, c)
read (b ∷ bs) l c = if b == newline then read bs (l + 1) 1 else read bs l (c + 1)

abbrev pub Increasing : ℕ → List ℕ → Type 0
Increasing i [] = Unit
Increasing i (x ∷ xs) = (i < x) × Increasing x xs

abbrev pub count_le : ℕ → List ℕ → ℕ
count_le n [] = 0
count_le n (x ∷ xs) = if leb x n then suc (count_le n xs) else count_le n xs

Increasing-le : (i j : ℕ) (xs : List ℕ) → i ≤ j → Increasing j xs → Increasing i xs
Increasing-le i j [] h s = tt
Increasing-le i j (x ∷ xs) h s = (omega (arith, h, s.0), s.1)

line_starts-Increasing : (i : ℕ) (text : Bytes) → Increasing i (line_starts i text)
unfolding line_starts
line_starts-Increasing i [] = tt
line_starts-Increasing i (b ∷ bs) = elim (Bool-cases (b == newline)) [
  | inl e ↦ rw (e) (omega arith, line_starts-Increasing (i + 1) bs)
  | inr e ↦ rw (e) (Increasing-le i (i + 1) _ (omega arith) (line_starts-Increasing (i + 1) bs))
]

count_le-above : (n : ℕ) (xs : List ℕ) → Increasing n xs → count_le n xs ≡ 0
count_le-above n [] s = refl
count_le-above n (x ∷ xs) s =
    ground (arith, s.0, count_le-above n xs (Increasing-le n x xs (omega (arith, s.0)) s.1))

count_le-length : (n : ℕ) (xs : List ℕ) → count_le n xs ≤ length xs
count_le-length n [] = omega arith
count_le-length n (x ∷ xs) = ground (arith, count_le-length n xs)

-- An element of an increasing list is at most n exactly in front of the position that the count gives.
count_le-at :
    (n m first : ℕ) (xs : List ℕ)
    → Increasing first xs
    → m < suc (length xs)
    → (x : ℕ) × (get_elem? (first ∷ xs) m ≡ some x)
      × (x ≤ n → m < count_le n (first ∷ xs))
      × (n < x → count_le n (first ∷ xs) ≤ m)
count_le-at n zero first xs s h = (
  first,
  refl,
  λ k. ground (arith, k),
  λ k. ground (arith, k, count_le-above n xs (Increasing-le n first xs (omega (arith, k)) s)),
)
count_le-at n (suc m) first [] s h = absurd (omega (arith, h))
count_le-at n (suc m) first (y ∷ ys) s h =
    let (x, got, below, above) = count_le-at n m y ys s.1 (omega (arith, h)) in
    (
      x,
      got,
      λ k. elim (Bool-cases (leb first n)) [
        | inl e ↦ rw (e) (omega (arith, below k))
        | inr e ↦ absurd (
            ground (
              arith,
              e,
              below k,
              s.0,
              count_le-above n ys (Increasing-le n y ys (ground (arith, e, s.0)) s.1),
            ))
      ],
      λ k. ground (arith, above k),
    )

location_loop-eq :
    (i n fuel lo hi : ℕ) (xs : List ℕ)
    → Increasing i xs
    → lo ≤ count_le n (i ∷ xs)
    → count_le n (i ∷ xs) ≤ hi
    → hi ≤ suc (length xs)
    → hi ≤ lo + fuel
    → location_loop (i ∷ xs) (pos n) fuel lo hi ≡ some (count_le n (i ∷ xs))
unfolding location_loop
location_loop-eq i n zero lo hi xs s p q r f =
    let shut : ltb lo hi ≡ false = ground (arith, f) in rw (shut) (ap some (omega (arith, p, q, f)))
location_loop-eq i n (suc fuel) lo hi xs s p q r f = elim (Bool-cases (ltb lo hi)) [
  | inr e ↦ rw (e) (ap some (ground (arith, p, q, e)))
  | inl e ↦
      let mid : ℕ = lo + (hi - lo) / 2 in
      let low : lo ≤ lo + (hi - lo) / 2 = omega arith in
      let high : lo + (hi - lo) / 2 < hi = ground (arith, e) in
      let (x, got, below, above) = count_le-at n mid i xs s (omega (arith, high, r)) in
      elim (Bool-cases (ltb (n + 0) (x + 0))) [
        | inl t ↦
            rw (e, got, t)
              (location_loop-eq i n fuel lo mid xs s p (above (ground (arith, t)))
                (omega (arith, high, r)) (omega (arith, high, f)))
        | inr t ↦
            rw (e, got, t)
              (location_loop-eq i n fuel (mid + 1) hi xs s
                (omega (arith, below (ground (arith, t)))) q r (omega (arith, low, f)))
      ]
]

-- Reading on from position i, in a line that starts at s.
read-line_starts :
    (i s l m : ℕ) (text : Bytes)
    → s ≤ i
    → m ≤ length text
    → (t : ℕ) × (get_elem? (s ∷ line_starts i text) (count_le (i + m) (line_starts i text))
        ≡ some t)
      × (t ≤ i + m)
      × (read (take m text) l (i - s + 1)
          ≡ (l + count_le (i + m) (line_starts i text), i + m - t + 1))
unfolding line_starts
read-line_starts i s l zero text h k =
    let here : i + 0 ≡ i = omega arith in
    let none_le : count_le i (line_starts i text) ≡ 0 =
      count_le-above i (line_starts i text) (line_starts-Increasing i text) in
    (
      s,
      rw (here, none_le) refl,
      omega (arith, h),
      rw (here, none_le) (ap (λ a. (a, i - s + 1)) (omega arith)),
    )
read-line_starts i s l (suc m) [] h k = elim k [ ]
read-line_starts i s l (suc m) (b ∷ bs) h k = elim (Bool-cases (b == newline)) [
  | inl e ↦
      let (t, got, le, eq) =
        read-line_starts (i + 1) (i + 1) (l + 1) m bs (omega arith) (omega (arith, k)) in
      let shift : i + 1 + m ≡ i + suc m = omega arith in
      let column : i + 1 - (i + 1) + 1 ≡ 1 = omega arith in
      let line : l + 1 + count_le (i + suc m) (line_starts (i + 1) bs)
          ≡ l + suc (count_le (i + suc m) (line_starts (i + 1) bs)) =
        omega arith in
      let counted : leb (i + 1) (i + suc m) ≡ true = ground arith in
      rw (e, counted) (t, rw (shift) at got, omega (arith, le), rw (shift, column, line) at eq)
  | inr e ↦
      let (t, got, le, eq) =
        read-line_starts (i + 1) s l m bs (omega (arith, h)) (omega (arith, k)) in
      let shift : i + 1 + m ≡ i + suc m = omega arith in
      let column : i + 1 - s + 1 ≡ i - s + 1 + 1 = omega (arith, h) in
      rw (e) (t, rw (shift) at got, omega (arith, le), rw (shift, column) at eq)
]

at_line-some :
    (lines : List ℕ) (n k t : ℕ)
    → get_elem? lines k ≡ some t
    → t ≤ n
    → at_line lines (pos n) (some (suc k)) ≡ returns (suc k, pos (n - t + 1))
unfolding at_line ◌-ℤ◌ ◌+ℤ◌
at_line-some lines n k t got le =
    let column : pos n -ℤ pos t +ℤ pos 1 ≡ pos (n - t + 1) = ground (arith, le) in
    rw (got, at_line) (ap (λ c. returns (suc k, c)) column)

-- At a position inside the text or at its end, NewSource and then Location do not panic; the line and
-- the column are those of reading the text from the first byte to the position, from line 1 and column
-- 1 on: behind a newline the column is 1 in the next line, behind another byte it is one more.
pub location-new_source :
    (name text : Bytes) (n : ℕ)
    → n ≤ length text
    → location (new_source name text) (pos n)
      ≡ returns ((read (take n text) 1 1).0, pos (read (take n text) 1 1).1)
unfolding location new_source
location-new_source name text n h =
    let (t, got, le, eq) = read-line_starts 0 0 1 n text (omega arith) h in
    let xs = line_starts 0 text in
    let size : ℕ = suc (length xs) in
    let at_zero : 0 + n ≡ n = omega arith in
    let first_column : 0 - 0 + 1 ≡ 1 = omega arith in
    let line : 1 + count_le n xs ≡ suc (count_le n xs) = omega arith in
    let found : count_le n (0 ∷ xs) ≡ suc (count_le n xs) = ground arith in
    let got' : get_elem? (0 ∷ xs) (count_le n xs) ≡ some t = rw (at_zero) at got in
    ap (at_line (0 ∷ xs) (pos n)) (
      location_loop-eq 0 n size 0 size xs (line_starts-Increasing 0 text) (omega arith)
        (count_le-length n (0 ∷ xs)) (omega arith) (omega arith))
    ∙ ap (λ c. at_line (0 ∷ xs) (pos n) (some c)) found
    ∙ at_line-some (0 ∷ xs) n (count_le n xs) t got' (omega (arith, le))
    ∙ ap (λ (r : ℕ × ℕ). returns (r.0, pos r.1)) (sym (rw (at_zero, first_column, line) at eq))
