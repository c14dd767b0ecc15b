-- ===== src/Unify/Trail/Undo.antt =====
-- internal/compiler/check/unify/unify_trail.go: the undoing of the entries, from the last to the first.
use gicel.Prelude.{
  ℕ, Option, List, [], ◌∷◌, ◌++◌, length, if◌then◌else◌, ◌≡◌, refl, ap, ◌∙◌, fun_ext, arith,
  length-append, ◌==◌,
}
use gicel.Unify.Trail.{
  TrailEntry, trail_soln, trail_label, trail_skolem_soln, trail_level_soln, Solutions, put, undo,
  replay,
}

module _ {Ty Lbl : Type 0} where
  abbrev pub undo_all : List (TrailEntry Ty Lbl) → Solutions Ty Lbl → Solutions Ty Lbl
  undo_all [] s = s
  undo_all (e ∷ es) s = undo_all es (undo e s)

  pub undo_all-append :
      (ps qs : List (TrailEntry Ty Lbl)) (s : Solutions Ty Lbl)
      → undo_all (ps ++ qs) s ≡ undo_all qs (undo_all ps s)
  undo_all-append [] qs s = refl
  undo_all-append (p ∷ ps) qs s = undo_all-append ps qs (undo p s)

  pub replay-undo_all :
      (ps base : List (TrailEntry Ty Lbl)) (s : Solutions Ty Lbl)
      → replay (length base) (ps ++ base) s ≡ (base, undo_all ps s)
  unfolding replay
  replay-undo_all [] [] s = refl
  replay-undo_all [] (e ∷ es) s = ground arith
  replay-undo_all (p ∷ ps) base s =
      ground (arith, length-append ps base, replay-undo_all ps base (undo p s))

  -- A skolem's entry forgets what the skolem had.
  abbrev pub put_skolem : ℕ → Option Ty → Solutions Ty Lbl → Solutions Ty Lbl
  put_skolem id v s = record s { skolem_soln = put s.skolem_soln id v }

module _ {A : Type 0} where
  put_twice :
      (f : ℕ → Option A) (i j : ℕ) (v w : Option A)
      → put (put f i v) j w ≡ put (put f j w) i (if i == j then w else v)
  put_twice f i j v w = fun_ext (λ k. ground arith)

  put_over : (f : ℕ → Option A) (i : ℕ) (v w : Option A) → put (put f i v) i w ≡ put f i w
  put_over f i v w = fun_ext (λ k. ground arith)

  pub put_back : (f : ℕ → Option A) (i : ℕ) (v : Option A) → put (put f i v) i (f i) ≡ f
  put_back f i v = fun_ext (λ k. ground (arith, ap f))

module _ {Ty Lbl : Type 0} where
  undo-put_skolem :
      (p : TrailEntry Ty Lbl) (id : ℕ) (v : Option Ty) (s : Solutions Ty Lbl)
      → (w : Option Ty) × (undo p (put_skolem id v s) ≡ put_skolem id w (undo p s))
  undo-put_skolem (trail_soln i old) id v s = (v, refl)
  undo-put_skolem (trail_label i old) id v s = (v, refl)
  undo-put_skolem (trail_level_soln i old) id v s = (v, refl)
  undo-put_skolem (trail_skolem_soln i old) id v s = (
    if id == i then old else v,
    λ k. record s { skolem_soln = put_twice s.skolem_soln id i v old k },
  )

  -- Once the entry of the given equality is undone, a removal has no effect.
  pub undo_all-put_skolem :
      (ps : List (TrailEntry Ty Lbl)) (id : ℕ) (v old : Option Ty) (s : Solutions Ty Lbl)
      → undo_all (ps ++ trail_skolem_soln id old ∷ []) (put_skolem id v s)
        ≡ undo_all (ps ++ trail_skolem_soln id old ∷ []) s
  undo_all-put_skolem [] id v old s =
      λ k. record s { skolem_soln = put_over s.skolem_soln id v old k }
  undo_all-put_skolem (p ∷ ps) id v old s =
      let (w, e) = undo-put_skolem p id v s in
      ap (undo_all (ps ++ trail_skolem_soln id old ∷ [])) e
      ∙ undo_all-put_skolem ps id w old (undo p s)
