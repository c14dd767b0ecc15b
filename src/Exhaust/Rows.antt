-- ===== src/Exhaust/Rows.antt =====
-- internal/compiler/check/exhaust/matrix.go: a row of a specialised matrix against the parts of a value.
use gicel.Prelude.{ℕ, zero, suc, Bool, true, ◌&&◌, ◌≡◌, refl, ap, arith}
use gicel.Exhaust.Pattern.{Pats, nil, cons, pats_length, pats_append, wildcards, make_wildcard_vec}
use gicel.Exhaust.Values.{
  Values, vnil, vcons, vals_length, vals_append, vanys, matches_all, Compats,
}

module _ {Lit : Type 0} where
  pub Compats-length :
      (ps : Pats Lit) (vs : Values Lit) → Compats ps vs → pats_length ps ≡ vals_length vs
  Compats-length nil vnil h = refl
  Compats-length nil (vcons v vs) h = elim h [ ]
  Compats-length (cons p ps) vnil h = elim h [ ]
  Compats-length (cons p ps) (vcons v vs) (a, b) = ap suc (Compats-length ps vs b)

  pub Compats-append :
      (ps qs : Pats Lit) (us vs : Values Lit)
      → Compats ps us
      → Compats qs vs
      → Compats (pats_append ps qs) (vals_append us vs)
  Compats-append nil qs vnil vs h k = k
  Compats-append nil qs (vcons a us) vs h k = elim h [ ]
  Compats-append (cons p ps) qs vnil vs h k = elim h [ ]
  Compats-append (cons p ps) qs (vcons a us) vs (h, t) k = (h, Compats-append ps qs us vs t k)

  pub Compats-wildcards :
      (n : ℕ) (qs : Pats Lit) (us vs : Values Lit)
      → vals_length us ≡ n
      → Compats qs vs
      → Compats (make_wildcard_vec n qs) (vals_append us vs)
  Compats-wildcards zero qs vnil vs h k = k
  Compats-wildcards zero qs (vcons a us) vs h k = absurd (omega (arith, h))
  Compats-wildcards (suc n) qs vnil vs h k = absurd (omega (arith, h))
  Compats-wildcards (suc n) qs (vcons a us) vs h k =
      (tt, Compats-wildcards n qs us vs (omega (arith, h)) k)

  pub Compats-wilds : (vs : Values Lit) → Compats (wildcards (vals_length vs)) vs
  Compats-wilds vnil = tt
  Compats-wilds (vcons v vs) = (tt, Compats-wilds vs)

pub vals_length-vanys : (Lit : Type 0) (n : ℕ) → vals_length (vanys {Lit = Lit} n) ≡ n
vals_length-vanys Lit zero = refl
vals_length-vanys Lit (suc n) = ap suc (vals_length-vanys Lit n)

module _ {Lit : Type 0} (same : Lit → Lit → Bool) where
  pub matches_all-append :
      (ps qs : Pats Lit) (us vs : Values Lit)
      → pats_length ps ≡ vals_length us
      → matches_all same (pats_append ps qs) (vals_append us vs)
        ≡ (matches_all same ps us && matches_all same qs vs)
  matches_all-append nil qs vnil vs h = refl
  matches_all-append nil qs (vcons a us) vs h = absurd (omega (arith, h))
  matches_all-append (cons p ps) qs vnil vs h = absurd (omega (arith, h))
  matches_all-append (cons p ps) qs (vcons a us) vs h =
      ground (arith, matches_all-append ps qs us vs (omega (arith, h)))

  pub matches_all-wildcards :
      (n : ℕ) (qs : Pats Lit) (us vs : Values Lit)
      → vals_length us ≡ n
      → matches_all same (make_wildcard_vec n qs) (vals_append us vs) ≡ matches_all same qs vs
  matches_all-wildcards zero qs vnil vs h = refl
  matches_all-wildcards zero qs (vcons a us) vs h = absurd (omega (arith, h))
  matches_all-wildcards (suc n) qs vnil vs h = absurd (omega (arith, h))
  matches_all-wildcards (suc n) qs (vcons a us) vs h =
      matches_all-wildcards n qs us vs (omega (arith, h))

  pub matches_all-wilds :
      (vs : Values Lit) → matches_all same (wildcards (vals_length vs)) vs ≡ true
  matches_all-wilds vnil = refl
  matches_all-wilds (vcons v vs) = matches_all-wilds vs
