-- ===== src/Caps/Isolation.antt =====
-- Writes through a shared handle are not seen at any map that was there before, and what the handle
-- reads is what the writes make of its map.
use gicel.Prelude.{
  ℕ, zero, suc, ◌<◌, ◌≤◌, ◌≡◌, refl, ap, ◌∙◌, fun_ext, ◌⊎◌, inl, inr, Bool, true, false, Option,
  none, some, List, [], ◌∷◌, ◌++◌, length, length-append, get_or, set, length-set, arith,
  Bool-cases, if◌then◌else◌,
}
use gicel.Prelude.Bytes.{Bytes, bytes_eq}
use gicel.Caps.{
  CapMap, Heap, CapEnv, no_caps, map_at, map_set, map_delete, fresh, contents, cap_get,
  write_through, cap_set, cap_delete, deleted, mark_shared,
}

module _ {ℓ} {A : Type ℓ} where
  pub get_or-append_old :
      (xs : List A) (a d : A) (i : ℕ) → i < length xs → get_or (xs ++ a ∷ []) i d ≡ get_or xs i d
  get_or-append_old [] a d i h = absurd (omega (arith, h))
  get_or-append_old (x ∷ xs) a d zero h = refl
  get_or-append_old (x ∷ xs) a d (suc i) h = get_or-append_old xs a d i (omega (arith, h))

  pub get_or-append_new : (xs : List A) (a d : A) → get_or (xs ++ a ∷ []) (length xs) d ≡ a
  get_or-append_new [] a d = refl
  get_or-append_new (x ∷ xs) a d = get_or-append_new xs a d

  get_or-set_self : (xs : List A) (a d : A) (i : ℕ) → i < length xs → get_or (set xs i a) i d ≡ a
  get_or-set_self [] a d i h = absurd (omega (arith, h))
  get_or-set_self (x ∷ xs) a d zero h = refl
  get_or-set_self (x ∷ xs) a d (suc i) h = get_or-set_self xs a d i (omega (arith, h))

  get_or-set_other :
      (xs : List A) (a d : A) (i j : ℕ) → i < j → get_or (set xs j a) i d ≡ get_or xs i d
  get_or-set_other [] a d i j h = refl
  get_or-set_other (x ∷ xs) a d i zero h = absurd (omega (arith, h))
  get_or-set_other (x ∷ xs) a d zero (suc j) h = refl
  get_or-set_other (x ∷ xs) a d (suc i) (suc j) h = get_or-set_other xs a d i j (omega (arith, h))

pub data Write (V : Type 0) : Type 0 where
  set_label : Bytes → V → Write V
  delete_label : Bytes → Write V

module _ {V : Type 0} where
  unfoldable pub write : Heap V → CapEnv → Write V → CapEnv × Heap V
  unfolding cap_set cap_delete
  write h c (set_label label val) = cap_set h c label val
  write h c (delete_label label) = cap_delete h c label

  -- Each write goes through the handle that the last one gave.
  unfoldable pub run : Heap V → CapEnv → List (Write V) → CapEnv × Heap V
  unfolding write
  run h c [] = (c, h)
  run h c (w ∷ ws) = let (c', h') = write h c w in run h' c' ws

  abbrev pub apply_write : Write V → CapMap V → CapMap V
  apply_write (set_label label val) m = map_set label val m
  apply_write (delete_label label) m = map_delete label m

  abbrev pub apply_all : List (Write V) → CapMap V → CapMap V
  apply_all [] m = m
  apply_all (w ∷ ws) m = apply_all ws (apply_write w m)

  -- The handle is on a map of the heap, shared or from the address `n` on.
  abbrev pub Guards : ℕ → Heap V → Bool → Option ℕ → Type 0
  Guards n h shared none = Unit {0}
  Guards n h shared (some a) = (a < length h) × ((shared ≡ true) ⊎ (n ≤ a))

  -- What a write leaves, with the maps before `n` as they were.
  record Leaves (n : ℕ) (h : Heap V) (m : CapMap V) (r : CapEnv × Heap V) : Type 0 where
    pub guards : Guards n r.1 r.0.shared r.0.caps
    pub longer : n ≤ length r.1
    pub holds : contents r.1 r.0.caps ≡ m
    pub below : (a : ℕ) → a < n → map_at r.1 a ≡ map_at h a

  fresh-Leaves : (n : ℕ) (h : Heap V) (m : CapMap V) → n ≤ length h → Leaves n h m (fresh h m)
  fresh-Leaves n h m k = record {
    guards = (omega (arith, length-append h (m ∷ [])), inr k);
    longer = omega (arith, length-append h (m ∷ []));
    holds = get_or-append_new h m no_caps;
    below = λ a l. get_or-append_old h m no_caps a (omega (arith, l, k));
  }

  write_through-Leaves :
      (n : ℕ) (h : Heap V) (c : CapEnv) (caps : Option ℕ) (f : CapMap V → CapMap V)
      → c.caps ≡ caps
      → n ≤ length h
      → Guards n h c.shared caps
      → Leaves n h (f (contents h caps)) (write_through h c caps f)
  write_through-Leaves n h c none f e k g = fresh-Leaves n h (f no_caps) k
  write_through-Leaves n h c (some a) f e k (l, g) = by_sharing (Bool-cases c.shared) g
    where
      by_sharing :
          (c.shared ≡ true) ⊎ (c.shared ≡ false)
          → (c.shared ≡ true) ⊎ (n ≤ a)
          → Leaves n h (f (map_at h a)) (write_through h c (some a) f)
      by_sharing (inl t) g = rw t (fresh-Leaves n h (f (map_at h a)) k)
      by_sharing (inr t) (inl u) = absurd (ground (arith, t, u))
      by_sharing (inr t) (inr u) =
          let m = f (map_at h a) in
          let longer = length-set h a m in
          rw (t, e)
            (record {
              guards = (omega (arith, longer, l), inr u);
              longer = omega (arith, longer, k);
              holds = get_or-set_self h m no_caps a l;
              below = λ b v. get_or-set_other h m no_caps b a (omega (arith, u, v));
            })

  never : (b : Bool) → no_caps {V = V} [] ≡ (if b then none else none)
  never true = refl
  never false = refl

  deleted-Leaves :
      (n : ℕ) (h : Heap V) (c : CapEnv) (caps : Option ℕ) (label : Bytes)
      → c.caps ≡ caps
      → n ≤ length h
      → Guards n h c.shared caps
      → Leaves n h (map_delete label (contents h caps)) (deleted h c caps label)
  deleted-Leaves n h c (some a) label e k g =
      write_through-Leaves n h c (some a) (map_delete label) e k g
  deleted-Leaves n h c none label e k g = record {
    guards = rw e tt;
    longer = k;
    holds = rw e (fun_ext λ l. never (bytes_eq l label));
    below = λ a u. refl;
  }

  write-Leaves :
      (n : ℕ) (h : Heap V) (c : CapEnv) (w : Write V)
      → n ≤ length h
      → Guards n h c.shared c.caps
      → Leaves n h (apply_write w (contents h c.caps)) (write h c w)
  unfolding cap_set cap_delete write
  write-Leaves n h c (set_label label val) k g =
      write_through-Leaves n h c c.caps (map_set label val) refl k g
  write-Leaves n h c (delete_label label) k g = deleted-Leaves n h c c.caps label refl k g

  run-Leaves :
      (n : ℕ) (h : Heap V) (c : CapEnv) (ws : List (Write V))
      → n ≤ length h
      → Guards n h c.shared c.caps
      → Leaves n h (apply_all ws (contents h c.caps)) (run h c ws)
  unfolding run
  run-Leaves n h c [] k g = record { guards = g; longer = k; holds = refl; below = λ a u. refl }
  run-Leaves n h c (w ∷ ws) k g =
      let s = write-Leaves n h c w k g in
      let r = run-Leaves n (write h c w).1 (write h c w).0 ws s.longer s.guards in
      record {
        guards = r.guards;
        longer = r.longer;
        holds = r.holds ∙ ap (apply_all ws) s.holds;
        below = λ a u. r.below a u ∙ s.below a u;
      }

  -- The handle is on no map, or on one of the heap.
  abbrev pub IsHandle : Heap V → Option ℕ → Type 0
  IsHandle h none = Unit {0}
  IsHandle h (some a) = a < length h

  -- Any number of writes from a handle that is marked as shared leave every map of the heap as it was,
  -- and the last handle reads what the writes make of the first one's map.
  pub mark_shared_isolates :
      (h : Heap V) (c : CapEnv) (ws : List (Write V))
      → IsHandle h c.caps
      → let (c', h') = run h (mark_shared c) ws in
        ((label : Bytes) → cap_get h' c' label ≡ apply_all ws (cap_get h c) label)
        × ((a : ℕ) → a < length h → map_at h' a ≡ map_at h a)
  unfolding mark_shared cap_get
  mark_shared_isolates h c ws v =
      let r = run-Leaves (length h) h (mark_shared c) ws (omega arith) (guarded c.caps v) in
      ((λ label. ap (λ m. m label) r.holds), r.below)
    where
      guarded : (caps : Option ℕ) → IsHandle h caps → Guards (length h) h true caps
      guarded none v = tt
      guarded (some a) v = (v, inl refl)
