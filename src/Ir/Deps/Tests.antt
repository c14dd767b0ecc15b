-- ===== src/Ir/Deps/Tests.antt =====
-- Runs of the sorting, and witnesses of its theorems.
use gicel.Prelude.{ℕ, zero, suc, ◌<◌, ◌-◌, Bool, true, some, List, [], ◌∷◌, ◌++◌, ◌≡◌, refl, arith}
use gicel.Prelude.Bytes.{Bytes}
use gicel.Ir.Deps.{
  VarKey, range, filter, pick, depends_on, sort_bindings, sort_order, kahn_start, kahn_step,
  kahn_loop,
}
use gicel.Ir.Deps.Rounds.{After}
use gicel.Ir.Deps.Sorted.{Arrangement, Blocked, sort_bindings_ends, sort_bindings_acyclic}

-- A binding as its name and the names that its expression mentions.
record Sample : Type 0 where
  label : Bytes
  mentions : List VarKey

abbrev local_key : Bytes → VarKey
local_key x = record { key_module = []; var_name = x }

-- a = b + c, b = c, c = 1.
abbrev chain : List Sample
chain =
    record { label = b'a' ∷ []; mentions = local_key (b'b' ∷ []) ∷ local_key (b'c' ∷ []) ∷ [] }
    ∷ record { label = (b'b' ∷ []); mentions = local_key (b'c' ∷ []) ∷ [] }
    ∷ record { label = (b'c' ∷ []); mentions = [] }
    ∷ []

-- p = q, q = p, r = 1.
abbrev knot : List Sample
knot =
    record { label = (b'p' ∷ []); mentions = local_key (b'q' ∷ []) ∷ [] }
    ∷ record { label = (b'q' ∷ []); mentions = local_key (b'p' ∷ []) ∷ [] }
    ∷ record { label = (b'r' ∷ []); mentions = [] }
    ∷ []

abbrev rank_of : ℕ → ℕ
rank_of j = 2 - j

chain_order :
    sort_bindings (λ b. b.label) (λ b. b.mentions) chain ≡ some (pick chain (2 ∷ 1 ∷ 0 ∷ []))
unfolding sort_bindings sort_order kahn_start kahn_step kahn_loop depends_on
chain_order = refl

knot_order : sort_bindings (λ b. b.label) (λ b. b.mentions) knot ≡ some (pick knot (2 ∷ 0 ∷ 1 ∷ []))
unfolding sort_bindings sort_order kahn_start kahn_step kahn_loop depends_on
knot_order = refl

chain_acyclic :
    (j k : ℕ)
    → j < 3
    → k < 3
    → depends_on (λ b. b.label) (λ b. b.mentions) chain j k ≡ true
    → rank_of k < rank_of j
unfolding depends_on
chain_acyclic zero k l m e = ground arith
chain_acyclic (suc zero) k l m e = ground arith
chain_acyclic (suc (suc zero)) k l m e = ground arith
chain_acyclic (suc (suc (suc j))) k l m e = absurd (omega arith)

sort_bindings_ends_example :
    (front rest : List ℕ) × (sort_bindings (λ b. b.label) (λ b. b.mentions) knot
      ≡ some (pick knot (front ++ rest)))
    × Arrangement 3 (front ++ rest)
    × After 3 (depends_on (λ b. b.label) (λ b. b.mentions) knot) [] front
    × Blocked 3 (depends_on (λ b. b.label) (λ b. b.mentions) knot) rest
    × (p : ℕ → Bool) × (rest ≡ filter p (range 3))
sort_bindings_ends_example = sort_bindings_ends (λ b. b.label) (λ b. b.mentions) knot

sort_bindings_acyclic_example :
    (order : List ℕ) × (sort_bindings (λ b. b.label) (λ b. b.mentions) chain
      ≡ some (pick chain order))
    × Arrangement 3 order
    × After 3 (depends_on (λ b. b.label) (λ b. b.mentions) chain) [] order
sort_bindings_acyclic_example =
    sort_bindings_acyclic (λ b. b.label) (λ b. b.mentions) chain rank_of chain_acyclic
