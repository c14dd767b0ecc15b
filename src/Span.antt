-- ===== src/Span.antt =====
-- internal/infra/span/span.go: byte ranges of a source, and its table of line starts.
pub mod Lines
mod Tests
use gicel.Prelude.{
  ℕ, zero, suc, ◌+◌, ◌-◌, ◌/◌, Bool, true, false, ◌&&◌, Option, none, some, List, [], ◌∷◌, length,
  get_elem?, take, drop, if◌then◌else◌, ltb, leb, ◌==◌, not,
}
use gicel.Prelude.Int.{ℤ, pos, negsuc, pos_part, neg_part, ◌+ℤ◌, ◌-ℤ◌, ltb_ℤ}
use gicel.Prelude.Outcome.{Outcome, returns, panics}
use gicel.Prelude.Bytes.{Bytes}

pub record Span : Type 0 where
  pub start : ℤ
  pub end : ℤ

abbrev eq_ℤ : ℤ → ℤ → Bool
eq_ℤ a b = not (ltb_ℤ a b) && not (ltb_ℤ b a)

unfoldable pub is_zero : Span → Bool
is_zero s = eq_ℤ s.start (pos 0) && eq_ℤ s.end (pos 0)

pub record Source : Type 0 where
  pub name : Bytes
  pub text : Bytes
  pub lines : List ℕ

abbrev pub newline : ℕ
newline = 10

-- The loop of NewSource, from the position on.
unfoldable pub line_starts : ℕ → Bytes → List ℕ
line_starts i [] = []
line_starts i (b ∷ bs) =
    let rest = line_starts (i + 1) bs in if b == newline then (i + 1) ∷ rest else rest

unfoldable pub new_source : Bytes → Bytes → Source
unfolding line_starts
new_source name text = record { name = name; text = text; lines = 0 ∷ line_starts 0 text }

-- The loop of Location: `none` when the fuel runs out or an index is out of bounds.
unfoldable pub location_loop : List ℕ → ℤ → ℕ → ℕ → ℕ → Option ℕ
location_loop lines p zero lo hi = if ltb lo hi then none else some lo
location_loop lines p (suc fuel) lo hi =
    let mid = lo + (hi - lo) / 2 in
    let right = location_loop lines p fuel (mid + 1) hi in
    let left = location_loop lines p fuel lo mid in
    let rest : Option ℕ = elim (get_elem? lines mid) [
      | none ↦ none
      | some x ↦ if ltb_ℤ p (pos x) then left else right
    ] in
    if ltb lo hi then rest else some lo

-- The line and the column, where the search has ended on a line; in front of the first it panics.
unfoldable pub at_line : List ℕ → ℤ → Option ℕ → Outcome (ℕ × ℤ)
unfolding ◌-ℤ◌ ◌+ℤ◌
at_line lines p none = panics
at_line lines p (some zero) = panics
at_line lines p (some (suc k)) = elim (get_elem? lines k) [
  | none ↦ panics
  | some x ↦ returns (suc k, (p -ℤ pos x) +ℤ pos 1)
]

unfoldable pub location : Source → ℤ → Outcome (ℕ × ℤ)
unfolding location_loop at_line
location src p =
    at_line src.lines p (location_loop src.lines p (length src.lines) 0 (length src.lines))

unfoldable pub excerpt : Source → Span → Bytes
excerpt src sp =
    let start = if ltb_ℤ sp.start (pos 0) then pos 0 else sp.start in
    let end = if ltb_ℤ (pos (length src.text)) sp.end then pos (length src.text) else sp.end in
    if ltb_ℤ start end
    then take (pos_part end - pos_part start) (drop (pos_part start) src.text)
    else []
