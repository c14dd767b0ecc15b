-- ===== src/Span/Tests.antt =====
-- Runs of the positions of a source, and a witness of the theorem on them.
use gicel.Prelude.{[], ◌∷◌, ◌≡◌, refl, arith}
use gicel.Prelude.Int.{pos, negsuc}
use gicel.Prelude.Outcome.{returns, panics}
use gicel.Prelude.Bytes.{Bytes}
use gicel.Span.{line_starts, new_source, location_loop, at_line, location, excerpt}
use gicel.Span.Lines.{location-new_source}

-- "ab", newline, newline, "c"
abbrev two_breaks : Bytes
two_breaks = 97 ∷ 98 ∷ 10 ∷ 10 ∷ 99 ∷ []

location-new_source_example : location (new_source [] two_breaks) (pos 4) ≡ returns (3, pos 1)
location-new_source_example = location-new_source [] two_breaks 4 (omega arith)

location_of_break : location (new_source [] two_breaks) (pos 2) ≡ returns (1, pos 3)
location_of_break = location-new_source [] two_breaks 2 (omega arith)

location_in_front : location (new_source [] two_breaks) (negsuc 0) ≡ panics
unfolding location location_loop at_line new_source line_starts
location_in_front = refl

excerpt_clamped :
    excerpt (new_source [] two_breaks) (record { start = negsuc 2; end = pos 2 }) ≡ 97 ∷ 98 ∷ []
unfolding excerpt new_source
excerpt_clamped = refl
