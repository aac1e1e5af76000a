-- ===== src/Tests/Ranks.antt =====
-- Losses of one path among three.
use evgenium_network_linux.Prelude.{nat_eq, string_eq, ℕ, some, [], refl, ◌∷◌}
use evgenium_network_linux.Ranking.{after, next_usable, Ranking, next_after}
use evgenium_network_linux.Ranking.Losses.{next_after-NextAfter, NextAfter}

abbrev ranking : ℕ → Ranking
ranking n = record { order = "a" ∷ "b" ∷ "c" ∷ []; losses = ("a", 0) ∷ ("b", n) ∷ ("c", 1) ∷ [] }

next_after-NextAfter_example : NextAfter "a" (ranking 3) (some "c")
unfolding next_after after next_usable
next_after-NextAfter_example = next_after-NextAfter "a" (ranking 3) (some "c") refl
