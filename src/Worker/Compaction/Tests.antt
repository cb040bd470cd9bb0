-- ===== src/Worker/Compaction/Tests.antt =====
-- Tests of compaction.
use shelfwise.Prelude.{ℕ, ◌<◌, ◌≡◌, refl, ◌⊎◌, String, List, [], ◌∷◌, Dict, map, pos, text_key}
use shelfwise.Prelude.Text.{len, show}
use shelfwise.Prelude.Sort.{sort, place}
use shelfwise.Prelude.Results.{ok, err, Error}
use shelfwise.Worker.Compaction.{Turn, pin_block, keep_turns, Counts, compact_to, compact}
use shelfwise.Worker.Compaction.Folding.{IsCompacted, compact_lem}

abbrev turns : List Turn
turns =
    record { role = "user"; text = "How much milk is left?" }
    ∷ record { role = "agent"; text = "12 units" }
    ∷ record { role = "user"; text = "Order more" }
    ∷ []

abbrev pinned : Dict String String
pinned = ("store", "s1") ∷ ("sku", "milk") ∷ []

compact_test :
    map (λ (t : Turn). t.text) (compact_to 40 turns pinned).0
    ≡ "[pinned facts] sku=milk; store=s1"
      ∷ "[compacted] 1 earlier turn(s) folded; pinned facts retained." ∷ "12 units" ∷ "Order more"
      ∷ []
unfolding compact_to pin_block keep_turns sort place len show
compact_test = refl

compact_lem_example :
    ((compact turns pinned (pos 40) ≡ err Error.value_error) × ◌≡◌ {A = ℕ} 40 0)
    ⊎ ((0 < 40)
        × ((r : List Turn × Counts) × ((compact turns pinned (pos 40) ≡ ok r)
              × IsCompacted 40 turns (pin_block pinned) r)))
compact_lem_example = compact_lem turns pinned (pos 40)
