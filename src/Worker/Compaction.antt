-- ===== src/Worker/Compaction.antt =====
-- src/shelfwise_backend/worker/compaction.py: turns of a conversation that have to fit a budget of
-- characters.
mod Tests
pub mod Folding
use shelfwise.Prelude.{
  ℕ, zero, suc, ◌+◌, String, Bool, true, false, not, Option, none, some, List, [], ◌∷◌, ◌++◌,
  if◌then◌else◌, ltb, leb, eqb, length, Dict, ℤ, pos, negsuc, text_key,
}
use Prim.Native.String.{◌++◌ as ◌<>◌}
use shelfwise.Prelude.Text.{truthy, text_leb, show, len}
use shelfwise.Prelude.Sort.{sort}
use shelfwise.Prelude.Results.{Result, ok, err, Error}

pub record Turn : Type 0 where
  pub role : String
  pub text : String

abbrev by_key : String × String → String × String → Bool
by_key a b = text_leb a.0 b.0

-- `"; ".join(f"{key}={value}" for key, value in pins)`
abbrev pub joined : List (String × String) → String
joined [] = ""
joined ((key, value) ∷ []) = key <> "=" <> value
joined ((key, value) ∷ pin ∷ pins) = key <> "=" <> value <> "; " <> joined (pin ∷ pins)

unfoldable pub pin_block : Dict String String → String
pin_block pinned = joined (sort by_key pinned)

abbrev pub reversed {ℓ} : {A : Type ℓ} → List A → List A
reversed [] = []
reversed (x ∷ xs) = reversed xs ++ x ∷ []

-- What the loop over the turns, the newest first, has at its end.
pub record Kept : Type 0 where
  pub turns : List Turn
  pub folded : ℕ
  pub used : ℕ

unfoldable pub keep_turns : ℕ → List Turn → ℕ → Kept
unfolding len
keep_turns budget [] used = record { turns = []; folded = 0; used = used }
keep_turns budget (turn ∷ turns) used =
    let rest = keep_turns budget turns (used + len turn.text) in
    if ltb budget (used + len turn.text)
    then record { turns = []; folded = length (turn ∷ turns); used = used }
    else record rest { turns = turn ∷ rest.turns }

pub record Counts : Type 0 where
  pub folded : ℕ
  pub kept : ℕ
  pub chars : ℕ

abbrev pub pin_turns : String → List Turn
pin_turns block =
    if truthy block then record { role = "tool"; text = "[pinned facts] " <> block } ∷ [] else []

abbrev pub notice : ℕ → List Turn
notice folded =
    if eqb folded 0
    then []
    else record {
      role = "tool";
      text = "[compacted] " <> show folded <> " earlier turn(s) folded; pinned facts retained.";
    }
      ∷ []

abbrev pub output_of : String → Kept → List Turn × Counts
output_of block k = (
  pin_turns block ++ notice k.folded ++ reversed k.turns,
  record { folded = k.folded; kept = length (reversed k.turns); chars = k.used },
)

-- `compact` with a budget above zero.
abbrev pub compact_to : ℕ → List Turn → Dict String String → List Turn × Counts
unfolding keep_turns pin_block len
compact_to budget turns pinned =
    let block = pin_block pinned in output_of block (keep_turns budget (reversed turns) (len block))

unfoldable pub compact : List Turn → Dict String String → ℤ → Result (List Turn × Counts)
compact turns pinned (negsuc n) = err Error.value_error
compact turns pinned (pos n) =
    if leb n 0 then err Error.value_error else ok (compact_to n turns pinned)
