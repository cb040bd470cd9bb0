-- ===== src/Worker/Compaction/Folding.antt =====
-- What `compact` keeps, and what it folds.
use shelfwise.Prelude.{
  ℕ, ◌+◌, ◌≤◌, ◌<◌, max, ◌≡◌, refl, sym, subst, ap, ap₂, ◌∙◌, ◌⊎◌, inl, inr, String, Bool-cases,
  List, [], ◌∷◌, ◌++◌, append-nil, append_assoc, ltb, leb, length, length-append, Dict, ℤ, pos,
  negsuc, to_ℕ, text_key, arith,
}
use shelfwise.Prelude.Results.{ok, err, Error}
use shelfwise.Prelude.Text.{len}
use shelfwise.Worker.Compaction.{
  Turn, pin_block, reversed, Kept, keep_turns, Counts, pin_turns, notice, compact_to, compact,
}

abbrev pub total_chars : List Turn → ℕ
total_chars [] = 0
total_chars (t ∷ ts) = len t.text + total_chars ts

-- The next turn, where there is one, would go over the budget.
abbrev pub NextOverflows : ℕ → ℕ → List Turn → Type 0
NextOverflows budget used [] = Unit
NextOverflows budget used (t ∷ ts) = budget < used + len t.text

-- The turns that the loop took, and those it left.
record Cut (budget used : ℕ) (turns : List Turn) (k : Kept) : Type 0 where
  left : List Turn
  split : turns ≡ k.turns ++ left
  folded : k.folded ≡ length left
  sum : k.used ≡ used + total_chars k.turns
  fits : k.used ≤ max budget used
  tight : NextOverflows budget k.used left

keep_turns-Cut :
    (budget : ℕ) (turns : List Turn) (used : ℕ)
    → Cut budget used turns (keep_turns budget turns used)
unfolding keep_turns
keep_turns-Cut budget [] used = record {
  left = [];
  split = refl;
  folded = refl;
  sum = omega arith;
  fits = omega arith;
  tight = tt;
}
keep_turns-Cut budget (t ∷ ts) used = elim (Bool-cases (ltb budget (used + len t.text))) [
  | inl over ↦ rw over (record {
    left = t ∷ ts;
    split = refl;
    folded = refl;
    sum = omega arith;
    fits = omega arith;
    tight = ground (arith, over);
  })
  | inr under ↦
      let rest = keep_turns-Cut budget ts (used + len t.text) in
      rw under (record {
        left = rest.left;
        split = ap (λ (xs : List Turn). t ∷ xs) rest.split;
        folded = rest.folded;
        sum = ground (arith, rest.sum);
        fits = ground (arith, rest.fits, under);
        tight = rest.tight;
      })
]

reversed-append {ℓ} :
    {A : Type ℓ} (xs ys : List A) → reversed (xs ++ ys) ≡ reversed ys ++ reversed xs
reversed-append [] ys = sym (append-nil (reversed ys))
reversed-append (x ∷ xs) ys =
    ap (λ zs. zs ++ x ∷ []) (reversed-append xs ys)
    ∙ append_assoc (reversed ys) (reversed xs) (x ∷ [])

reversed-reversed {ℓ} : {A : Type ℓ} (xs : List A) → reversed (reversed xs) ≡ xs
reversed-reversed [] = refl
reversed-reversed (x ∷ xs) =
    reversed-append (reversed xs) (x ∷ []) ∙ ap (λ zs. x ∷ zs) (reversed-reversed xs)

total_chars-append : (xs ys : List Turn) → total_chars (xs ++ ys) ≡ total_chars xs + total_chars ys
total_chars-append [] ys = omega arith
total_chars-append (x ∷ xs) ys = omega (arith, total_chars-append xs ys)

total_chars-reversed : (xs : List Turn) → total_chars (reversed xs) ≡ total_chars xs
total_chars-reversed [] = refl
total_chars-reversed (x ∷ xs) =
    omega (arith, total_chars-append (reversed xs) (x ∷ []), total_chars-reversed xs)

length-reversed {ℓ} : {A : Type ℓ} (xs : List A) → length (reversed xs) ≡ length xs
length-reversed [] = refl
length-reversed (x ∷ xs) = omega (arith, length-append (reversed xs) (x ∷ []), length-reversed xs)

-- The turns are the older ones, which the output replaces by a notice, and the kept ones.
pub record IsCompacted (budget : ℕ) (turns : List Turn) (block : String) (r : List Turn × Counts)
    : Type 0 where
  pub older : List Turn
  pub kept : List Turn
  pub split : turns ≡ older ++ kept
  pub output : r.0 ≡ pin_turns block ++ notice (length older) ++ kept
  pub counts :
      r.1
      ≡ record { folded = length older; kept = length kept; chars = len block + total_chars kept }
  pub fits : len block + total_chars kept ≤ max budget (len block)
  pub tight : NextOverflows budget (len block + total_chars kept) (reversed older)

compact_to-IsCompacted :
    (budget : ℕ) (turns : List Turn) (pinned : Dict String String)
    → IsCompacted budget turns (pin_block pinned) (compact_to budget turns pinned)
unfolding compact_to
compact_to-IsCompacted budget turns pinned =
    let block = pin_block pinned in
    let k = keep_turns budget (reversed turns) (len block) in
    let cut = keep_turns-Cut budget (reversed turns) (len block) in
    let folds : k.folded ≡ length (reversed cut.left) =
      cut.folded ∙ sym (length-reversed cut.left) in
    let chars : k.used ≡ len block + total_chars (reversed k.turns) =
      cut.sum ∙ ap (λ n. len block + n) (sym (total_chars-reversed k.turns)) in
    record {
      older = reversed cut.left;
      kept = reversed k.turns;
      split =
          sym (reversed-reversed turns)
          ∙ ap (λ (ts : List Turn). reversed ts) cut.split
          ∙ reversed-append k.turns cut.left;
      output = ap (λ n. pin_turns block ++ notice n ++ reversed k.turns) folds;
      counts =
          ap₂ (λ f c. record { folded = f; kept = length (reversed k.turns); chars = c }) folds
            chars;
      fits = subst (λ n. n ≤ max budget (len block)) chars cut.fits;
      tight =
          subst
            (λ (ts : List Turn).
              NextOverflows budget (len block + total_chars (reversed k.turns)) ts)
            (sym (reversed-reversed cut.left))
            (subst (λ n. NextOverflows budget n cut.left) chars cut.tight);
    }

-- `compact` raises exactly on a budget that is not above zero. Otherwise the turns it keeps are the
-- newest ones, in their order, the older ones are replaced by a notice, and the counts are right.
-- The characters of the pinned facts and the kept turns stay within the budget, or the pinned facts
-- alone are over it and nothing is kept; and the newest turn that is folded would not have fitted.
pub compact_lem :
    (turns : List Turn) (pinned : Dict String String) (budget : ℤ)
    → ((compact turns pinned budget ≡ err Error.value_error) × (to_ℕ budget ≡ 0))
      ⊎ ((0 < to_ℕ budget)
          × ((r : List Turn × Counts) × ((compact turns pinned budget ≡ ok r)
                × IsCompacted (to_ℕ budget) turns (pin_block pinned) r)))
unfolding compact
compact_lem turns pinned (negsuc n) = inl (refl, refl)
compact_lem turns pinned (pos n) = elim (Bool-cases (leb n 0)) [
  | inl low ↦ inl (rw low refl, ground (arith, low))
  | inr high ↦ inr (
    ground (arith, high),
    (compact_to n turns pinned, (rw high refl, compact_to-IsCompacted n turns pinned)),
  )
]
