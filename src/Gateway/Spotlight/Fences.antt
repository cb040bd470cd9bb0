-- ===== src/Gateway/Spotlight/Fences.antt =====
-- What stands between the fences of src/shelfwise_backend/security/gateway.py.
use shelfwise.Prelude.{
  ℕ, zero, suc, ◌≤◌, String, Bool, true, false, not, ◌&&◌, ◌≡◌, refl, arith, eqb, inl, inr,
  Bool-cases, ◌⊎◌, ◌≢◌, sym, subst,
}
use Prim.Native.Char.{Char, code}
use Prim.Native.String.{◌++◌}
use shelfwise.Prelude.Text.{len}
use shelfwise.Contracts.Json.{
  Json, Items, Members, null, boolean, number, text, array, object, no_items, item, no_members,
  member,
}
use shelfwise.Gateway.Spotlight.{
  is_zero_width, is_control, without, replaced, first_of, open_bracket, close_bracket, cleaned,
  spotlight, fence_value, fence_items, fence_context,
}

-- No character of the text has a code point of this kind.
unfoldable pub lacks : (ℕ → Bool) → String → Bool
lacks p String.[] = true
lacks p (String.◌∷◌ c s) = not (p (code c)) && lacks p s

lacks-without : (p q : ℕ → Bool) (s : String) → lacks p s ≡ true → lacks p (without q s) ≡ true
unfolding lacks without
lacks-without p q String.[] h = refl
lacks-without p q (String.◌∷◌ c s) h = ground (arith, h, lacks-without p q s)

without-lacks : (p : ℕ → Bool) (s : String) → lacks p (without p s) ≡ true
unfolding lacks without
without-lacks p String.[] = refl
without-lacks p (String.◌∷◌ c s) = ground (arith, without-lacks p s)

lacks-replaced :
    (p : ℕ → Bool) (old : ℕ) (new : Char) (s : String)
    → p (code new) ≡ false
    → lacks p s ≡ true
    → lacks p (replaced old new s) ≡ true
unfolding lacks replaced
lacks-replaced p old new String.[] n h = refl
lacks-replaced p old new (String.◌∷◌ c s) n h = elim (Bool-cases (eqb (code c) old)) [
  | inl e ↦ rw e (ground (arith, n, h, lacks-replaced p old new s n))
  | inr e ↦ rw e (ground (arith, n, h, lacks-replaced p old new s n))
]

replaced-lacks :
    (old : ℕ) (new : Char) (s : String)
    → eqb (code new) old ≡ false
    → lacks (λ n. eqb n old) (replaced old new s) ≡ true
unfolding lacks replaced
replaced-lacks old new String.[] n = refl
replaced-lacks old new (String.◌∷◌ c s) n = elim (Bool-cases (eqb (code c) old)) [
  | inl e ↦ rw e (ground (arith, n, replaced-lacks old new s n))
  | inr e ↦ rw e (ground (arith, e, replaced-lacks old new s n))
]

lacks-first_of :
    (p : ℕ → Bool) (n : ℕ) (s : String) → lacks p s ≡ true → lacks p (first_of n s) ≡ true
unfolding lacks first_of
lacks-first_of p zero s h = refl
lacks-first_of p (suc n) String.[] h = refl
lacks-first_of p (suc n) (String.◌∷◌ c s) h = ground (arith, h, lacks-first_of p n s)

len-first_of : (n : ℕ) (s : String) → len (first_of n s) ≤ n
unfolding first_of len
len-first_of zero s = omega arith
len-first_of (suc n) String.[] = omega arith
len-first_of (suc n) (String.◌∷◌ c s) = omega (arith, len-first_of n s)

abbrev IsBetween : ℕ → ℕ → ℕ → Type 0
IsBetween a b n = (a ≤ n) × (n ≤ b)

-- U+200B to U+200F, U+2060 to U+2064, U+FEFF, U+00AD and U+202A to U+202E.
abbrev pub IsHidden : ℕ → Type 0
IsHidden n =
    IsBetween 8203 8207 n
    ⊎ (IsBetween 8288 8292 n ⊎ ((n ≡ 65279) ⊎ ((n ≡ 173) ⊎ IsBetween 8234 8238 n)))

-- U+0000 to U+001F but tab, line feed and carriage return, and U+007F.
abbrev pub IsControl : ℕ → Type 0
IsControl n = (IsBetween 0 31 n × ((n ≢ 9) × ((n ≢ 10) × (n ≢ 13)))) ⊎ (n ≡ 127)

hidden_is_zero_width : (n : ℕ) → IsHidden n → is_zero_width n ≡ true
hidden_is_zero_width n (inl h) = ground (arith, h)
hidden_is_zero_width n (inr (inl h)) = ground (arith, h)
hidden_is_zero_width n (inr (inr (inl h))) = ground (arith, h)
hidden_is_zero_width n (inr (inr (inr (inl h)))) = ground (arith, h)
hidden_is_zero_width n (inr (inr (inr (inr h)))) = ground (arith, h)

control_is_control : (n : ℕ) → IsControl n → is_control n ≡ true
control_is_control n (inl h) = ground (arith, h)
control_is_control n (inr h) = ground (arith, h)

lacks_each :
    (p : ℕ → Bool) (n : ℕ) (s : String)
    → p n ≡ true
    → lacks p s ≡ true
    → lacks (λ c. eqb c n) s ≡ true
unfolding lacks
lacks_each p n String.[] e h = refl
lacks_each p n (String.◌∷◌ c s) e h = elim (Bool-cases (eqb (code c) n)) [
  | inl same ↦
      let alike : code c ≡ n = ground (arith, same) in
      let hit : p (code c) ≡ true = subst (λ m. p m ≡ true) (sym alike) e in
      absurd (ground (arith, h, hit))
  | inr other ↦ rw other (lacks_each p n s e (ground (arith, h)))
]

-- A text between fences that it cannot forge: it has no bracket of a fence, none of the hidden and
-- of the control characters above, and at most `n` characters.
pub record IsFenced (n : ℕ) (s : String) : Type 0 where
  pub body : String
  pub wrapped : s ≡ "⟦DATA⟧" ++ (body ++ "⟦/DATA⟧")
  pub unopened : lacks (λ c. eqb c 10_214) body ≡ true
  pub unclosed : lacks (λ c. eqb c 10_215) body ≡ true
  pub visible : (n : ℕ) → IsHidden n → lacks (λ c. eqb c n) body ≡ true
  pub uncontrolled : (n : ℕ) → IsControl n → lacks (λ c. eqb c n) body ≡ true
  pub short : len body ≤ n

module _ (s : String) where
  stripped : String
  stripped = without is_control (without is_zero_width s)

  cleaned-lacks :
      (p : ℕ → Bool)
      → p (code "(") ≡ false
      → p (code ")") ≡ false
      → lacks p stripped ≡ true
      → lacks p (cleaned s) ≡ true
  unfolding cleaned stripped
  cleaned-lacks p h k l =
      lacks-replaced p close_bracket ")" (replaced open_bracket "(" stripped) k
        (lacks-replaced p open_bracket "(" stripped h l)

pub spotlight-IsFenced : (n : ℕ) (s : String) → IsFenced n (spotlight n s)
unfolding spotlight cleaned stripped
spotlight-IsFenced n s =
    let kept =
      λ (p : ℕ → Bool) (h : lacks p (cleaned s) ≡ true). lacks-first_of p n (cleaned s) h in
    record {
      body = first_of n (cleaned s);
      wrapped = refl;
      unopened =
          kept (λ c. eqb c open_bracket)
            (lacks-replaced (λ c. eqb c open_bracket) close_bracket ")"
              (replaced open_bracket "(" (stripped s)) refl
              (replaced-lacks open_bracket "(" (stripped s) refl));
      unclosed =
          kept (λ c. eqb c close_bracket)
            (replaced-lacks close_bracket ")" (replaced open_bracket "(" (stripped s)) refl);
      visible = λ c hidden. lacks_each is_zero_width c _ (hidden_is_zero_width c hidden) (
          kept is_zero_width (
            cleaned-lacks s is_zero_width refl refl (
              lacks-without is_zero_width is_control (without is_zero_width s)
                (without-lacks is_zero_width s))));
      uncontrolled = λ c control. lacks_each is_control c _ (control_is_control c control) (
          kept is_control (
            cleaned-lacks s is_control refl refl
              (without-lacks is_control (without is_zero_width s))));
      short = len-first_of n (cleaned s);
    }

unfoldable mutual
  -- Every text in the value is fenced; names of members are left.
  pub IsSafe : Json → Type 0
  IsSafe (text s) = IsFenced 500 s
  IsSafe (array js) = AllSafe js
  IsSafe (object ms) = MembersSafe ms
  IsSafe _ = Unit

  pub AllSafe : Items → Type 0
  AllSafe no_items = Unit
  AllSafe (item j js) = IsSafe j × AllSafe js

  pub MembersSafe : Members → Type 0
  MembersSafe no_members = Unit
  MembersSafe (member k v ms) = IsSafe v × MembersSafe ms

mutual
  unfolding fence_value fence_items fence_context IsSafe AllSafe MembersSafe

  fence_value-IsSafe : (j : Json) → IsSafe (fence_value j)
  fence_value-IsSafe null = tt
  fence_value-IsSafe (boolean b) = tt
  fence_value-IsSafe (number z) = tt
  fence_value-IsSafe (text s) = spotlight-IsFenced 500 s
  fence_value-IsSafe (array js) = fence_items-AllSafe js
  fence_value-IsSafe (object ms) = fence_members-MembersSafe ms

  fence_items-AllSafe : (js : Items) → AllSafe (fence_items js)
  fence_items-AllSafe no_items = tt
  fence_items-AllSafe (item j js) = (fence_value-IsSafe j, fence_items-AllSafe js)

  fence_members-MembersSafe : (ms : Members) → MembersSafe (fence_context ms)
  fence_members-MembersSafe no_members = tt
  fence_members-MembersSafe (member k v ms) = (fence_value-IsSafe v, fence_members-MembersSafe ms)

-- Every text that is a value in a fenced context, at any depth, stands between fences that it cannot
-- forge: it has no bracket of a fence, none of the characters U+200B to 200F, 2060 to 2064, FEFF, 00AD
-- and 202A to 202E, none of U+0000 to 001F but tab and the line ends, no U+007F, and at most 500
-- characters. The names of members are not fenced.
pub fence_context-MembersSafe : (ms : Members) → MembersSafe (fence_context ms)
fence_context-MembersSafe ms = fence_members-MembersSafe ms
