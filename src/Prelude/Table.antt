-- ===== src/Prelude/Table.antt =====
-- A table of the database as the stores use it: rows by primary key, known by its laws. The
-- database is not part of the program; a store takes its tables as parameters. Its columns take
-- every text of the model: texts that PostgreSQL refuses, with a NUL character or too long for a key,
-- are left aside.
use mathlib.Core.Path.{◌≡◌, refl}
use mathlib.Core.Logic.{inl, inr}
use native.Mathlib.Omega.{arith}
use mathlib.Core.Bool.{Bool, true}
use mathlib.Core.Option.{Option, none, some}
use mathlib.Core.List.{List, []}
use shelfwise.Prelude.Tests.{if◌then◌else◌, is_some, or_else, Option-cases}
use shelfwise.Prelude.Keys.{Key, ◌==◌}
use shelfwise.Prelude.Assoc.{Dict, lookup, insert, lookup-nil, lookup-insert}

pub record Table (K V : Type 0) ⦃k : Key K⦄ : Type 1 where
  pub Rows : Type 0
  pub no_rows : Rows
  -- `select ... where key = %s`
  pub find : K → Rows → Option V
  -- The table with the row of this key written.
  pub write : K → V → Rows → Rows
  -- `select ...` of all rows, in the order of the database.
  pub scan : Rows → List (K × V)
  pub find-no_rows : (j : K) → find j no_rows ≡ none
  pub find-write :
      (i j : K) (v : V) (t : Rows) → find j (write i v t) ≡ (if j == i then some v else find j t)
  pub lookup-scan : (j : K) (t : Rows) → lookup j (scan t) ≡ find j t

module _ {K V : Type 0} ⦃k : Key K⦄ (T : Table K V) where
  open T use {Rows, find, write}

  -- `insert ... on conflict (key) do nothing`
  abbrev pub insert_or_nothing : K → V → Rows → Rows
  insert_or_nothing j v t = if is_some (find j t) then t else write j v t

  -- Whether a statement's `where` clause admits the stored row.
  abbrev admits : (V → Bool) → Option V → Bool
  admits test none = true
  admits test (some old) = test old

  -- `insert ... on conflict (key) do update set ... where test`
  abbrev pub insert_or_update : K → V → (V → Bool) → Rows → Rows
  insert_or_update j v test t = if admits test (find j t) then write j v t else t

  pub find-insert_or_nothing :
      (i j : K) (v : V) (t : Rows)
      → find j (insert_or_nothing i v t)
        ≡ (if j == i then some (or_else (find i t) v) else find j t)
  find-insert_or_nothing i j v t = elim (Option-cases (find i t)) [
    | inl e ↦ ground (arith, e, T.find-write i j v t)
    | inr (w, e) ↦ ground (arith, e, k.same_iff j i)
  ]

-- A table kept as a dictionary: the laws can be met.
abbrev pub dict_table : (K V : Type 0) ⦃k : Key K⦄ → Table K V
dict_table K V = record {
  Rows = Dict K V;
  no_rows = [];
  find = lookup;
  write = insert;
  scan = λ t. t;
  find-no_rows = lookup-nil;
  find-write = lookup-insert;
  lookup-scan = λ j t. refl;
}
