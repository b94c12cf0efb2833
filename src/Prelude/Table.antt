-- ===== src/Prelude/Table.antt =====
-- A table of SQLite with a text primary key: its rows in the order of the key, and the dictionary that
-- a comprehension over them builds.
use Prim.Native.String
use Prim.Native.String.{String}
use mathlib.Core.List.{List, [], ◌∷◌}
use mathlib.Core.Logic.{inl, inr}
use mathlib.Core.Option.{Option, none, some}
use mathlib.Core.Path.{◌≡◌, refl, ap, ◌∙◌}
use native.Mathlib.Omega.{arith}
use text.Mathlib.Text.{◌==◌, is_le}
use text.Mathlib.TextEquality.{eq_iff}
use agentic_rtlto_gds_design.Prelude.Dict.{Dict, lookup, insert, values, lookup-insert}
use agentic_rtlto_gds_design.Prelude.Result.{Result, ok, Check, ◌>>◌}
use agentic_rtlto_gds_design.Prelude.Tests.{if◌then◌else◌, Bool-cases}

module _ {ℓ} {V : Type ℓ} where
  -- A row put before the first one with a greater key.
  unfoldable pub insert_row : String → V → Dict V → Dict V
  insert_row k v [] = (k, v) ∷ []
  insert_row k v ((j, w) ∷ d) =
      if is_le (String.compare k j) then (k, v) ∷ (j, w) ∷ d else (j, w) ∷ insert_row k v d

  -- `SELECT … ORDER BY key`
  unfoldable pub order_by_key : Dict V → Dict V
  order_by_key [] = []
  order_by_key ((k, v) ∷ d) = insert_row k v (order_by_key d)

  -- `{key(v): v for v in rows}`, where each value is checked first.
  unfoldable pub load : (V → Check) → (V → String) → List V → Dict V → Result (Dict V)
  load check key [] found = ok found
  load check key (v ∷ rows) found = check v >> load check key rows (insert (key v) v found)

  -- No key stands twice.
  abbrev pub HasPrimaryKey : Dict V → Type ℓ
  HasPrimaryKey [] = Unit
  HasPrimaryKey ((k, v) ∷ d) = (lookup k d ≡ none) × HasPrimaryKey d

  -- Every row holds a checked value under the value's own key.
  abbrev pub HasRows : (V → Check) → (V → String) → Dict V → Type ℓ
  HasRows check key [] = Unit
  HasRows check key ((k, v) ∷ d) = (key v ≡ k) × (check v ≡ ok tt) × HasRows check key d

  pub insert-HasPrimaryKey :
      (k : String) (v : V) (d : Dict V) → HasPrimaryKey d → HasPrimaryKey (insert k v d)
  unfolding insert lookup
  insert-HasPrimaryKey k v [] h = (refl, tt)
  insert-HasPrimaryKey k v ((j, w) ∷ d) h = elim (Bool-cases (j == k)) [
    | inl e ↦ ground (arith, eq_iff j k)
    | inr n ↦
        ground (arith, lookup-insert k j v d, eq_iff k j, eq_iff j k, insert-HasPrimaryKey k v d)
  ]

  pub insert-HasRows :
      (check : V → Check) (key : V → String) (v : V) (d : Dict V)
      → check v ≡ ok tt
      → HasRows check key d
      → HasRows check key (insert (key v) v d)
  unfolding insert
  insert-HasRows check key v [] e h = (refl, e, tt)
  insert-HasRows check key v ((j, w) ∷ d) e h = elim (Bool-cases (j == key v)) [
    | inl same ↦ rw same (refl, e, h.2)
    | inr other ↦ rw other (h.0, h.1, insert-HasRows check key v d e h.2)
  ]

  lookup-insert_row :
      (k j : String) (v : V) (d : Dict V)
      → lookup k d ≡ none
      → lookup j (insert_row k v d) ≡ (if k == j then some v else lookup j d)
  unfolding lookup insert_row
  lookup-insert_row k j v [] h = refl
  lookup-insert_row k j v ((i, w) ∷ d) h =
      ground (arith, eq_iff k j, eq_iff i k, eq_iff i j, lookup-insert_row k j v d)

  insert_row-HasPrimaryKey :
      (k : String) (v : V) (d : Dict V)
      → lookup k d ≡ none
      → HasPrimaryKey d
      → HasPrimaryKey (insert_row k v d)
  unfolding insert_row lookup
  insert_row-HasPrimaryKey k v [] e h = (refl, tt)
  insert_row-HasPrimaryKey k v ((j, w) ∷ d) e h =
      ground
        (arith, eq_iff k j, eq_iff j k, lookup-insert_row k j v d, insert_row-HasPrimaryKey k v d)

  insert_row-HasRows :
      (check : V → Check) (key : V → String) (k : String) (v : V) (d : Dict V)
      → key v ≡ k
      → check v ≡ ok tt
      → HasRows check key d
      → HasRows check key (insert_row k v d)
  unfolding insert_row
  insert_row-HasRows check key k v [] own e h = (own, e, tt)
  insert_row-HasRows check key k v ((j, w) ∷ d) own e h =
      ground (arith, insert_row-HasRows check key k v d own e)

  -- The order of the rows does not matter to a lookup.
  pub lookup-order_by_key :
      (j : String) (d : Dict V) → HasPrimaryKey d → lookup j (order_by_key d) ≡ lookup j d
  unfolding order_by_key lookup
  lookup-order_by_key j [] h = refl
  lookup-order_by_key j ((k, v) ∷ d) h =
      lookup-insert_row k j v (order_by_key d) (lookup-order_by_key k d h.1 ∙ h.0)
      ∙ ap (λ o. if k == j then some v else o) (lookup-order_by_key j d h.1)

  pub order_by_key-HasPrimaryKey : (d : Dict V) → HasPrimaryKey d → HasPrimaryKey (order_by_key d)
  unfolding order_by_key
  order_by_key-HasPrimaryKey [] h = tt
  order_by_key-HasPrimaryKey ((k, v) ∷ d) h =
      insert_row-HasPrimaryKey k v (order_by_key d) (lookup-order_by_key k d h.1 ∙ h.0)
        (order_by_key-HasPrimaryKey d h.1)

  pub order_by_key-HasRows :
      (check : V → Check) (key : V → String) (d : Dict V)
      → HasRows check key d
      → HasRows check key (order_by_key d)
  unfolding order_by_key
  order_by_key-HasRows check key [] h = tt
  order_by_key-HasRows check key ((k, v) ∷ d) h =
      insert_row-HasRows check key k v (order_by_key d) h.0 h.1
        (order_by_key-HasRows check key d h.2)

  -- The first that is there.
  abbrev or_else : Option V → Option V → Option V
  or_else none b = b
  or_else (some v) b = some v

  load_into :
      (check : V → Check) (key : V → String) (rows found : Dict V)
      → HasPrimaryKey rows
      → HasRows check key rows
      → (d : Dict V) × (load check key (values rows) found ≡ ok d)
        × ((j : String) → lookup j d ≡ or_else (lookup j rows) (lookup j found))
  unfolding load lookup
  load_into check key [] found p h = (found, refl, λ j. refl)
  load_into check key ((k, v) ∷ rows) found p h =
      let (d, e, same) = load_into check key rows (insert (key v) v found) p.1 h.2 in
      (d, ground arith, λ j. ground (arith, same j, lookup-insert (key v) j v found, eq_iff k j))

  -- A table whose rows are checked loads, into a dictionary with the same entries.
  pub load_lem :
      (check : V → Check) (key : V → String) (rows : Dict V)
      → HasPrimaryKey rows
      → HasRows check key rows
      → (d : Dict V) × (load check key (values (order_by_key rows)) [] ≡ ok d)
        × ((j : String) → lookup j d ≡ lookup j rows)
  unfolding lookup
  load_lem check key rows p h =
      let (d, e, same) =
        load_into check key (order_by_key rows) [] (order_by_key-HasPrimaryKey rows p)
          (order_by_key-HasRows check key rows h) in
      (d, e, λ j. ground (arith, same j, lookup-order_by_key j rows p))
