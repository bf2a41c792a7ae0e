-- ===== src/Database/Fields.antt =====
-- source/db.c: the patterns of workload_db_field_index, one after the other.
use workload.Prelude.{
  ℕ, zero, suc, ◌+◌, ◌<◌, ◌≤◌, ◌≡◌, ◌∙◌, ◌⊎◌, ap, sym, subst, refl, arith, Bool, true, false,
  Bool-cases, inl, inr, Option, none, some, List, [], ◌∷◌, get_or, length,
}
use workload.Store.Types.{Bytes}
use workload.Text.Pattern.{check_pattern}
use workload.Text.Path.{word, after_word, skip_one}
use workload.Text.Path.Walk.{words, words-word, shorter}
use workload.Database.{
  Row, State, first_row, or_else, fitting_field, string_of, bar, field_loop, field_index_in,
  db_field_index,
}

-- Whether the pattern fits the name of field `k`. No name counts as an empty one.
abbrev pub fits : (is_case : Bool) → List (Option Bytes) → (pattern : Bytes) → ℕ → Bool
fits is_case names p k = check_pattern p (string_of (get_or names k none)) is_case

abbrev pub IsFirst : (is_case : Bool) → List (Option Bytes) → Bytes → ℕ → Type 0
IsFirst is_case names p i =
    (i < length names)
    × (fits is_case names p i ≡ true)
    × ((k : ℕ) → k < i → fits is_case names p k ≡ false)

abbrev pub FitsNone : (is_case : Bool) → List (Option Bytes) → Bytes → Type 0
FitsNone is_case names p = (k : ℕ) → k < length names → fits is_case names p k ≡ false

-- The index is that of the first field that the first pattern with a field fits, or there is none.
abbrev pub FirstFit : (is_case : Bool) → List (Option Bytes) → List Bytes → Option ℕ → Type 0
FirstFit is_case names [] r = r ≡ none
FirstFit is_case names (p ∷ ps) r =
    ((i : ℕ) × (r ≡ some i) × IsFirst is_case names p i)
    ⊎ (FitsNone is_case names p × FirstFit is_case names ps r)

none_before :
    (P : ℕ → Bool) (n : ℕ)
    → P 0 ≡ false
    → ((k : ℕ) → k < n → P (suc k) ≡ false)
    → (k : ℕ) → k < suc n
    → P k ≡ false
none_before P n first later zero h = first
none_before P n first later (suc k) h = later k (omega arith)

fitting_field-IsFirst :
    (is_case : Bool) (p : Bytes) (n : ℕ) (names : List (Option Bytes))
    → ((i : ℕ) × (fitting_field p is_case n names ≡ some (n + i)) × IsFirst is_case names p i)
      ⊎ ((fitting_field p is_case n names ≡ none) × FitsNone is_case names p)
fitting_field-IsFirst is_case p n [] = inr (refl, λ k h. absurd (omega arith))
fitting_field-IsFirst is_case p n (name ∷ names) =
    elim (Bool-cases (check_pattern p (string_of name) is_case)) [
      | inl here ↦
          let at : n ≡ n + 0 = omega arith in
          inl (0, rw here (ap some at), (omega arith, here, λ k h. absurd (omega arith)))
      | inr other ↦ elim (fitting_field-IsFirst is_case p (suc n) names) [
        | inl (i, found, (inside, fitting, before)) ↦
            let at : suc n + i ≡ n + suc i = omega arith in
            inl (
              suc i,
              rw other (found ∙ ap some at),
              (omega arith, fitting, none_before (fits is_case (name ∷ names) p) i other before),
            )
        | inr (found, before) ↦ inr (
          rw other found,
          none_before (fits is_case (name ∷ names) p) (length names) other before,
        )
      ]
    ]

module _ (is_case : Bool) (names : List (Option Bytes)) where
  either_fit :
      (p : Bytes) (ps : List Bytes) (rest : Option ℕ)
      → FirstFit is_case names ps rest
      → FirstFit is_case names (p ∷ ps) (or_else (fitting_field p is_case 0 names) rest)
  either_fit p ps rest later = elim (fitting_field-IsFirst is_case p 0 names) [
    | inl (i, found, first) ↦
        let at : 0 + i ≡ i = omega arith in
        inl (i, ap (λ o. or_else o rest) (found ∙ ap some at), first)
    | inr (found, nothing) ↦ inr (nothing, rw found later)
  ]

  field_loop-FirstFit :
      (fuel : ℕ) (hint : Bytes)
      → length hint ≤ fuel
      → FirstFit is_case names (words bar hint) (field_loop fuel hint is_case names)
  unfolding field_loop
  field_loop-FirstFit zero [] enough = refl
  field_loop-FirstFit zero (c ∷ cs) enough = absurd (omega arith)
  field_loop-FirstFit (suc fuel) [] enough = refl
  field_loop-FirstFit (suc fuel) (c ∷ cs) enough =
      let left = skip_one (after_word bar (c ∷ cs)) in
      let rest = field_loop fuel left is_case names in
      let later = field_loop-FirstFit fuel left (omega (arith, shorter bar c cs)) in
      let p = word bar (c ∷ cs) in
      subst (λ ps. FirstFit is_case names ps (or_else (fitting_field p is_case 0 names) rest))
        (sym (words-word bar c cs)) (either_fit p (words bar left) rest later)

-- In a result with a row, the index of a field is found by the patterns of the hint between `|`: the
-- first one that fits the name of a field decides, and of the fields that it fits the first is taken,
-- which no field before it fits; -1 says that no pattern fits a name. The loop ends within its fuel.
pub db_field_index-words :
    (s : State) (row : Row) (hint : Bytes) (is_case : Bool)
    → first_row s.node s.context ≡ some row
    → FirstFit is_case row.field_name (words bar hint) (db_field_index s hint is_case)
unfolding db_field_index field_index_in
db_field_index-words s row hint is_case at =
    subst (λ r. FirstFit is_case row.field_name (words bar hint) (field_index_in r hint is_case))
      (sym at) (field_loop-FirstFit is_case row.field_name (length hint) hint (omega arith))
