-- ===== src/Session/History.antt =====
-- StepHistory: pkg/gateway/history.go. Indexes are int, of 64 bits; `show` is the decimal text that
-- fmt.Sprintf gives. The payload of a record stands for its other fields, which are only kept.
pub mod Order
use agent_env.Base.{
  ℕ, zero, suc, ◌+◌, ◌-◌, ◌*◌, ◌%◌, ◌≤◌, ◌<◌, ◌≡◌, ◌≢◌, refl, sym, ap, ap₂, subst, ◌∙◌, Bool, true,
  false, not, ◌&&◌, ◌||◌, if◌then◌else◌, Option, none, some, List, [], ◌∷◌, ◌++◌, map, ◌==◌, get_or,
  select, inl, inr, ◌⊎◌, ◌↔◌, length, arith, Bool-cases, Option-cases, In, All, All-In, eqb, ltb,
  leb, is_some,
}
use agent_env.Base.Text.{Text}
use agent_env.Base.Int.{ℤ, pos, ltb_ℤ, add_int64}

pub record StepRecord : Type 0 where
  pub index : ℤ
  pub snapshot_id : Text
  pub payload : Text

pub record StepHistory : Type 0 where
  pub records : List StepRecord
  pub next_index : ℤ

unfoldable pub new_step_history : StepHistory
new_step_history = record { records = []; next_index = pos 0 }

-- Add: the index that it assigns, and the next history.
unfoldable pub add : (ℤ → Text) → StepRecord → StepHistory → ℤ × StepHistory
unfolding add_int64
add show step h =
    let indexed = record step { index = h.next_index; snapshot_id = show h.next_index } in
    (
      h.next_index,
      record { records = h.records ++ indexed ∷ []; next_index = add_int64 h.next_index (pos 1) },
    )

unfoldable pub at_most : ℤ → StepRecord → Bool
at_most target r = not (ltb_ℤ target r.index)

unfoldable pub get_up_to : ℤ → StepHistory → List StepRecord
unfolding at_most
get_up_to target h = select (at_most target) h.records

unfoldable pub truncate_to : ℤ → StepHistory → StepHistory
unfolding at_most add_int64
truncate_to target h = record {
  records = select (at_most target) h.records;
  next_index = add_int64 target (pos 1);
}
