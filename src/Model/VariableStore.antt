-- ===== src/Model/VariableStore.antt =====
-- SmartDashboard/src/model/variable_store.cpp. A value is a `QVariant`, which the code only copies:
-- its type is a parameter. The `unordered_map` is an association list.
pub mod Winner
use smart_dashboard.Base.{ℕ, String, List, [], ◌∷◌, Option, none, some, leb, if◌then◌else◌}
use smart_dashboard.Base.Eq.{string_IsEq}
use smart_dashboard.Base.Assoc.{lookup, insert}

-- `sd::widgets::VariableType`
pub data VariableType : Type 0 where
  bool double string : VariableType

pub record VariableRecord (V : Type 0) : Type 0 where
  pub key : String
  pub type : VariableType
  pub value : V
  pub seq : ℕ

abbrev pub VariableStore : Type 0 → Type 0
VariableStore V = List (String × VariableRecord V)

module _ {V : Type 0} where
  -- The record that is stored for the key afterwards: an older sequence number changes nothing.
  unfoldable pub merge : Option (VariableRecord V) → VariableRecord V → VariableRecord V
  merge none u = u
  merge (some old) u =
      if leb old.seq u.seq then record old { type = u.type; value = u.value; seq = u.seq } else old

  -- The arguments of `Upsert` are the fields of `u`.
  unfoldable pub upsert : VariableRecord V → VariableStore V → VariableStore V × VariableRecord V
  upsert u s = let stored = merge (lookup u.key s) u in (insert u.key stored s, stored)

  unfoldable pub reset_sequence_tracking : VariableStore V → VariableStore V
  reset_sequence_tracking [] = []
  reset_sequence_tracking ((k, r) ∷ s) = (k, record r { seq = 0 }) ∷ reset_sequence_tracking s

  unfoldable pub clear : VariableStore V → VariableStore V
  clear s = []

  unfoldable pub run : VariableStore V → List (VariableRecord V) → VariableStore V
  run s [] = s
  run s (u ∷ us) = run (upsert u s).0 us
