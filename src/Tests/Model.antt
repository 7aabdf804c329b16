-- ===== src/Tests/Model.antt =====
-- Two variables, updated out of order.
use smart_dashboard.Base.{ℕ, ◌≡◌, refl, String, List, [], ◌∷◌, some}
use smart_dashboard.Base.Eq.{string_IsEq}
use smart_dashboard.Base.Assoc.{lookup, insert}
use smart_dashboard.Model.VariableStore.{
  VariableType, VariableRecord, VariableStore, upsert, merge, reset_sequence_tracking, run,
}
use smart_dashboard.Model.VariableStore.Winner.{Knows, run-winner, upsert-reset}

abbrev number : String → ℕ → ℕ → VariableRecord ℕ
number k v n = record { key = k; type = VariableType.double; value = v; seq = n }

abbrev updates : List (VariableRecord ℕ)
updates = number "a" 10 4 ∷ number "b" 11 1 ∷ number "a" 12 3 ∷ number "a" 13 4 ∷ []

run-winner_example : Knows "a" updates (run [] updates)
run-winner_example = run-winner "a" updates

late_wins : lookup "a" (run [] updates) ≡ some (number "a" 13 4)
unfolding run upsert merge lookup insert
late_wins = refl

abbrev stored : VariableStore ℕ
stored = ("a", number "a" 13 4) ∷ []

stored_a : lookup "a" stored ≡ some (number "a" 13 4)
unfolding lookup
stored_a = refl

upsert-reset_example :
    lookup "a" (upsert (number "a" 1 1) (reset_sequence_tracking stored)).0 ≡ some (number "a" 1 1)
upsert-reset_example = upsert-reset (number "a" 1 1) (number "a" 13 4) stored stored_a
