-- ===== src/Tests/Nodecheck.antt =====
-- A node that answers everywhere, a fast one that answers at one of three targets, and a silent one.
use tenebra.Prelude.{ℕ, none, some, List, [], ◌∷◌, Text, codes, pos, ◌≡◌, refl, text_eq}
use tenebra.Prelude.Sort.{sort_stable}
use tenebra.Nodecheck.{
  TargetResult, NodeResult, stage_ok, stage_probe, is_ok, usable, less, rank, best,
}
use tenebra.Nodecheck.Choice.{IsBest, best-IsBest}

abbrev answer : Text → ℕ → TargetResult
answer stage ms = record { target = codes "u"; stage = stage; rtt_ms = pos ms }

abbrev steady : NodeResult
steady = record {
  node_id = codes "s";
  targets = answer stage_ok 90 ∷ answer stage_ok 80 ∷ answer stage_ok 70 ∷ [];
}

abbrev lucky : NodeResult
lucky = record {
  node_id = codes "l";
  targets = answer stage_ok 5 ∷ answer stage_probe 0 ∷ answer stage_probe 0 ∷ [];
}

abbrev silent : NodeResult
silent = record { node_id = codes "q"; targets = [] }

abbrev checked : List NodeResult
checked = lucky ∷ steady ∷ silent ∷ []

steady_taken : best checked (codes "l") ≡ some steady
unfolding best rank sort_stable less usable is_ok text_eq
steady_taken = refl

best-IsBest_example : IsBest checked steady
best-IsBest_example = best-IsBest checked (codes "l") steady steady_taken

none_usable : best (lucky ∷ silent ∷ []) (codes "l") ≡ none
unfolding best rank sort_stable less usable is_ok text_eq
none_usable = refl
