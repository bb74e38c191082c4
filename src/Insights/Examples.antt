-- ===== src/Insights/Examples.antt =====
-- The figures of a small export.
use clerq.Prelude.{ℕ, ◌≡◌, refl, Text, codes, true, false, none, some, [], ◌∷◌}
use clerq.Insights.{minutes, fmt_duration, Data}

abbrev show : ℕ → Text
show n = codes "12"

abbrev figures : Data ℕ
figures = record {
  totals = record {
    dossiers_processed = 12;
    documents_processed = 12;
    nonconformities_detected = 12;
    avg_rt_seconds = none;
    human_validation_rate = some 12;
    corrections_after_generation = 12;
  };
  per_run =
      record {
        id = 12;
        name = some (codes "Plan, \"A\"\nsite");
        policy_name = none;
        created_at = some (codes "2026-01-05T09:00:00Z");
        documents = 12;
        overall_effective = some "pass";
        nonconformities = 12;
        duration_seconds = none;
        reviewed = true;
        finalized = false;
      }
      ∷ [];
}

-- just below two minutes
fmt_duration_test : fmt_duration (some 119500) ≡ minutes 1 60
unfolding fmt_duration
fmt_duration_test = refl
