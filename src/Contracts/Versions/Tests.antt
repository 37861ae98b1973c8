-- ===== src/Contracts/Versions/Tests.antt =====
-- Runs of the version comparison, and instances of its theorems.
use web_inspector.Prelude.{Ordering, [], none, refl, some, ◌↔◌, ◌∷◌, ◌≡◌, option_eq}
use web_inspector.Contracts.Versions.{
  Versions, compare_from, compare_segments, compare_versions, segment, segments, update_plan,
  version_of,
}
use web_inspector.Contracts.Versions.Compare.{Decides, compare_versions-Decides}

reads_runs : segments (some "v3.10-rc2") ≡ 3 ∷ 10 ∷ 2 ∷ []
unfolding segments
reads_runs = refl

newer_minor : compare_versions (some "3.10") (some "3.9.9") ≡ Ordering.gt
unfolding compare_versions compare_segments compare_from segments segment
newer_minor = refl

missing_is_older : compare_versions none (some "1") ≡ Ordering.lt
unfolding compare_versions compare_segments compare_from segments segment
missing_is_older = refl

abbrev desired_versions : Versions
desired_versions = ("agentVersion", some "3.1.0") ∷ ("contractsVersion", some "3.0.1") ∷ []

abbrev actual_versions : Versions
actual_versions = ("agentVersion", some "3.0.9") ∷ ("contractsVersion", some "3.0.0") ∷ []

plans_both :
    (update_plan actual_versions desired_versions).fields ≡ "agentVersion" ∷ "contractsVersion" ∷ []
unfolding update_plan version_of compare_versions compare_segments compare_from segments segment
plans_both = refl

compare_versions-Decides_example :
    (compare_versions (some "3.10") (some "3.9.9") ≡ Ordering.gt)
    ↔ Decides Ordering.gt (segments (some "3.10")) (segments (some "3.9.9"))
unfolding segments
compare_versions-Decides_example =
    compare_versions-Decides (some "3.10") (some "3.9.9") Ordering.gt (λ e. cc) (λ e. cc)
