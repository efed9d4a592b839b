-- ===== src/Seo/Samples.antt =====
-- Small pages, and the theorems at them.
use socio_seo_agent.Prelude.{◌≤◌, ◌≡◌, refl, true, not, ◌&&◌, List, [], ◌∷◌, any, leb}
use socio_seo_agent.Seo.{
  Code, Severity, warn, Finding, is_error, total_penalty, aggregate, title_length, heading_tree,
}
use socio_seo_agent.Seo.Verdict.{finding, aggregate_passes}

abbrev brief : Code → Severity → Finding
brief code severity = finding code severity "" ""

program : Unit {0}
unfolding aggregate
program = tt

abbrev page : List Finding
page = brief title_length warn ∷ brief heading_tree warn ∷ []

two_warns : aggregate page ≡ (85, true)
unfolding program
two_warns = refl

aggregate_passes_example :
    ((aggregate page).1 ≡ not (any is_error page) && leb (total_penalty page) 31)
    × ((aggregate page).0 ≤ 100)
aggregate_passes_example = aggregate_passes page
