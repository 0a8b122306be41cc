-- ===== src/Storage/Dashboard/Tests.antt =====
-- The dashboard and the directory of a small production.
use costume_tree.Common.{◌≡◌, Bool, true, List, ok, Text, text, All}
use costume_tree.Storage.Dashboard
use costume_tree.Storage.Dashboard.{Average, ProductionKpis, ActorSummary, ProductionDirectoryEntry}
use costume_tree.Storage.Dashboard.Totals.{IsSumOf, production_kpis-IsSumOf}
use costume_tree.Storage.Dashboard.Directory.{
  AgreesWithDashboard, production_directory-AgreesWithDashboard,
}
use costume_tree.Storage.Tests.{with_hat}

abbrev some_percent : Average → Text
some_percent a = text "0%"

abbrev any_order : Text → Text → Bool
any_order s t = true

production_kpis-IsSumOf_example :
    (k : ProductionKpis) × (rows : List ActorSummary) × (Dashboard.production_kpis 1 with_hat
      ≡ ok (k, with_hat))
    × (Dashboard.actor_summaries some_percent any_order any_order 1 with_hat ≡ ok (rows, with_hat))
    × IsSumOf k rows
production_kpis-IsSumOf_example =
    production_kpis-IsSumOf some_percent any_order any_order 1 with_hat

production_directory-AgreesWithDashboard_example :
    (entries : List ProductionDirectoryEntry) × (Dashboard.production_directory any_order any_order
        with_hat
      ≡ ok (entries, with_hat))
    × All (AgreesWithDashboard some_percent any_order any_order with_hat) entries
production_directory-AgreesWithDashboard_example =
    production_directory-AgreesWithDashboard some_percent any_order any_order with_hat (tt, tt)
