-- ===== src/Storage/Reports/Tests.antt =====
-- The reports of a small production.
use costume_tree.Common.{
  ◌+◌, ◌≡◌, refl, Bool, true, List, [], ◌∷◌, map, ok, Text, text, text_eq, is_empty, trim_space,
  sql_trim, sort_by, All,
}
use costume_tree.Storage.Models.{
  status_find, status_make, status_fit, status_alterations, status_complete,
}
use costume_tree.Storage.ItemTypeSummary
use costume_tree.Storage.ItemTypeSummary.{ItemTypeSummary}
use costume_tree.Storage.ItemTypeSummary.Totals.{IsKnown}
use costume_tree.Storage.Reports
use costume_tree.Storage.Reports.{ReportFilter, FilteredReport}
use costume_tree.Storage.Reports.Counts.{
  of_summary, generate-eq-summary, total_of, total_of-statuses,
}
use costume_tree.Storage.Tests.{same_case, with_hat}

abbrev any_order : Text → Text → Bool
any_order s t = true

abbrev any_status : ReportFilter
any_status = record { production_id = 1; status = text " " }

abbrev hats : FilteredReport
hats = record {
  categories = record { item_type_id = 1; item_type_name = text "Hat"; count = 1 } ∷ [];
  accessories = [];
}

generate-hats : Reports.generate any_order same_case any_status with_hat ≡ ok (hats, with_hat)
unfolding Reports.generate is_empty trim_space sql_trim sort_by text_eq
generate-hats = refl

blank : is_empty (trim_space (text " ")) ≡ true
unfolding is_empty trim_space
blank = refl

generate-eq-summary_example :
    (rows : List ItemTypeSummary) × (ItemTypeSummary.list any_order 1 with_hat
      ≡ ok (rows, with_hat))
    × (hats.categories ≡ map of_summary rows)
generate-eq-summary_example =
    generate-eq-summary any_order same_case any_status with_hat with_hat hats blank generate-hats

statuses-IsKnown : All IsKnown with_hat.items
unfolding text_eq is_empty
statuses-IsKnown = (refl, tt)

total_of-statuses_example :
    total_of any_order same_case 1 status_find with_hat
      + total_of any_order same_case 1 status_make with_hat
      + total_of any_order same_case 1 status_fit with_hat
      + total_of any_order same_case 1 status_alterations with_hat
      + total_of any_order same_case 1 status_complete with_hat
    ≡ total_of any_order same_case 1 [] with_hat
total_of-statuses_example = total_of-statuses any_order same_case 1 with_hat statuses-IsKnown
