-- ===== src/Export/Examples.antt =====
-- A report that is exported, on which the theorems about the exports are applied.
use clerq.Prelude.{◌≡◌, refl, All, codes, List, [], ◌∷◌, none, some, Text}
use clerq.Export.{csv_escape, escape_html, base_filename, export_csv, report_rows}
use clerq.Export.Reader.{read_csv}
use clerq.Export.CsvRead.{read_csv-export_csv}
use clerq.Export.Html.{IsInert, html_text, escape_html_lem}
use clerq.Export.Filename.{IsFilename, base_filename-IsFilename}
use clerq.Report.Examples.{run, output}

export_tests :
    (csv_escape (codes "a,\"b\"") ≡ codes "\"a,\"\"b\"\"\"")
    × (escape_html (codes "<b>&") ≡ codes "&lt;b&gt;&amp;")
    × (base_filename run (some output) ≡ codes "2024-05-06-ACME_May-Invoices")
unfolding csv_escape escape_html base_filename
export_tests = (refl, refl, refl)

abbrev row : List Text
row = codes "a,\"b\"" ∷ codes "two\nlines" ∷ []

read_csv-export_csv_example :
    read_csv (export_csv codes run (some output))
    ≡ some (report_rows codes run.review (some output))
read_csv-export_csv_example = read_csv-export_csv codes run (some output)

escape_html_lem_example :
    All IsInert (escape_html (codes "<b>\"it's\" & more</b>"))
    × (html_text none (escape_html (codes "<b>\"it's\" & more</b>"))
        ≡ some (codes "<b>\"it's\" & more</b>"))
escape_html_lem_example = escape_html_lem (codes "<b>\"it's\" & more</b>")

base_filename-IsFilename_example : IsFilename (base_filename run (some output))
base_filename-IsFilename_example = base_filename-IsFilename run (some output)
