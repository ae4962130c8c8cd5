-- ===== src/Diagnose/Report/Tests.antt =====
-- Runs of the functions of diagnose/report.go.
use digcore.Base.{ℕ, ◌≤◌, ◌≡◌, refl, List, [], ◌∷◌, ◌++◌, length}
use digcore.Base.Int.{pos}
use digcore.Base.Utf8.{Bytes, encode, codes, literal}
use digcore.Diagnose.Report.{
  ReportRecord, truncate_utf8, format_report_description, format_header, format_footer,
}
use digcore.Diagnose.Report.Truncate.{truncate_utf8-encode, TooLong}
use digcore.Diagnose.Report.Laws.{format_report_description-IsDescription, IsDescription}

-- Four bytes have room for one of the characters of three bytes.
four_bytes : truncate_utf8 (literal "报告") (pos 4) ≡ literal "报"
unfolding truncate_utf8 encode
four_bytes = refl

abbrev digits : ℕ → Bytes
digits n = n ∷ []

abbrev record_one : ReportRecord
record_one = record {
  id = literal "alert_cpu_1";
  status = literal "success";
  plugin = literal "cpu";
  target = literal "host";
  created_at = literal "2026-01-01 00:00:00";
  duration_ms = 52;
  total_rounds = 50;
  file_path = literal "/s/alert_cpu_1.json";
}

short_report :
    format_report_description digits record_one (literal "all is well") "en"
    ≡ format_header digits record_one "en" ++ literal "all is well" ++ format_footer record_one "en"
unfolding format_report_description format_header format_footer encode
short_report = refl

truncate_utf8-encode_example :
    (ds es : List ℕ) × (codes "报告" ≡ ds ++ es)
    × (truncate_utf8 (encode (codes "报告")) (pos 4) ≡ encode ds)
    × (length (encode ds) ≤ 4)
    × TooLong 4 (length (encode ds)) es
truncate_utf8-encode_example = truncate_utf8-encode (codes "报告") 4

format_report_description-IsDescription_example :
    IsDescription
      (format_header digits record_one "zh")
      (format_footer record_one "zh")
      (literal "all is well")
      (format_report_description digits record_one (literal "all is well") "zh")
format_report_description-IsDescription_example =
    format_report_description-IsDescription digits record_one (literal "all is well") "zh"
