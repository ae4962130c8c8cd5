-- ===== src/Diagnose/Report/Laws.antt =====
-- The lengths of what diagnose/report.go and TruncateOutput give.
use digcore.Base.{
  ℕ, zero, suc, ◌+◌, ◌-◌, ◌≤◌, ◌<◌, ◌≡◌, refl, true, String, ◌++◌, leb, if◌then◌else◌, length,
  length-append, length-take, get_or, not, arith, Bool-cases, if-branch, inl, inr, ◌⊎◌,
}
use digcore.Base.Int.{pos}
use digcore.Base.Utf8.{Bytes, rune_start, encode, literal}
use digcore.Diagnose.Report.{
  ReportRecord, boundary, truncate_utf8, truncate_output, truncate_for_record, fit_body, describe,
  format_header, format_footer, trunc_suffix_text, format_report_description, max_description_bytes,
  max_tool_output_bytes, max_record_result_bytes,
}

boundary-le : (s : Bytes) (n : ℕ) → boundary s n ≤ n
unfolding boundary
boundary-le s zero = omega arith
boundary-le s (suc n) =
    if-branch (λ k. k ≤ suc n) (not (rune_start (get_or s (suc n) 0)))
      (omega (arith, boundary-le s n)) (omega arith)

-- TruncateUTF8 keeps at most as many bytes as asked for, of any bytes.
pub length-truncate_utf8 : (s : Bytes) (n : ℕ) → length (truncate_utf8 s (pos n)) ≤ n
unfolding truncate_utf8 encode
length-truncate_utf8 s n = ground (arith, boundary-le s n, length-take (boundary s n) s)

length-fit_body : (body suffix : Bytes) (budget : ℕ) → length (fit_body body suffix budget) ≤ budget
unfolding fit_body
length-fit_body body suffix budget = ground (
  arith,
  length-truncate_utf8 body budget,
  length-truncate_utf8 body (budget - length suffix),
  length-append (truncate_utf8 body (pos (budget - length suffix))) suffix,
)

fit_body-short :
    (body suffix : Bytes) (budget : ℕ)
    → leb (length body) budget ≡ true
    → fit_body body suffix budget ≡ body
unfolding fit_body
fit_body-short body suffix budget h = rw h refl

length-framed :
    (header body footer : Bytes)
    → length (header ++ body ++ footer) ≡ length header + length body + length footer
length-framed header body footer =
    omega (arith, length-append (header ++ body) footer, length-append header body)

-- What FormatReportDescription promises of the text for a header, a footer and a report.
abbrev pub IsDescription : Bytes → Bytes → Bytes → Bytes → Type 0
IsDescription header footer report text =
    (length text ≤ max_description_bytes)
    × (((max_description_bytes ≤ length header + length footer)
          × (text ≡ truncate_utf8 header (pos max_description_bytes)))
        ⊎ ((body : Bytes) × (text ≡ header ++ body ++ footer)
            × ((body ≡ report)
                ⊎ (max_description_bytes < length header + length report + length footer))))

describe-IsDescription :
    (header footer suffix report : Bytes)
    → IsDescription header footer report (describe header footer suffix report)
unfolding describe
describe-IsDescription header footer suffix report =
    let overhead = length header + length footer in
    let budget = max_description_bytes - overhead in
    let body = fit_body report suffix budget in
    elim (Bool-cases (leb max_description_bytes overhead)) [
      | inl full ↦
          rw full (length-truncate_utf8 header max_description_bytes, inl (ground arith, refl))
      | inr room ↦ rw room (
        ground (arith, length-framed header body footer, length-fit_body report suffix budget),
        inr (
          body,
          refl,
          elim (Bool-cases (leb (length report) budget)) [
            | inl short ↦ inl (fit_body-short report suffix budget short)
            | inr long ↦ inr (ground arith)
          ],
        ),
      )
    ]

-- Whatever the record, the report and the language, FormatReportDescription gives at most 2048 bytes. If
-- the header and the footer leave no room for a body, they are a part of the header; else they are the
-- header, a body and the footer, where the body is the whole report unless there is no room for it.
pub format_report_description-IsDescription :
    (decimal : ℕ → Bytes) (r : ReportRecord) (report : Bytes) (language : String)
    → IsDescription
        (format_header decimal r language)
        (format_footer r language)
        report
        (format_report_description decimal r report language)
unfolding format_report_description
format_report_description-IsDescription decimal r report language =
    describe-IsDescription (format_header decimal r language) (format_footer r language)
      (trunc_suffix_text language) report

length-marked :
    (s : Bytes) (limit : ℕ) (mark : Bytes)
    → ((limit < length s)
        ⊎ ((if leb (length s) limit then s else truncate_utf8 s (pos limit) ++ mark) ≡ s))
      × (length (if leb (length s) limit then s else truncate_utf8 s (pos limit) ++ mark)
          ≤ limit + length mark)
length-marked s limit mark = elim (Bool-cases (leb (length s) limit)) [
  | inl short ↦ rw short (inr refl, ground arith)
  | inr long ↦ rw long (
    inl (ground arith),
    omega (arith, length-truncate_utf8 s limit, length-append (truncate_utf8 s (pos limit)) mark),
  )
]

marks :
    (length (literal "\n...[output truncated]") ≡ 22)
    × (length (literal "\n...[record truncated]") ≡ 22)
unfolding encode
marks = (refl, refl)

-- TruncateOutput and TruncateForRecord change no output of at most 32 or 64 KB, and give at most 22
-- bytes more than that.
pub length-truncate_output :
    (s : Bytes)
    → ((max_tool_output_bytes < length s) ⊎ (truncate_output s ≡ s))
      × (length (truncate_output s) ≤ max_tool_output_bytes + 22)
      × ((max_record_result_bytes < length s) ⊎ (truncate_for_record s ≡ s))
      × (length (truncate_for_record s) ≤ max_record_result_bytes + 22)
unfolding truncate_output truncate_for_record
length-truncate_output s =
    let out = length-marked s max_tool_output_bytes (literal "\n...[output truncated]") in
    let rec = length-marked s max_record_result_bytes (literal "\n...[record truncated]") in
    (out.0, omega (arith, out.1, marks.0), rec.0, omega (arith, rec.1, marks.1))
