-- ===== src/Diagnose/Report.antt =====
-- diagnose/report.go, and the bounds on the output of tools in diagnose/executor.go. Texts are bytes.
pub mod Truncate
pub mod Laws
mod Tests
use digcore.Base.{
  ℕ, zero, suc, ◌+◌, ◌-◌, ◌*◌, Bool, true, false, String, List, ◌++◌, leb, ltb, str_eq, not, ◌&&◌,
  if◌then◌else◌, length, take, get_or,
}
use digcore.Base.Int.{ℤ, pos, negsuc, is_nonpos, to_nat}
use digcore.Base.Utf8.{Bytes, rune_start, literal}

-- n <= max, for a number n that is not negative.
abbrev pub fits : ℕ → ℤ → Bool
fits n (pos m) = leb n m
fits n (negsuc m) = false

-- The loop of TruncateUTF8.
unfoldable pub boundary : Bytes → ℕ → ℕ
boundary s zero = 0
boundary s (suc n) =
    let rest = boundary s n in if not (rune_start (get_or s (suc n) 0)) then rest else suc n

-- TruncateUTF8
unfoldable pub truncate_utf8 : Bytes → ℤ → Bytes
unfolding boundary
truncate_utf8 s max_bytes =
    if fits (length s) max_bytes
    then s
    else if is_nonpos max_bytes
    then literal ""
    else take (boundary s (to_nat max_bytes)) s

abbrev pub max_tool_output_bytes : ℕ
max_tool_output_bytes = 32 * 1024

abbrev pub max_record_result_bytes : ℕ
max_record_result_bytes = 64 * 1024

-- TruncateOutput
unfoldable pub truncate_output : Bytes → Bytes
truncate_output s =
    if leb (length s) max_tool_output_bytes
    then s
    else truncate_utf8 s (pos max_tool_output_bytes) ++ literal "\n...[output truncated]"

-- TruncateForRecord
unfoldable pub truncate_for_record : Bytes → Bytes
truncate_for_record s =
    if leb (length s) max_record_result_bytes
    then s
    else truncate_utf8 s (pos max_record_result_bytes) ++ literal "\n...[record truncated]"

abbrev pub max_description_bytes : ℕ
max_description_bytes = 2048

-- What a report shows of its DiagnoseRecord: the results of Format and FilePath are given as texts.
pub record ReportRecord : Type 0 where
  pub id : Bytes
  pub status : Bytes
  pub plugin : Bytes
  pub target : Bytes
  pub created_at : Bytes
  pub duration_ms : ℕ
  pub total_rounds : ℕ
  pub file_path : Bytes

-- formatHeader; `decimal` is `%d`.
unfoldable pub format_header : (ℕ → Bytes) → ReportRecord → String → Bytes
format_header decimal r language =
    (if str_eq language "zh"
      then literal "[*] AI 诊断报告 ["
        ++ r.status
        ++ literal "]\n"
        ++ literal "插件: "
        ++ r.plugin
        ++ literal " | 目标: "
        ++ r.target
        ++ literal "\n"
        ++ literal "诊断时间: "
        ++ r.created_at
        ++ literal " | 耗时: "
        ++ decimal r.duration_ms
        ++ literal "ms | AI轮次: "
        ++ decimal r.total_rounds
        ++ literal "\n"
      else literal "[*] AI Diagnosis Report ["
        ++ r.status
        ++ literal "]\n"
        ++ literal "Plugin: "
        ++ r.plugin
        ++ literal " | Target: "
        ++ r.target
        ++ literal "\n"
        ++ literal "Time: "
        ++ r.created_at
        ++ literal " | Duration: "
        ++ decimal r.duration_ms
        ++ literal "ms | Rounds: "
        ++ decimal r.total_rounds
        ++ literal "\n")
    ++ literal "---\n"

-- formatFooter
unfoldable pub format_footer : ReportRecord → String → Bytes
format_footer r language =
    if str_eq language "zh"
    then literal "\n---\n查看命令: catpaw diagnose show "
      ++ r.id
      ++ literal "\n完整记录: "
      ++ r.file_path
      ++ literal "\n"
    else literal "\n---\nView command: catpaw diagnose show "
      ++ r.id
      ++ literal "\nFull record: "
      ++ r.file_path
      ++ literal "\n"

-- truncSuffixText
unfoldable pub trunc_suffix_text : String → Bytes
trunc_suffix_text language =
    if str_eq language "zh"
    then literal "\n...[诊断报告已截断，完整内容请查看本地记录]"
    else literal "\n...[Report truncated, see local record for full content]"

-- The body of a report within a budget, which is positive.
unfoldable pub fit_body : Bytes → Bytes → ℕ → Bytes
fit_body body suffix budget =
    if leb (length body) budget
    then body
    else if ltb (length suffix) budget
    then truncate_utf8 body (pos (budget - length suffix)) ++ suffix
    else truncate_utf8 body (pos budget)

-- FormatReportDescription, with the header and the footer of the record.
unfoldable pub describe : Bytes → Bytes → Bytes → Bytes → Bytes
unfolding fit_body
describe header footer suffix report =
    let overhead = length header + length footer in
    if leb max_description_bytes overhead
    then truncate_utf8 header (pos max_description_bytes)
    else header ++ fit_body report suffix (max_description_bytes - overhead) ++ footer

unfoldable pub format_report_description : (ℕ → Bytes) → ReportRecord → Bytes → String → Bytes
unfolding describe
format_report_description decimal r report language =
    describe (format_header decimal r language) (format_footer r language)
      (trunc_suffix_text language) report
