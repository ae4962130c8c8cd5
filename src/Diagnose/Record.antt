-- ===== src/Diagnose/Record.antt =====
-- diagnose/record.go and diagnose/cleanup.go: the names of diagnosis records, and the records that are
-- removed.
pub mod Laws
mod Tests
use digcore.Base.{
  ℕ, suc, ◌-◌, Bool, true, false, String, Option, none, some, List, [], ◌∷◌, ◌++◌, map, ltb, leb,
  not, ◌&&◌, ◌||◌, ◌==◌, str_eq, if◌then◌else◌, length, drop,
}
use digcore.Base.Int.{ℤ, to_nat}
use digcore.Base.Utf8.{Bytes, literal}
use digcore.Config.Ai.{AiConfig}

-- The bytes that sanitizeTarget keeps: letters, digits, `-` and `_`.
unfoldable pub plain_byte : ℕ → Bool
plain_byte c =
    (leb 97 c && leb c 122)
    || (leb 65 c && leb c 90)
    || (leb 48 c && leb c 57)
    || c == 45
    || c == 95

-- sanitizeTarget
unfoldable pub sanitize_target : Bytes → Bytes
unfolding plain_byte
sanitize_target target = map (λ c. if plain_byte c then c else 95) target

-- The mode of NewDiagnoseRecord.
unfoldable pub mode_of : String → String
mode_of mode = if str_eq mode "" then "alert" else mode

-- The id of NewDiagnoseRecord; `millis` is the clock as `%d` prints it, and `hex` what randHex4 gives.
unfoldable pub record_id : String → String → String → Bytes → Bytes → Bytes
unfolding sanitize_target mode_of
record_id mode plugin target millis hex =
    literal (mode_of mode)
    ++ literal "_"
    ++ literal plugin
    ++ literal "_"
    ++ sanitize_target (literal target)
    ++ literal "_"
    ++ millis
    ++ literal "_"
    ++ hex

-- An entry of the directory; the information on it may be an error, `none`.
pub record Entry : Type 0 where
  pub name : Bytes
  pub is_dir : Bool
  pub info : Option ℕ  -- ModTime

-- fileEntry
pub record FileEntry : Type 0 where
  pub name : Bytes
  pub mod_time : ℕ

unfoldable pub same_bytes : Bytes → Bytes → Bool
same_bytes [] [] = true
same_bytes [] (b ∷ bs) = false
same_bytes (a ∷ rest) [] = false
same_bytes (a ∷ rest) (b ∷ bs) = if a == b then same_bytes rest bs else false

-- strings.HasSuffix(name, ".json")
unfoldable pub is_json : Bytes → Bool
unfolding same_bytes
is_json name = same_bytes (drop (length name - 5) name) (literal ".json")

-- `files = append(files, …)`, unless the information is an error.
unfoldable pub with_info : Bytes → Option ℕ → List FileEntry → List FileEntry
with_info name none files = files
with_info name (some t) files = record { name = name; mod_time = t } ∷ files

-- The first loop of CleanupRecords.
unfoldable pub records_of : List Entry → List FileEntry
unfolding is_json with_info
records_of [] = []
records_of (e ∷ es) =
    let rest = records_of es in
    if e.is_dir || not (is_json e.name) then rest else with_info e.name e.info rest

-- Whether the record at index `i` is to be removed.
unfoldable pub should_remove : AiConfig → ℕ → ℕ → FileEntry → Bool
should_remove c now i f =
    (ltb 0 (to_nat c.diagnose_max_count) && leb (to_nat c.diagnose_max_count) i)
    || (ltb 0 (to_nat c.diagnose_retention) && ltb (to_nat c.diagnose_retention) (now - f.mod_time))

-- The second loop of CleanupRecords from index `i`: the records that os.Remove is called for.
unfoldable pub remove_loop : AiConfig → ℕ → ℕ → List FileEntry → List FileEntry
unfolding should_remove
remove_loop c now i [] = []
remove_loop c now i (f ∷ fs) =
    let rest = remove_loop c now (suc i) fs in if should_remove c now i f then f ∷ rest else rest

-- CleanupRecords: the records that os.Remove is called for, in order, where `sort` is sort.Slice by
-- ModTime, the newest first. A directory that is missing or that cannot be read is `none`.
unfoldable pub cleanup_records :
    (List FileEntry → List FileEntry) → AiConfig → ℕ → Option (List Entry) → List FileEntry
unfolding records_of remove_loop
cleanup_records sort c now none = []
cleanup_records sort c now (some es) = remove_loop c now 0 (sort (records_of es))
