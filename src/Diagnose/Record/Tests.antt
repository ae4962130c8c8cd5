-- ===== src/Diagnose/Record/Tests.antt =====
-- The clean-up of a small directory, with a sort by insertion.
use digcore.Base.{
  ℕ, ◌≤◌, ◌≡◌, refl, true, false, some, List, [], ◌∷◌, All, Bool-cases, inl, inr, leb, leb→le,
  leb_false→lt, if◌then◌else◌, if-branch, arith,
}
use digcore.Base.Int.{pos}
use digcore.Base.Utf8.{literal, encode}
use digcore.Config.Ai.{AiConfig}
use digcore.Diagnose.Record.{
  Entry, FileEntry, sanitize_target, record_id, records_of, cleanup_records,
}
use digcore.Diagnose.Record.Laws.{Newest, IsCut, cleanup_records-IsCut}

abbrev insert : FileEntry → List FileEntry → List FileEntry
insert f [] = f ∷ []
insert f (g ∷ gs) = if leb g.mod_time f.mod_time then f ∷ g ∷ gs else g ∷ insert f gs

abbrev sort_files : List FileEntry → List FileEntry
sort_files [] = []
sort_files (f ∷ fs) = insert f (sort_files fs)

abbrev NotNewer : ℕ → List FileEntry → Type 0
NotNewer t fs = All (λ g. g.mod_time ≤ t) fs

NotNewer-insert :
    (t : ℕ) (f : FileEntry) (fs : List FileEntry)
    → f.mod_time ≤ t
    → NotNewer t fs
    → NotNewer t (insert f fs)
NotNewer-insert t f [] le h = (le, tt)
NotNewer-insert t f (g ∷ gs) le (l, h) =
    if-branch (NotNewer t) (leb g.mod_time f.mod_time) (le, (l, h)) (l, NotNewer-insert t f gs le h)

NotNewer-trans : (s t : ℕ) (fs : List FileEntry) → s ≤ t → NotNewer s fs → NotNewer t fs
NotNewer-trans s t [] le h = tt
NotNewer-trans s t (g ∷ gs) le (l, h) = (omega arith, NotNewer-trans s t gs le h)

insert-Newest : (f : FileEntry) (fs : List FileEntry) → Newest fs → Newest (insert f fs)
insert-Newest f [] n = (tt, tt)
insert-Newest f (g ∷ gs) (h, n) = elim (Bool-cases (leb g.mod_time f.mod_time)) [
  | inl e ↦
      let le = leb→le g.mod_time f.mod_time e in
      rw e ((le, NotNewer-trans g.mod_time f.mod_time gs le h), (h, n))
  | inr e ↦
      let lt = leb_false→lt g.mod_time f.mod_time e in
      rw e (NotNewer-insert g.mod_time f gs (omega arith) h, insert-Newest f gs n)
]

sort_files-Newest : (fs : List FileEntry) → Newest (sort_files fs)
sort_files-Newest [] = tt
sort_files-Newest (f ∷ fs) = insert-Newest f (sort_files fs) (sort_files-Newest fs)

abbrev file : List ℕ → ℕ → Entry
file name t = record { name = name; is_dir = false; info = some t }

abbrev directory : List Entry
directory =
    file (literal "a.json") 10
    ∷ file (literal "b.json") 90
    ∷ file (literal "notes.txt") 1
    ∷ record { name = literal "old.json"; is_dir = true; info = some 1 }
    ∷ file (literal "c.json") 80
    ∷ file (literal "d.json") 70
    ∷ []

abbrev limits : ℕ → ℕ → AiConfig
limits count age = record {
  enabled = true;
  model_priority = [];
  models = [];
  gateway = record {
    enabled = false;
    base_url = "";
    agent_token = "";
    request_timeout = pos 0;
    max_retries = pos 0;
    fallback_to_direct = false;
  };
  max_rounds = pos 0;
  request_timeout = pos 0;
  max_retries = pos 0;
  retry_backoff = pos 0;
  max_concurrent_diagnoses = pos 0;
  queue_full_policy = "";
  daily_token_limit = pos 0;
  tool_timeout = pos 0;
  aggregate_window = pos 0;
  diagnose_retention = pos age;
  diagnose_max_count = pos count;
  language = "";
}

abbrev entry : List ℕ → ℕ → FileEntry
entry name t = record { name = name; mod_time = t }

by_count :
    cleanup_records sort_files (limits 3 0) 100 (some directory) ≡ entry (literal "a.json") 10 ∷ []
unfolding cleanup_records encode
by_count = refl

by_age :
    cleanup_records sort_files (limits 0 25) 100 (some directory)
    ≡ entry (literal "d.json") 70 ∷ entry (literal "a.json") 10 ∷ []
unfolding cleanup_records encode
by_age = refl

named :
    record_id "" "disk" "/var/log" (literal "17") (literal "00ff")
    ≡ literal "alert_disk__var_log_17_00ff"
unfolding record_id encode
named = refl

cleanup_records-IsCut_example :
    (k : ℕ) × IsCut
      (limits 3 25)
      100
      0
      (sort_files (records_of directory))
      (cleanup_records sort_files (limits 3 25) 100 (some directory))
      k
cleanup_records-IsCut_example =
    cleanup_records-IsCut sort_files (limits 3 25) 100 directory sort_files-Newest

sanitized : sanitize_target (literal "/Var-1") ≡ literal "_Var-1"
unfolding sanitize_target encode
sanitized = refl
