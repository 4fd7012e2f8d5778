-- ===== src/FileChecks/Threading.antt =====
-- CheckPosixThreading (build_support/cpplint.py) and its table.
use falcon_link.Prelude.{ℕ, Option, none, some, List, [], ◌∷◌, ◌++◌, codes, Text, get_elem?}
use Prim.Native.String.{String}
use falcon_link.Regex.{Regex, one, one_of, none_of, word, star, plus, space, ◌▸◌, ◌∣◌, search_in}
use falcon_link.Report.{Report, report}
use falcon_link.CleansedLines.{CleansedLines}

-- _UNSAFE_FUNC_PREFIX: (?:[-+*/=%^&|(<]\s*|>\s+)
pub unsafe_func_prefix : Regex
unfolding one_of
unsafe_func_prefix = one_of "-+*/=%^&|(<" ▸ star space ∣ one b'>' ▸ plus space

-- single_thread_func, multithread_safe_func, pattern
pub record Threading : Type 0 where
  pub single_thread_func : Text
  pub multithread_safe_func : Text
  pub pattern_of : Regex

-- A call with arguments: the name, [^)]+ and a parenthesis.
pub call_with : String → Regex
unfolding unsafe_func_prefix word none_of
call_with name = unsafe_func_prefix ▸ word name ▸ plus (none_of ")") ▸ one b')'

-- A call without: the name with both parentheses.
pub call_without : String → Regex
unfolding unsafe_func_prefix word
call_without name = unsafe_func_prefix ▸ word name

abbrev pub threading : String → String → Regex → Threading
threading single multi r = record {
  single_thread_func = codes single;
  multithread_safe_func = codes multi;
  pattern_of = r;
}

-- _THREADING_LIST
unfoldable pub threading_list : List Threading
unfolding call_with call_without
threading_list =
    threading "asctime(" "asctime_r(" (call_with "asctime(")
    ∷ threading "ctime(" "ctime_r(" (call_with "ctime(")
    ∷ threading "getgrgid(" "getgrgid_r(" (call_with "getgrgid(")
    ∷ threading "getgrnam(" "getgrnam_r(" (call_with "getgrnam(")
    ∷ threading "getlogin(" "getlogin_r(" (call_without "getlogin()")
    ∷ threading "getpwnam(" "getpwnam_r(" (call_with "getpwnam(")
    ∷ threading "getpwuid(" "getpwuid_r(" (call_with "getpwuid(")
    ∷ threading "gmtime(" "gmtime_r(" (call_with "gmtime(")
    ∷ threading "localtime(" "localtime_r(" (call_with "localtime(")
    ∷ threading "rand(" "rand_r(" (call_without "rand()")
    ∷ threading "strtok(" "strtok_r(" (call_with "strtok(")
    ∷ threading "ttyname(" "ttyname_r(" (call_with "ttyname(")
    ∷ []

-- The loop over the table.
unfoldable pub threading_reports : Text → ℕ → Text → List Threading → List Report
unfolding search_in
threading_reports filename linenum line [] = []
threading_reports filename linenum line (t ∷ ts) = elim (search_in t.pattern_of line) [
  | none ↦ threading_reports filename linenum line ts
  | some _ ↦
      report filename linenum "runtime/threadsafe_fn" 2 (
        codes "Consider using "
        ++ (t.multithread_safe_func
            ++ (codes "...) instead of "
                ++ (t.single_thread_func ++ codes "...) for improved thread safety."))))
      ∷ threading_reports filename linenum line ts
]

-- CheckPosixThreading
unfoldable pub check_posix_threading : Text → CleansedLines → ℕ → Option (List Report)
unfolding threading_list threading_reports
check_posix_threading filename clean_lines linenum = elim (get_elem? clean_lines.elided linenum) [
  | none ↦ none
  | some line ↦ some (threading_reports filename linenum line threading_list)
]
