-- ===== src/Runners.antt =====
-- internal/runner/runner.go and cliConfigs of internal/runner/cli.go: the runners that this process can
-- execute. The environment is a function from the variables that the code reads; `duration` is
-- time.ParseDuration in nanoseconds, `none` for an error or a time that is not positive, and `scanned`
-- is fmt.Sscanf with %d in the same way.
pub mod Words
pub mod Escaping
use workforce_platform.Base.{
  ℕ, suc, ◌+◌, ◌-◌, ◌*◌, Bool, true, false, not, ◌&&◌, ◌||◌, Option, none, some, List, [], ◌∷◌,
  ◌++◌, map, ◌==◌, ltb, if◌then◌else◌,
}
use workforce_platform.Base.Rows.{find_where, exists_where}
use workforce_platform.Strings.{Str, is_empty, same, trim_space}
use workforce_platform.Runners.Words.{split_list, split_words}
use workforce_platform.Errors.{Error, Result, ok, err, unknown_runner}

-- The variables WORKFORCE_RUNNER_CLI_IDS and WORKFORCE_RUNNER_CLI_<key>_COMMAND, ..._ENV, ..._PATH,
-- ..._TIMEOUT and ..._MAXOUTPUT.
pub data Variable : Type 0 where
  ids : Variable
  command_of env_of path_of timeout_of max_output_of : Str → Variable

-- The configuration of a harness on the command line; the time is in nanoseconds.
pub record CliRunner : Type 0 where
  pub id : Str
  pub command : List Str
  pub timeout : ℕ
  pub max_output : ℕ
  pub env_allow : List Str
  pub path_list : Str

-- strings.ToUpper of the identifier with "_" for "-"; of letters outside ASCII the case is kept.
unfoldable pub key_of : Str → Str
key_of [] = []
key_of (c ∷ cs) =
    (if c == b'-' then b'_' else if ltb 96 c && ltb c 123 then c - 32 else c) ∷ key_of cs

abbrev pub second : ℕ
second = 1000000000

abbrev pub default_timeout : ℕ
default_timeout = 120 * second

abbrev pub max_timeout : ℕ
max_timeout = 600 * second

abbrev pub or_default : ℕ → Option ℕ → ℕ
or_default n none = n
or_default n (some m) = m

abbrev pub bounded_timeout : Option ℕ → ℕ
bounded_timeout none = default_timeout
bounded_timeout (some d) = if ltb max_timeout d then max_timeout else d

module _ (getenv : Variable → Str) (duration scanned : Str → Option ℕ) (default_path : Str) where
  abbrev pub configured : Str → List Str → CliRunner
  configured id words =
      let key = key_of id in
      record {
        id = id;
        command = words;
        timeout = bounded_timeout (
            if is_empty (getenv (timeout_of key))
            then none
            else duration (getenv (timeout_of key)));
        max_output = or_default 1048576 (
            if is_empty (getenv (max_output_of key))
            then none
            else scanned (trim_space (getenv (max_output_of key))));
        env_allow = split_list (getenv (env_of key));
        path_list = if is_empty (getenv (path_of key)) then default_path else getenv (path_of key);
      }

  -- A command that is missing or does not split leaves its runner out.
  abbrev pub with_command : Str → Result (List Str) → List CliRunner → List CliRunner
  with_command id (ok (w ∷ ws)) rest = configured id (w ∷ ws) ∷ rest
  with_command id _ rest = rest

  unfoldable pub configure : List Str → List CliRunner
  configure [] = []
  configure (id ∷ more) =
      with_command id (split_words (getenv (command_of (key_of id)))) (configure more)

  unfoldable pub cli_configs : List CliRunner
  cli_configs = configure (split_list (getenv ids))

-- The text "simulator".
abbrev pub simulator : Str
simulator = b's' ∷ b'i' ∷ b'm' ∷ b'u' ∷ b'l' ∷ b'a' ∷ b't' ∷ b'o' ∷ b'r' ∷ []

abbrev pub find_config : Str → List CliRunner → Option CliRunner
find_config id = find_where (λ c. same c.id id)

pub data Runner : Type 0 where
  simulator_runner : Runner
  cli_runner : CliRunner → Runner

abbrev pub or_unknown : Option CliRunner → Result Runner
or_unknown none = err unknown_runner
or_unknown (some c) = ok (cli_runner c)

-- New
unfoldable pub new_runner : List CliRunner → Str → Result Runner
new_runner configs id =
    if same id simulator then ok simulator_runner else or_unknown (find_config id configs)

abbrev pub budget_of : Option CliRunner → ℕ
budget_of none = 30 * second
budget_of (some c) = c.timeout

-- RunBudget, in nanoseconds.
unfoldable pub run_budget : List CliRunner → Str → ℕ
run_budget configs id = budget_of (find_config id configs)

-- Supported, by the identifiers of the manifests that Available lists.
unfoldable pub supported : List CliRunner → Str → Bool
supported configs id = same simulator id || exists_where (λ c. same c.id id) configs
