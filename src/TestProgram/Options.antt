-- ===== src/TestProgram/Options.antt =====
-- src/test.cpp, `main`: the options, and the files that the file thread is given. What std::stoi makes
-- of a text is a parameter.
pub mod Given
use mathlib.Core.Path.{subst}
use mathlib.Core.Option.{some-injective}
use mimic_generator.Common.{
  ℕ, zero, suc, ◌≡◌, ◌≢◌, ◌⊎◌, refl, sym, ap, ◌∙◌, inl, inr, Bool, false, ◌||◌, Option, none, some,
  List, [], ◌∷◌, ◌++◌, Bool-cases, if◌then◌else◌,
}
use mimic_generator.Common.Int.{ℤ, pos}
use mimic_generator.Common.Maps.{Text, text_eq, text_eq_iff}
use mimic_generator.FileWorker.Events.{Numbers}

-- "/users/gbartlet/mimic-generator/testFiles/"
abbrev test_files : Text
test_files =
    b'/' ∷ b'u' ∷ b's' ∷ b'e' ∷ b'r' ∷ b's' ∷ b'/' ∷ b'g' ∷ b'b' ∷ b'a' ∷ b'r' ∷ b't' ∷ b'l' ∷ b'e'
    ∷ b't' ∷ b'/' ∷ b'm' ∷ b'i' ∷ b'm' ∷ b'i' ∷ b'c' ∷ b'-' ∷ b'g' ∷ b'e' ∷ b'n' ∷ b'e' ∷ b'r'
    ∷ b'a' ∷ b't' ∷ b'o' ∷ b'r' ∷ b'/' ∷ b't' ∷ b'e' ∷ b's' ∷ b't' ∷ b'F' ∷ b'i' ∷ b'l' ∷ b'e'
    ∷ b's' ∷ b'/' ∷ []

abbrev pub default_server : Text
default_server = b'1' ∷ b'0' ∷ b'.' ∷ b'1' ∷ b'.' ∷ b'1' ∷ b'.' ∷ b'2' ∷ []

-- The files that are named in the code.
abbrev pub conn_file_name : Text
conn_file_name =
    test_files
    ++ b't' ∷ b'e' ∷ b's' ∷ b't' ∷ b'c' ∷ b'o' ∷ b'n' ∷ b'n' ∷ b'.' ∷ b'c' ∷ b's' ∷ b'v' ∷ []

abbrev pub events_file_name : Text
events_file_name =
    test_files ++ b'e' ∷ b'v' ∷ b'e' ∷ b'n' ∷ b't' ∷ b's' ∷ b'.' ∷ b'c' ∷ b's' ∷ b'v' ∷ []

-- The variables of `main`.
pub record Settings : Type 0 where
  pub server_ip : Text
  pub num_threads : ℤ
  pub num_conns : ℤ
  pub is_server : Bool
  pub role_flag : Bool
  pub ip_file : Text
  pub conn_file : Text

abbrev pub no_settings : Settings
no_settings = record {
  server_ip = default_server;
  num_threads = pos 1;
  num_conns = pos 1000;
  is_server = false;
  role_flag = false;
  ip_file = [];
  conn_file = [];
}

abbrev pub option : ℕ → Text
option c = b'-' ∷ c ∷ []

-- The loop goes on behind as many more arguments, or the process exits.
pub data Turn : Type 0 where
  goes : (skip : ℕ) → Settings → Turn
  exits : (status : ℕ) → Turn

module _ (numbers : Numbers) where
  -- An option that has the argument `value`.
  unfoldable pub take_option : (arg value : Text) → Settings → Turn
  take_option arg value o =
      if text_eq arg (option b't')
      then elim (numbers.stoi value) [
        | none ↦ exits 255
        | some n ↦ goes 1 (record o { num_threads = n })
      ]
      else if text_eq arg (option b's')
      then goes 1 (record o { server_ip = value })
      else if text_eq arg (option b'i')
      then goes 1 (record o { ip_file = value })
      else if text_eq arg (option b'c')
      then goes 1 (record o { conn_file = value })
      else goes 0 o

  -- A turn at `arg`, with the arguments `rest` behind it.
  unfoldable pub turn : (arg : Text) (rest : List Text) → Settings → Turn
  turn arg rest o =
      if text_eq arg (option b'i') || text_eq arg (option b'c')
      then elim rest [ [] ↦ exits 255 | value ∷ _ ↦ take_option arg value o ]
      else goes 0 o

  -- The loop over the arguments, from the second one of `argv` on. None: the process exits.
  unfoldable pub parse : (skip : ℕ) → List Text → Settings → Option Settings
  parse skip [] o = some o
  parse (suc skip) (arg ∷ rest) o = parse skip rest o
  parse zero (arg ∷ rest) o = elim (turn arg rest o) [
    | goes skip o ↦ parse skip rest o
    | exits status ↦ none
  ]

  -- The files that the FileWorker is made with: of IP addresses, of connections and of events.
  unfoldable pub worker_files : List Text → Option (Text × Text × List Text)
  worker_files args = elim (parse 0 args no_settings) [
    | none ↦ none
    | some o ↦
        if text_eq o.ip_file []
        then none
        else some (o.ip_file, conn_file_name, events_file_name ∷ [])
  ]
