-- ===== src/TestProgram/Options/Given.antt =====
-- src/test.cpp, `main`: which files the options can give.
use mathlib.Core.Path.{subst}
use mathlib.Core.Option.{some-injective}
use mimic_generator.Common.{
  ℕ, zero, suc, ◌≡◌, ◌≢◌, ◌⊎◌, refl, sym, ap, ◌∙◌, inl, inr, Option, none, some, List, [], ◌∷◌,
  ◌++◌, Bool-cases, if◌then◌else◌,
}
use mimic_generator.Common.Maps.{Text, text_eq, text_eq_iff}
use mimic_generator.FileWorker.Events.{Numbers}
use mimic_generator.TestProgram.Options.{
  Settings, no_settings, option, Turn, goes, exits, take_option, turn, parse, conn_file_name,
  events_file_name, worker_files,
}

-- What no argument changes.
pub record Fixed (o o' : Settings) : Type 0 where
  pub server_ip : o'.server_ip ≡ o.server_ip
  pub num_threads : o'.num_threads ≡ o.num_threads
  pub num_conns : o'.num_conns ≡ o.num_conns
  pub is_server : o'.is_server ≡ o.is_server
  pub role_flag : o'.role_flag ≡ o.role_flag

Fixed-trans : (a b c : Settings) → Fixed a b → Fixed b c → Fixed a c
Fixed-trans a b c p q = record {
  server_ip = q.server_ip ∙ p.server_ip;
  num_threads = q.num_threads ∙ p.num_threads;
  num_conns = q.num_conns ∙ p.num_conns;
  is_server = q.is_server ∙ p.is_server;
  role_flag = q.role_flag ∙ p.role_flag;
}

-- The text stands directly behind the option `-i`.
abbrev pub IsIpFile : Text → List Text → Type 0
IsIpFile file args =
    (before : List Text) × (after : List Text) × (args ≡ before ++ option b'i' ∷ file ∷ after)

IsIpFile-later :
    (file arg : Text) (args : List Text) → IsIpFile file args → IsIpFile file (arg ∷ args)
IsIpFile-later file arg args (before, after, e) = (arg ∷ before, after, ap (◌∷◌ arg) e)

-- The settings have become `o'` by some of the arguments.
abbrev Sets : List Text → (o o' : Settings) → Type 0
Sets args o o' = Fixed o o' × ((o'.ip_file ≡ o.ip_file) ⊎ IsIpFile o'.ip_file args)

Sets-none : (args : List Text) (o : Settings) → Sets args o o
Sets-none args o = (
  record {
    server_ip = refl;
    num_threads = refl;
    num_conns = refl;
    is_server = refl;
    role_flag = refl;
  },
  inl refl,
)

Sets-later :
    (arg : Text) (args : List Text) (a b c : Settings)
    → Sets (arg ∷ args) a b
    → Sets args b c
    → Sets (arg ∷ args) a c
Sets-later arg args a b c (f, from) (g, inr new) =
    (Fixed-trans a b c f g, inr (IsIpFile-later c.ip_file arg args new))
Sets-later arg args a b c (f, inl kept) (g, inl same) = (Fixed-trans a b c f g, inl (same ∙ kept))
Sets-later arg args a b c (f, inr new) (g, inl same) =
    (Fixed-trans a b c f g, inr (subst (λ file. IsIpFile file (arg ∷ args)) (sym same) new))

module _ (numbers : Numbers) where
  abbrev Goes : List Text → Settings → Turn → Type 0
  Goes args o (goes skip o') = Sets args o o'
  Goes args o (exits status) = Unit

  turn-Goes :
      (arg : Text) (rest : List Text) (o : Settings) → Goes (arg ∷ rest) o (turn numbers arg rest o)
  unfolding turn take_option
  turn-Goes arg rest o = elim (Bool-cases (text_eq arg (option b'i'))) [
    | inl i ↦ subst Case (sym ((text_eq_iff arg (option b'i')).0 i)) (with_i rest)
    | inr i ↦ elim (Bool-cases (text_eq arg (option b'c'))) [
      | inl c ↦ subst Case (sym ((text_eq_iff arg (option b'c')).0 c)) (with_c rest)
      | inr c ↦ rw (i, c) (Sets-none (arg ∷ rest) o)
    ]
  ]
    where
      Case : Text → Type 0
      Case a = Goes (a ∷ rest) o (turn numbers a rest o)

      with_i : (rest : List Text) → Goes (option b'i' ∷ rest) o (turn numbers (option b'i') rest o)
      with_i [] = tt
      with_i (value ∷ rest) = (
        record {
          server_ip = refl;
          num_threads = refl;
          num_conns = refl;
          is_server = refl;
          role_flag = refl;
        },
        inr ([], rest, refl),
      )

      with_c : (rest : List Text) → Goes (option b'c' ∷ rest) o (turn numbers (option b'c') rest o)
      with_c [] = tt
      with_c (value ∷ rest) = (
        record {
          server_ip = refl;
          num_threads = refl;
          num_conns = refl;
          is_server = refl;
          role_flag = refl;
        },
        inl refl,
      )

  parse-Sets :
      (skip : ℕ) (args : List Text) (o o' : Settings)
      → parse numbers skip args o ≡ some o'
      → Sets args o o'
  unfolding parse
  parse-Sets skip [] o o' e = subst (Sets [] o) (some-injective _ _ e) (Sets-none [] o)
  parse-Sets (suc skip) (arg ∷ rest) o o' e =
      Sets-later arg rest o o o' (Sets-none (arg ∷ rest) o) (parse-Sets skip rest o o' e)
  parse-Sets zero (arg ∷ rest) o o' e =
      by_turn (turn numbers arg rest o) (turn-Goes arg rest o)
        (λ skip o₁. parse-Sets skip rest o₁ o') e
    where
      by_turn :
          (t : Turn)
          → Goes (arg ∷ rest) o t
          → ((skip : ℕ) (o₁ : Settings) → parse numbers skip rest o₁ ≡ some o' → Sets rest o₁ o')
          → (elim t [ goes skip o ↦ parse numbers skip rest o | exits status ↦ none ]) ≡ some o'
          → Sets (arg ∷ rest) o o'
      by_turn (goes skip o₁) s ih e = Sets-later arg rest o o₁ o' s (ih skip o₁ e)
      by_turn (exits status) s ih e = absurd (cc)

  -- If the program goes on to its file thread, then the file of IP addresses is one that stands
  -- directly behind an option `-i`, and is not the empty text. The other two files, the address of the
  -- server, the numbers of threads and of connections and the role are those of the code, whatever the
  -- arguments are.
  pub worker_files-given :
      (args : List Text) (ip_file conn_file : Text) (events : List Text)
      → worker_files numbers args ≡ some (ip_file, conn_file, events)
      → IsIpFile ip_file args
        × (ip_file ≢ [])
        × (conn_file ≡ conn_file_name)
        × (events ≡ events_file_name ∷ [])
        × (o : Settings) × (parse numbers 0 args no_settings ≡ some o)
        × Fixed no_settings o
  unfolding worker_files
  worker_files-given args ip_file conn_file events e =
      by_settings (parse numbers 0 args no_settings) refl e
    where
      by_settings :
          (r : Option Settings)
          → parse numbers 0 args no_settings ≡ r
          → (elim r as (λ _. Option (Text × Text × List Text)) [
            | none ↦ none
            | some o ↦
                if text_eq o.ip_file []
                then none
                else some (o.ip_file, conn_file_name, events_file_name ∷ [])
          ])
            ≡ some (ip_file, conn_file, events)
          → IsIpFile ip_file args
            × (ip_file ≢ [])
            × (conn_file ≡ conn_file_name)
            × (events ≡ events_file_name ∷ [])
            × (o : Settings) × (parse numbers 0 args no_settings ≡ some o)
            × Fixed no_settings o
      by_settings none at e = absurd (cc)
      by_settings (some o) at e = elim (Bool-cases (text_eq o.ip_file [])) [
        | inl empty ↦ absurd (let e' = rw empty at e in cc)
        | inr given ↦
            let full : o.ip_file ≢ [] =
              λ is. absurd (let t = (text_eq_iff o.ip_file []).1 is in cc) in
            let same : (o.ip_file, conn_file_name, events_file_name ∷ [])
                ≡ (ip_file, conn_file, events) =
              some-injective _ _ (rw given at e) in
            let (fixed, from) = parse-Sets 0 args no_settings o at in
            let file : o.ip_file ≡ ip_file = ap (λ (x : Text × Text × List Text). x.0) same in
            let behind : IsIpFile o.ip_file args = elim from [
              | inl kept ↦ absurd (full kept)
              | inr new ↦ new
            ] in
            (
              subst (λ x. IsIpFile x args) file behind,
              subst (λ (x : Text). x ≢ []) file full,
              sym (ap (λ (x : Text × Text × List Text). x.1) same),
              sym (ap (λ (x : Text × Text × List Text). x.2) same),
              o,
              at,
              fixed,
            )
      ]
