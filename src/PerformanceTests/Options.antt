-- ===== src/PerformanceTests/Options.antt =====
-- src/performanceTests.cpp, `main`: which tests the options select.
use mimic_generator.Common.{
  ℕ, zero, suc, ◌≡◌, refl, sym, ap, inl, inr, Bool, true, false, not, ◌||◌, ◌&&◌, if◌then◌else◌,
  List, [], ◌∷◌, arith, Bool-cases,
}
use mathlib.Core.Path.{subst}
use mimic_generator.Common.Maps.{Text, text_eq, text_eq_iff}
use mimic_generator.PerformanceTests.{
  Flags, no_flags, parsed, exits, option, is_ignored, Turn, goes, stops, take_role, ignore, turn,
  parse, Test, file_worker_test, event_handler_test, tests,
}

-- The arguments that the loop looks at, behind `skip` others: the two behind a -r are taken by it.
abbrev pub looked_at : (skip : ℕ) → List Text → List Text
looked_at skip [] = []
looked_at (suc skip) (arg ∷ rest) = looked_at skip rest
looked_at zero (arg ∷ rest) = arg ∷ looked_at (if text_eq arg (option b'r') then 2 else 0) rest

-- The option `-c` is among the arguments.
abbrev pub has : (c : ℕ) → List Text → Bool
has c [] = false
has c (arg ∷ rest) = text_eq arg (option c) || has c rest

-- What the arguments `args` change of the flags.
record Selects (args : List Text) (o o' : Flags) : Type 0 where
  file_events : o'.test_file_events_flag ≡ (o.test_file_events_flag || has b'F' args)
  connections : o'.test_connections_flag ≡ (o.test_connections_flag || has b'C' args)
  events : o'.test_events_flag ≡ (o.test_events_flag || has b'E' args)
  all :
      o'.test_all_flag ≡ (o.test_all_flag && not (has b'F' args || has b'C' args || has b'E' args))

abbrev Takes : (arg : Text) → Flags → Turn → Type 0
Takes arg o (goes skip o') =
    (skip ≡ (if text_eq arg (option b'r') then 2 else 0)) × Selects (arg ∷ []) o o'
Takes arg o (stops status) = Unit

-- An option is no other one.
as_option : (c : ℕ) (arg : Text) → text_eq arg (option c) ≡ true → arg ≡ option c
as_option c arg e = (text_eq_iff arg (option c)).0 e

none_selected :
    (arg : Text) (o : Flags)
    → text_eq arg (option b'F') ≡ false
    → text_eq arg (option b'C') ≡ false
    → text_eq arg (option b'E') ≡ false
    → Selects (arg ∷ []) o o
none_selected arg o f c e = record {
  file_events = rw f (ground arith);
  connections = rw c (ground arith);
  events = rw e (ground arith);
  all = rw (f, c, e) (ground arith);
}

take_role-Takes :
    (arg : Text) (rest : List Text) (o : Flags)
    → text_eq arg (option b'r') ≡ true
    → Selects (arg ∷ []) o o
    → Takes arg o (take_role rest o)
take_role-Takes arg [] o r same = tt
take_role-Takes arg (role ∷ []) o r same = tt
take_role-Takes arg (role ∷ host ∷ rest) o r same = (
  ap (λ x. if x then 2 else 0) (sym r),
  record {
    file_events = same.file_events;
    connections = same.connections;
    events = same.events;
    all = same.all;
  },
)

go_on :
    (arg : Text) (o : Flags)
    → text_eq arg (option b'r') ≡ false
    → Selects (arg ∷ []) o o
    → Takes arg o (goes 0 o)
go_on arg o r same = (ap (λ x. if x then 2 else 0) (sym r), same)

ignore-Takes :
    (arg : Text) (rest : List Text) (o : Flags)
    → text_eq arg (option b'r') ≡ false
    → Selects (arg ∷ []) o o
    → Takes arg o (ignore rest o)
ignore-Takes arg [] o r same = tt
ignore-Takes arg (next ∷ rest) o r same = go_on arg o r same

turn-Takes : (arg : Text) (rest : List Text) (o : Flags) → Takes arg o (turn arg rest o)
unfolding turn
turn-Takes arg rest o = elim (Bool-cases (text_eq arg (option b'F'))) [
  | inl f ↦ rw (as_option b'F' arg f) (
    refl,
    record {
      file_events = ground arith;
      connections = ground arith;
      events = ground arith;
      all = ground arith;
    },
  )
  | inr f ↦ elim (Bool-cases (text_eq arg (option b'C'))) [
    | inl c ↦ rw (as_option b'C' arg c) (
      refl,
      record {
        file_events = ground arith;
        connections = ground arith;
        events = ground arith;
        all = ground arith;
      },
    )
    | inr c ↦ elim (Bool-cases (text_eq arg (option b'E'))) [
      | inl e ↦ rw (as_option b'E' arg e) (
        refl,
        record {
          file_events = ground arith;
          connections = ground arith;
          events = ground arith;
          all = ground arith;
        },
      )
      | inr e ↦
          let same = none_selected arg o f c e in
          elim (Bool-cases (text_eq arg (option b'h'))) [
            | inl h ↦ rw (f, c, e, h) tt
            | inr h ↦ elim (Bool-cases (text_eq arg (option b'r'))) [
              | inl r ↦ rw (f, c, e, h, r) (take_role-Takes arg rest o r same)
              | inr r ↦ elim (Bool-cases (is_ignored arg)) [
                | inl i ↦ rw (f, c, e, h, r, i) (ignore-Takes arg rest o r same)
                | inr i ↦ rw (f, c, e, h, r, i) (go_on arg o r same)
              ]
            ]
          ]
    ]
  ]
]

Selects-chain :
    (arg : Text) (args : List Text) (o o₁ o' : Flags)
    → Selects (arg ∷ []) o o₁
    → Selects args o₁ o'
    → Selects (arg ∷ args) o o'
Selects-chain arg args o o₁ o' one others = record {
  file_events = let e = one.file_events in let e' = others.file_events in ground arith;
  connections = let e = one.connections in let e' = others.connections in ground arith;
  events = let e = one.events in let e' = others.events in ground arith;
  all = let e = one.all in let e' = others.all in ground arith;
}

parse-Selects :
    (skip : ℕ) (args : List Text) (o o' : Flags)
    → parse skip args o ≡ parsed o'
    → Selects (looked_at skip args) o o'
unfolding parse
parse-Selects skip [] o o' e =
    let same : o ≡ o' = cc in
    subst (Selects [] o) same (record {
      file_events = ground arith;
      connections = ground arith;
      events = ground arith;
      all = ground arith;
    })
parse-Selects (suc skip) (arg ∷ rest) o o' e = parse-Selects skip rest o o' e
parse-Selects zero (arg ∷ rest) o o' e =
    by_turn (turn arg rest o) (turn-Takes arg rest o) (λ skip o₁. parse-Selects skip rest o₁ o') e
  where
    by_turn :
        (t : Turn)
        → Takes arg o t
        → ((skip : ℕ) (o₁ : Flags)
            → parse skip rest o₁ ≡ parsed o'
            → Selects (looked_at skip rest) o₁ o')
        → (elim t [ goes skip o ↦ parse skip rest o | stops status ↦ exits status ]) ≡ parsed o'
        → Selects (looked_at zero (arg ∷ rest)) o o'
    by_turn (goes skip o₁) (skips, one) ih e =
        Selects-chain arg (looked_at (if text_eq arg (option b'r') then 2 else 0) rest) o o₁ o' one
          (subst (λ n. Selects (looked_at n rest) o₁ o') skips (ih skip o₁ e))
    by_turn (stops status) takes ih e = absurd (cc)

-- The tests for -F, -C and -E, with the test of an EventHandler that is run.
abbrev pub selected : (f c e : Bool) (handler : Test) → List Test
selected false false false handler = file_worker_test ∷ handler ∷ handler ∷ []
selected true false false handler = file_worker_test ∷ []
selected true false true handler = file_worker_test ∷ handler ∷ []
selected false true false handler = handler ∷ []
selected false true true handler = handler ∷ handler ∷ []
selected true true false handler = file_worker_test ∷ handler ∷ []
selected true true true handler = file_worker_test ∷ handler ∷ handler ∷ []
selected false false true handler = []

tests-selected :
    (o : Flags) (f c e : Bool)
    → o.test_file_events_flag ≡ f
    → o.test_connections_flag ≡ c
    → o.test_events_flag ≡ e
    → o.test_all_flag ≡ not (f || c || e)
    → tests o ≡ selected f c e (event_handler_test o.remote_host o.my_role)
unfolding tests
tests-selected o false false false f c e d = ground arith
tests-selected o true false false f c e d = ground arith
tests-selected o true false true f c e d = ground arith
tests-selected o false true false f c e d = ground arith
tests-selected o false true true f c e d = ground arith
tests-selected o true true false f c e d = ground arith
tests-selected o true true true f c e d = ground arith
tests-selected o false false true f c e d = ground arith

-- If the arguments do not end the program, it runs the test of the file thread if -F is among them,
-- one of an EventHandler if -C is, and one if -E is, or all three if none of these options is. But
-- it runs no test at all for -E without the other two. The two arguments behind a -r are not options.
pub parse-tests :
    (args : List Text) (o : Flags)
    → parse 0 args no_flags ≡ parsed o
    → let options = looked_at 0 args in
      tests o
      ≡ selected
          (has b'F' options)
          (has b'C' options)
          (has b'E' options)
          (event_handler_test o.remote_host o.my_role)
parse-tests args o e =
    let selects = parse-Selects 0 args no_flags o e in
    tests-selected o _ _ _ selects.file_events selects.connections selects.events selects.all
