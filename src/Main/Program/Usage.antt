-- ===== src/Main/Program/Usage.antt =====
-- apib/apib_main.cc, main: what a bad command line leads to.
use apib.Prelude.{
  ℕ, ◌≡◌, refl, ◌∙◌, true, Bool-cases, inl, inr, Option, some, List, [], ◌∷◌, Bytes, if-true,
  if-false,
}
use apib.Prelude.Int.{ℤ}
use apib.Main.Options.{Options, Parsing, default_options, parse_options}
use apib.Main.Options.Errors.{any_refused, failed_or, parse_options-failed}
use apib.Main.Run.{Machine}
use apib.Main.Program.{Outcome, main, after_options, with_operands}

-- main ends with a text, and calls nothing of a run.
abbrev pub RunsNothing : Outcome → Type 0
RunsNothing (Outcome.usage status) = Unit
RunsNothing Outcome.version = Unit
RunsNothing Outcome.header_line = Unit
RunsNothing Outcome.aborted = Unit
RunsNothing (Outcome.finished actions) = ⊥

abbrev Nothing : Option Outcome → Type 0
Nothing o = (out : Outcome) × (o ≡ some out) × RunsNothing out

with_operands-Nothing :
    (m : Machine) (o : Options) (operands : List Bytes)
    → o.failed ≡ true
    → Nothing (with_operands m o operands)
with_operands-Nothing m o [] h = (Outcome.usage 1, refl, tt)
with_operands-Nothing m o (url ∷ []) h = (Outcome.usage 1, if-true _ _ _ h, tt)
with_operands-Nothing m o (url ∷ other ∷ more) h = (Outcome.usage 1, refl, tt)

after_options-Nothing :
    (m : Machine) (operands : List Bytes) (p : Parsing)
    → failed_or true p ≡ true
    → Nothing (after_options m operands p)
after_options-Nothing m operands Parsing.header_line h = (Outcome.header_line, refl, tt)
after_options-Nothing m operands Parsing.aborted h = (Outcome.aborted, refl, tt)
after_options-Nothing m operands (Parsing.going o) h = elim (Bool-cases o.do_help) [
  | inl help ↦ (Outcome.usage 0, if-true _ _ _ help, tt)
  | inr other ↦ elim (Bool-cases o.do_version) [
    | inl version ↦ (Outcome.version, if-false _ _ _ other ∙ if-true _ _ _ version, tt)
    | inr neither ↦
        (let (out, e, r) = with_operands-Nothing m o operands h in
          (out, if-false _ _ _ other ∙ if-false _ _ _ neither ∙ e, r))
  ]
]

-- If an option of the command line is refused, one that getopt_long does not know or a number that
-- is none, then main ends with a text, and sets up no thread and no report.
pub main-refused :
    (simple_atoi : Bytes → Option ℤ) (base64 : Bytes → Bytes) (m : Machine)
    (args : List (ℕ × Bytes)) (operands : List Bytes)
    → any_refused simple_atoi base64 args ≡ true
    → (out : Outcome) × (main simple_atoi base64 m args operands ≡ some out) × RunsNothing out
unfolding main
main-refused simple_atoi base64 m args operands h =
    let p = parse_options-failed simple_atoi base64 args default_options in
    after_options-Nothing m operands (parse_options simple_atoi base64 default_options args)
      (rw h at p)
