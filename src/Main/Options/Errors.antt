-- ===== src/Main/Options/Errors.antt =====
-- apib/apib_main.cc, the loop over the options: an option that is refused is not forgotten.
use apib.Prelude.{
  ℕ, ◌≡◌, refl, subst, Bool, true, false, ◌||◌, ◌&&◌, Option-cases, inl, inr, Option, none, some,
  List, [], ◌∷◌, Bytes, ◌==◌, arith,
}
use apib.Prelude.Int.{ℤ}
use apib.Main.Options.{Options, Parsing, apply_option, then_parse, parse_options}

-- the options that take a number
abbrev pub takes_number : ℕ → Bool
takes_number arg =
    arg == b'c' || arg == b'd' || arg == b'k' || arg == b'w' || arg == b'K' || arg == b'W'

-- the flag `failed`, or what is given where the loop has returned
abbrev pub failed_or : Bool → Parsing → Bool
failed_or b (Parsing.going o) = o.failed
failed_or b Parsing.header_line = b
failed_or b Parsing.aborted = b

module _ (simple_atoi : Bytes → Option ℤ) (base64 : Bytes → Bytes) where
  abbrev pub is_none : Option ℤ → Bool
  is_none none = true
  is_none (some x) = false

  -- the options that are refused: those that getopt_long does not know, and what is no number
  abbrev pub is_refused : ℕ × Bytes → Bool
  is_refused (arg, optarg) =
      (arg == b'?' || arg == b':') || (takes_number arg && is_none (simple_atoi optarg))

  abbrev pub any_refused : List (ℕ × Bytes) → Bool
  any_refused [] = false
  any_refused (a ∷ args) = is_refused a || any_refused args

  apply_option-failed :
      (o : Options) (arg : ℕ) (optarg : Bytes)
      → failed_or
          (o.failed || is_refused (arg, optarg))
          (apply_option simple_atoi base64 o arg optarg)
        ≡ (o.failed || is_refused (arg, optarg))
  unfolding apply_option
  apply_option-failed o arg optarg = elim (Option-cases (simple_atoi optarg)) [
    | inl e ↦ rw e (ground arith)
    | inr (x, e) ↦ rw e (ground arith)
  ]

  then_parse-failed :
      (refused : Bool) (more : Options → Parsing) (b : Bool) (p : Parsing)
      → failed_or b p ≡ b
      → ((o : Options) → failed_or (o.failed || refused) (more o) ≡ (o.failed || refused))
      → failed_or (b || refused) (then_parse simple_atoi base64 more p) ≡ (b || refused)
  then_parse-failed refused more b (Parsing.going o) h ih = rw (← h) (ih o)
  then_parse-failed refused more b Parsing.header_line h ih = refl
  then_parse-failed refused more b Parsing.aborted h ih = refl

  -- Where the loop goes on to its end, `failed` is set if it was, or if an option is refused, and
  -- not otherwise.
  pub parse_options-failed :
      (args : List (ℕ × Bytes)) (o : Options)
      → failed_or (o.failed || any_refused args) (parse_options simple_atoi base64 o args)
        ≡ (o.failed || any_refused args)
  unfolding parse_options
  parse_options-failed [] o = or_false o.failed
    where
      or_false : (b : Bool) → b ≡ (b || false)
      or_false true = refl
      or_false false = refl
  parse_options-failed ((arg, optarg) ∷ args) o =
      let here = apply_option-failed o arg optarg in
      let later =
        then_parse-failed (any_refused args) (λ o'. parse_options simple_atoi base64 o' args)
          (o.failed || is_refused (arg, optarg)) (apply_option simple_atoi base64 o arg optarg) here
          (λ o'. parse_options-failed args o') in
      subst (λ b. failed_or b (parse_options simple_atoi base64 o ((arg, optarg) ∷ args)) ≡ b)
        (or_assoc o.failed (is_refused (arg, optarg)) (any_refused args)) later
    where
      or_assoc : (a b c : Bool) → ((a || b) || c) ≡ (a || (b || c))
      or_assoc true b c = refl
      or_assoc false b c = refl
