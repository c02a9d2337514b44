-- ===== src/Startup/Valid.antt =====
-- What holds of every configuration that the process starts with (src/main.cpp).
use homestead.Prelude.{
  Bool, true, false, ◌≡◌, refl, ap, ◌∙◌, ◌||◌, Option, none, some, List, [], ◌∷◌, arith,
  Option-cases, subst, inl, inr,
}
use homestead.Prelude.Int.{ℤ, pos, leb_ℤ}
use homestead.Startup.{Options, Opt, StartupLib, default_options}
use homestead.Startup.Parse.{
  logging_option, init_logging_options, init_option, sets_timeout, with_timeout, init_options,
  options_of,
}

-- The limits of the load monitor.
abbrev pub IsValid : Options → Type 0
IsValid o =
    (leb_ℤ o.target_latency_us (pos 0) ≡ false)
    × (leb_ℤ o.max_tokens (pos 0) ≡ false)
    × (leb_ℤ o.init_token_rate (pos 0) ≡ false)
    × (leb_ℤ o.min_token_rate (pos 0) ≡ false)
    × (leb_ℤ (pos 0) o.max_token_rate ≡ true)

init_option-IsValid :
    (lib : StartupLib) (opt : Opt) (o o' : Options)
    → IsValid o
    → init_option lib opt o ≡ some o'
    → IsValid o'
unfolding init_option
init_option-IsValid lib opt o o' h e =
    (ground arith, ground arith, ground arith, ground arith, ground arith)

logging_option-IsValid : (opt : Opt) (o : Options) → IsValid o → IsValid (logging_option opt o)
unfolding logging_option
logging_option-IsValid opt o h =
    (ground arith, ground arith, ground arith, ground arith, ground arith)

init_logging_options-IsValid :
    (opts : List Opt) (o : Options) → IsValid o → IsValid (init_logging_options opts o)
unfolding init_logging_options
init_logging_options-IsValid [] o h = h
init_logging_options-IsValid (opt ∷ opts) o h =
    init_logging_options-IsValid opts (logging_option opt o) (logging_option-IsValid opt o h)

with_timeout-IsValid :
    (lib : StartupLib) (set : Bool) (o : Options) → IsValid o → IsValid (with_timeout lib set o)
unfolding with_timeout
with_timeout-IsValid lib true o h = h
with_timeout-IsValid lib false o h = h

-- Of a result, if there is one.
abbrev Result : (Options → Type 0) → Option Options → Type 0
Result P none = Unit
Result P (some o) = P o

init_options-IsValid :
    (lib : StartupLib) (opts : List Opt) (set : Bool) (o : Options)
    → IsValid o
    → Result IsValid (init_options lib opts set o)
unfolding init_options
init_options-IsValid lib [] set o h = with_timeout-IsValid lib set o h
init_options-IsValid lib (opt ∷ opts) set o h = elim (Option-cases (init_option lib opt o)) [
  | inl e ↦ rw (e, init_options) tt
  | inr (o', e) ↦
      rw (e, init_options)
        (init_options-IsValid lib opts (set || sets_timeout opt) o'
          (init_option-IsValid lib opt o o' h e))
]

-- A process that starts has a latency, a number of tokens and two rates above 0, and a maximal rate that
-- is not negative, whatever its command line.
pub options_of-IsValid :
    (lib : StartupLib) (opts : List Opt) (o : Options) → options_of lib opts ≡ some o → IsValid o
unfolding options_of default_options
options_of-IsValid lib opts o e = subst (Result IsValid) e (
    init_options-IsValid lib opts false (init_logging_options opts (default_options lib))
      (init_logging_options-IsValid opts (default_options lib) (refl, refl, refl, refl, refl)))

-- Whether the duration for Astaire is set.
abbrev pub sets_astaire : Opt → Bool
sets_astaire (Opt.astaire_blacklist_duration n) = true
sets_astaire _ = false

abbrev pub any_sets_astaire : List Opt → Bool
any_sets_astaire [] = false
any_sets_astaire (opt ∷ opts) = sets_astaire opt || any_sets_astaire opts

-- Whether a number has a value.
abbrev pub is_set : Option ℤ → Bool
is_set none = false
is_set (some n) = true

astaire-init_option :
    (lib : StartupLib) (opt : Opt) (o o' : Options)
    → init_option lib opt o ≡ some o'
    → is_set o'.astaire_blacklist_duration
      ≡ (sets_astaire opt || is_set o.astaire_blacklist_duration)
unfolding init_option
astaire-init_option lib opt o o' e = ground arith

astaire-logging_option :
    (opt : Opt) (o : Options)
    → (logging_option opt o).astaire_blacklist_duration ≡ o.astaire_blacklist_duration
unfolding logging_option
astaire-logging_option opt o = ground arith

astaire-init_logging_options :
    (opts : List Opt) (o : Options)
    → (init_logging_options opts o).astaire_blacklist_duration ≡ o.astaire_blacklist_duration
unfolding init_logging_options
astaire-init_logging_options [] o = refl
astaire-init_logging_options (opt ∷ opts) o =
    astaire-init_logging_options opts (logging_option opt o) ∙ astaire-logging_option opt o

astaire-init_options :
    (lib : StartupLib) (opts : List Opt) (set : Bool) (o : Options)
    → Result
        (λ o'.
          is_set o'.astaire_blacklist_duration
          ≡ (any_sets_astaire opts || is_set o.astaire_blacklist_duration))
        (init_options lib opts set o)
unfolding init_options with_timeout
astaire-init_options lib [] true o = refl
astaire-init_options lib [] false o = refl
astaire-init_options lib (opt ∷ opts) set o = elim (Option-cases (init_option lib opt o)) [
  | inl e ↦ rw (e, init_options) tt
  | inr (o', e) ↦
      let rest = init_options lib opts (set || sets_timeout opt) o' in
      rw (e, init_options)
        (subst (λ b. Result (λ o''. is_set o''.astaire_blacklist_duration ≡ b) rest)
          (ground (arith, astaire-init_option lib opt o o' e))
          (astaire-init_options lib opts (set || sets_timeout opt) o'))
]

-- The duration of the blacklist for Astaire has a value exactly if the command line sets it: `main` gives
-- it none.
pub astaire-options_of :
    (lib : StartupLib) (opts : List Opt) (o : Options)
    → options_of lib opts ≡ some o
    → is_set o.astaire_blacklist_duration ≡ any_sets_astaire opts
unfolding options_of default_options
astaire-options_of lib opts o e =
    let before = init_logging_options opts (default_options lib) in
    let unset = ap is_set (astaire-init_logging_options opts (default_options lib)) in
    ground (
      arith,
      unset,
      subst
          (Result (λ o'.
            is_set o'.astaire_blacklist_duration
            ≡ (any_sets_astaire opts || is_set before.astaire_blacklist_duration)))
          e (astaire-init_options lib opts false before),
    )
