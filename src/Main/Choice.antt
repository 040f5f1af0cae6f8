-- ===== src/Main/Choice.antt =====
-- nhbackup.cc: what it takes for main() to exit with the status 0.
use hbackup.Prelude.{
  ℕ, ◌+◌, ◌≡◌, inl, inr, refl, sym, ap, subst, ◌∙◌, [], ◌∷◌, List, Bool, true, false, ◌||◌, none,
  some, Bytes, arith, ◌==◌, if◌then◌else◌, Bool-cases,
}
use hbackup.Outcome.{Result, ok, err, fatal}
use hbackup.Exclude.{Pcre, add}
use hbackup.Main.{
  Opt, Settings, defaults, parsed, exits, aborts, Commands, set_option, added, one_option,
  read_options, counted, commands_chosen, run_command, exit_status, run, main, backup_opt,
  restore_opt, verify_opt, cleanup_opt, speedtest_opt, exclude_opt, is_given, is_empty, help_opt,
  version_opt, unknown_opt,
}

unfoldable pub is_backup : Opt → Bool
is_backup backup_opt = true
is_backup _ = false

unfoldable pub is_restore : Opt → Bool
is_restore restore_opt = true
is_restore _ = false

unfoldable pub is_verify : Opt → Bool
is_verify verify_opt = true
is_verify _ = false

unfoldable pub is_cleanup : Opt → Bool
is_cleanup cleanup_opt = true
is_cleanup _ = false

unfoldable pub is_speedtest : Opt → Bool
is_speedtest speedtest_opt = true
is_speedtest _ = false

-- `--help` and `--version`
unfoldable pub asks_only : Opt → Bool
asks_only help_opt = true
asks_only version_opt = true
asks_only _ = false

unfoldable pub mentions : (Opt → Bool) → List Opt → Bool
mentions f [] = false
mentions f (o ∷ os) = if f o then true else mentions f os

-- How many of the five commands are among the options, however often.
pub commands_named : List Opt → ℕ
commands_named os =
    counted (mentions is_backup os)
    + counted (mentions is_restore os)
    + counted (mentions is_verify os)
    + counted (mentions is_cleanup os)
    + counted (mentions is_speedtest os)

-- The first of five that is chosen, and what is done where none is.
first_of :
    {X : Type 0} (b r v c t : Bool)
    (on_backup on_restore on_verify on_cleanup on_speedtest none_ : X)
    → X
first_of b r v c t on_backup on_restore on_verify on_cleanup on_speedtest none_ =
    if b
    then on_backup
    else if r
    then on_restore
    else if v
    then on_verify
    else if c
    then on_cleanup
    else if t
    then on_speedtest
    else none_

-- It is the one that is chosen, where no other is.
first_of-only :
    {X : Type 0} (b r v c t : Bool)
    (on_backup on_restore on_verify on_cleanup on_speedtest none_ : X)
    → counted b + counted r + counted v + counted c + counted t ≡ 1
    → (b ≡ true
        → first_of b r v c t on_backup on_restore on_verify on_cleanup on_speedtest none_
          ≡ on_backup)
      × (r ≡ true
          → first_of b r v c t on_backup on_restore on_verify on_cleanup on_speedtest none_
            ≡ on_restore)
      × (v ≡ true
          → first_of b r v c t on_backup on_restore on_verify on_cleanup on_speedtest none_
            ≡ on_verify)
      × (c ≡ true
          → first_of b r v c t on_backup on_restore on_verify on_cleanup on_speedtest none_
            ≡ on_cleanup)
      × (t ≡ true
          → first_of b r v c t on_backup on_restore on_verify on_cleanup on_speedtest none_
            ≡ on_speedtest)
unfolding first_of
first_of-only b r v c t on_backup on_restore on_verify on_cleanup on_speedtest none_ one =
    (λ e. ground arith, λ e. ground arith, λ e. ground arith, λ e. ground arith, λ e. ground arith)

abbrev Flags : Type 0
Flags = Bool × Bool × Bool × Bool × Bool

abbrev flags : {R : Type 0} → Settings R → Flags
flags s = (s.backup, s.restore, s.verify, s.clean, s.speedtest)

-- The flags after an option, or after some.
after : ((Opt → Bool) → Bool) → Flags → Flags
after f (b, r, v, c, t) = (
  if f is_backup then true else b,
  if f is_restore then true else r,
  if f is_verify then true else v,
  if f is_cleanup then true else c,
  if f is_speedtest then true else t,
)

module _ (P : Pcre) where
  flags-set_option :
      (o : Opt) (s : Settings P.Regex) → flags (set_option P o s) ≡ after (λ f. f o) (flags s)
  unfolding set_option after is_backup is_restore is_verify is_cleanup is_speedtest
  flags-set_option backup_opt s = refl
  flags-set_option o s = refl

  -- What an option that does not end the process leaves, and what one does that does.
  data Outcome (o : Opt) (s : Settings P.Regex) : Type 0 where
    goes_on :
        (s1 : Settings P.Regex)
        → one_option P o s ≡ parsed s1
        → flags s1 ≡ flags (set_option P o s)
        → Outcome o s
    stops : (n : ℕ) → one_option P o s ≡ exits n → (asks_only o ≡ false → (n ≡ 0) → ⊥) → Outcome o s
    dies : one_option P o s ≡ aborts → Outcome o s

  outcome : (o : Opt) (s : Settings P.Regex) → Outcome o s
  unfolding one_option added set_option asks_only
  outcome (exclude_opt arg) s = by_result (add P arg s.exclusions) refl
    where
      by_result :
          (r : Result (List P.Regex)) → add P arg s.exclusions ≡ r → Outcome (exclude_opt arg) s
      by_result (ok res) e = goes_on (record s { exclusions = res }) (rw e refl) refl
      by_result (err x) e = dies (rw e refl)
      by_result fatal e = stops 1 (rw e refl) (λ _ z. omega (arith, z))
  outcome help_opt s = stops 0 refl (λ e _. cc)
  outcome version_opt s = stops 0 refl (λ e _. cc)
  outcome unknown_opt s = stops 255 refl (λ _ z. omega (arith, z))
  outcome o s = goes_on (set_option P o s) refl refl

  mentions-cons :
      (f : Opt → Bool) (o : Opt) (os : List Opt) (b : Bool)
      → (if mentions f (o ∷ os) then true else b)
        ≡ (if mentions f os then true else if f o then true else b)
  unfolding mentions
  mentions-cons f o os b = ground arith

  after-cons :
      (o : Opt) (os : List Opt) (x : Flags)
      → after (λ f. mentions f (o ∷ os)) x ≡ after (λ f. mentions f os) (after (λ f. f o) x)
  unfolding after
  after-cons o os (b, r, v, c, t) = λ i. (
    mentions-cons is_backup o os b i,
    mentions-cons is_restore o os r i,
    mentions-cons is_verify o os v i,
    mentions-cons is_cleanup o os c i,
    mentions-cons is_speedtest o os t i,
  )

  -- The end of the options: with a flag for each command that they mention, or by a status other
  -- than 0.
  data Ending (os : List Opt) (s : Settings P.Regex) : Type 0 where
    reads :
        (s1 : Settings P.Regex)
        → read_options P os s ≡ parsed s1
        → flags s1 ≡ after (λ f. mentions f os) (flags s)
        → Ending os s
    fails : (n : ℕ) → read_options P os s ≡ exits n → ((n ≡ 0) → ⊥) → Ending os s
    dies_early : read_options P os s ≡ aborts → Ending os s

  ending : (os : List Opt) (s : Settings P.Regex) → mentions asks_only os ≡ false → Ending os s
  unfolding read_options mentions after
  ending [] s h = reads s refl refl
  ending (o ∷ os) s h = by_outcome (outcome o s) (λ s1. ending os s1 (ground (arith, h)))
    where
      by_rest :
          (s1 : Settings P.Regex)
          → one_option P o s ≡ parsed s1
          → flags s1 ≡ flags (set_option P o s)
          → Ending os s1
          → Ending (o ∷ os) s
      by_rest s1 q e (reads s2 r f) = reads s2 (rw (read_options, q) r) (
          f
          ∙ ap (after (λ g. mentions g os)) (e ∙ flags-set_option o s)
          ∙ sym (after-cons o os (flags s)))
      by_rest s1 q e (fails n r z) = fails n (rw (read_options, q) r) z
      by_rest s1 q e (dies_early r) = dies_early (rw (read_options, q) r)

      by_outcome : Outcome o s → ((s1 : Settings P.Regex) → Ending os s1) → Ending (o ∷ os) s
      by_outcome (goes_on s1 q e) again = by_rest s1 q e (again s1)
      by_outcome (stops n q z) again = fails n (rw (read_options, q) refl) (z (ground (arith, h)))
      by_outcome (dies q) again = dies_early (rw (read_options, q) refl)

  counted_flag : (b : Bool) → counted (if b then true else false) ≡ counted b
  counted_flag true = refl
  counted_flag false = refl

  total : Flags → ℕ
  total (b, r, v, c, t) = counted b + counted r + counted v + counted c + counted t

  commands_chosen-named :
      (os : List Opt) (s : Settings P.Regex)
      → flags s ≡ after (λ f. mentions f os) (flags (defaults {R = P.Regex}))
      → commands_chosen P s ≡ commands_named os
  unfolding commands_chosen commands_named after total
  commands_chosen-named os s e = ap total e ∙ simp counted_flag

  module _ (C : Commands P.Regex) where
    open C use {World, log}

    -- What has run has returned, and has counted no error.
    record Succeeds (s : Settings P.Regex) (args : List Bytes) (w w1 : World) : Type 0 where
      returned : run_command P C s args w ≡ (ok tt, w1)
      no_errors : (log w1).errors ≡ 0

    exit_status-zero :
        (p : Result (Unit {0}) × World)
        → exit_status P C p ≡ 0
        → (p ≡ (ok tt, p.1)) × ((log p.1).errors ≡ 0)
    unfolding exit_status
    exit_status-zero (ok x, w) h = (refl, ground (arith, h))
    exit_status-zero (err e, w) h = absurd (omega (arith, h))
    exit_status-zero (fatal, w) h = absurd (omega (arith, h))

    run_one :
        (s : Settings P.Regex) (args : List Bytes) (w : World)
        → (commands_chosen P s == 1) ≡ true
        → run P C s args w
          ≡ (exit_status P C (run_command P C s args w), (run_command P C s args w).1)
    unfolding run
    run_one s args w e = rw e refl

    run_none :
        (s : Settings P.Regex) (args : List Bytes) (w : World)
        → (commands_chosen P s == 1) ≡ false
        → run P C s args w ≡ (1, w)
    unfolding run
    run_none s args w e = rw e refl

    run-zero :
        (s : Settings P.Regex) (args : List Bytes) (w : World)
        → (run P C s args w).0 ≡ 0
        → (commands_chosen P s ≡ 1) × Succeeds s args w (run P C s args w).1
    run-zero s args w h = elim (Bool-cases (commands_chosen P s == 1)) [
      | inl e ↦
          let q = run_one s args w e in
          let (r, n) = exit_status-zero (run_command P C s args w) (sym (ap (λ p. p.0) q) ∙ h) in
          let one : commands_chosen P s ≡ 1 = ground (arith, e) in
          let done : Succeeds s args w (run_command P C s args w).1 = record {
            returned = r;
            no_errors = n;
          } in
          (one, subst (Succeeds s args w) (sym (ap (λ p. p.1) q)) done)
      | inr e ↦ absurd (omega (arith, h, ap (λ p. p.0) (run_none s args w e)))
    ]

    main_parsed :
        (opts : List Opt) (args : List Bytes) (w : World) (s : Settings P.Regex)
        → read_options P opts defaults ≡ parsed s
        → main P C opts args w ≡ (some (run P C s args w).0, (run P C s args w).1)
    unfolding main
    main_parsed opts args w s q = rw (main, q) refl

    main_exits :
        (opts : List Opt) (args : List Bytes) (w : World) (n : ℕ)
        → read_options P opts defaults ≡ exits n
        → main P C opts args w ≡ (some n, w)
    unfolding main
    main_exits opts args w n q = rw (main, q) refl

    main_aborts :
        (opts : List Opt) (args : List Bytes) (w : World)
        → read_options P opts defaults ≡ aborts
        → main P C opts args w ≡ (none, w)
    unfolding main
    main_aborts opts args w q = rw (main, q) refl

    -- The command that is among the options has run with these settings, and has returned from `w` to
    -- `w1`, which counts no error.
    pub record HasRun (opts : List Opt) (s : Settings P.Regex) (args : List Bytes) (w w1 : World)
        : Type 0 where
      pub backup : mentions is_backup opts ≡ true → C.do_backup s w ≡ (ok tt, w1)
      pub restore : mentions is_restore opts ≡ true → C.do_restore s w ≡ (ok tt, w1)
      pub verify : mentions is_verify opts ≡ true → C.do_verify s w ≡ (ok tt, w1)
      pub cleanup : mentions is_cleanup opts ≡ true → C.do_clean s args w ≡ (ok tt, w1)
      pub speedtest : mentions is_speedtest opts ≡ true → C.do_speedtest s w ≡ (ok tt, w1)
      pub no_errors : (log w1).errors ≡ 0

    -- A guarded command that has returned has run.
    guarded_returns :
        (b : Bool) (w w1 : World) (m : Result (Unit {0}) × World)
        → (if b then (fatal, w) else m) ≡ (ok tt, w1)
        → m ≡ (ok tt, w1)
    guarded_returns true w w1 m e = cc
    guarded_returns false w w1 m e = e

    guarded_runs :
        (b : Bool) (w w1 : World) (m : Result (Unit {0}) × World)
        → (if b then m else (fatal, w)) ≡ (ok tt, w1)
        → m ≡ (ok tt, w1)
    guarded_runs true w w1 m e = e
    guarded_runs false w w1 m e = cc

    named : {b : Bool} → b ≡ true → (if b then true else false) ≡ true
    named e = ground (arith, e)

    flagged-HasRun :
        (opts : List Opt) (s : Settings P.Regex) (args : List Bytes) (w w1 : World)
        → flags s ≡ after (λ f. mentions f opts) (flags (defaults {R = P.Regex}))
        → commands_chosen P s ≡ 1
        → Succeeds s args w w1
        → HasRun opts s args w w1
    unfolding run_command commands_chosen after first_of
    flagged-HasRun opts s args w w1 f one v =
        let (on_backup, on_restore, on_verify, on_cleanup, on_speedtest) =
          first_of-only s.backup s.restore s.verify s.clean s.speedtest
            (if is_given s.from_encoding || is_given s.to_encoding
              then (fatal, w)
              else C.do_backup s w)
            (C.do_restore s w) (C.do_verify s w)
            (if is_empty s.indexfile then C.do_clean s args w else (fatal, w)) (C.do_speedtest s w)
            (ok tt, w) one in
        record {
          backup = λ m.
              guarded_returns (is_given s.from_encoding || is_given s.to_encoding) w w1 _
                (sym (on_backup (ap (λ x. x.0) f ∙ named m)) ∙ v.returned);
          restore = λ m. sym (on_restore (ap (λ x. x.1) f ∙ named m)) ∙ v.returned;
          verify = λ m. sym (on_verify (ap (λ x. x.2) f ∙ named m)) ∙ v.returned;
          cleanup = λ m.
              guarded_runs (is_empty s.indexfile) w w1 _
                (sym (on_cleanup (ap (λ x. x.3) f ∙ named m)) ∙ v.returned);
          speedtest = λ m. sym (on_speedtest (ap (λ x. x.4) f ∙ named m)) ∙ v.returned;
          no_errors = v.no_errors;
        }

    -- If main() exits with the status 0, and was not asked for its help or its version, then exactly
    -- one of the five commands is among the options, however often, and that one has run, with the
    -- settings that the options give, has returned without an exception, and has counted no error.
    pub main-success :
        (opts : List Opt) (args : List Bytes) (w w1 : World)
        → mentions asks_only opts ≡ false
        → main P C opts args w ≡ (some 0, w1)
        → (commands_named opts ≡ 1)
          × ((s : Settings P.Regex) × (read_options P opts defaults ≡ parsed s)
              × HasRun opts s args w w1)
    main-success opts args w w1 h e = by_ending (ending opts defaults h)
      where
        by_ending :
            Ending opts defaults
            → (commands_named opts ≡ 1)
              × ((s : Settings P.Regex) × (read_options P opts defaults ≡ parsed s)
                  × HasRun opts s args w w1)
        by_ending (reads s q f) =
            let same = sym (main_parsed opts args w s q) ∙ e in
            let zero_status : (run P C s args w).0 ≡ 0 = cc (ap (λ p. p.0) same) in
            let (one, done) = run-zero s args w zero_status in
            (
              sym (commands_chosen-named opts s f) ∙ one,
              (
                s,
                q,
                flagged-HasRun opts s args w w1 f one
                    (subst (Succeeds s args w) (ap (λ p. p.1) same) done),
              ),
            )
        by_ending (fails n q z) =
            let same = sym (main_exits opts args w n q) ∙ e in absurd (z (cc (ap (λ p. p.0) same)))
        by_ending (dies_early q) =
            let same = sym (main_aborts opts args w q) ∙ e in absurd (cc (ap (λ p. p.0) same))
