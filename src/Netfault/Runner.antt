-- ===== src/Netfault/Runner.antt =====
-- The command runners (runner_process.go, runner_runc.go): what they write to a program and what
-- they make of its end. The program is a parameter, os/exec or the container runtime.
pub mod Lines
pub mod Container
pub mod Joins
use action_kit.Prelude.{
  ◌≡◌, ◌⊎◌, refl, inl, inr, Bool, true, false, not, ◌&&◌, Option, none, some, List, [], ◌∷◌, ◌++◌,
  Text, codes, concat,
}
use action_kit.Netfault.Types.{Error, Result, ok, err, newline_in_command, Result-cases}
use action_kit.Netfault.Commands.{batch_input, validate_batch_commands}
use action_kit.Netfault.BatchErrors.{BatchErrors, RunError, batch, refused, plain}
use action_kit.Netfault.BatchErrors.Parse.{parse_batch_error}

-- How a program ended: the text of the error of `Run`, where there is one, and its two streams.
pub record Exit : Type 0 where
  pub failure : Option Text
  pub stdout : Text
  pub stderr : Text

-- what `run` of a runner returns
pub data Output : Type 0 where
  output : Text → Output
  run_failed : RunError → Output

-- The program with these arguments reads the text and changes the world.
abbrev pub Program : Type 0 → Type 0
Program W = List Text → Text → W → W × Exit

-- the text of the error that is no batch error, behind the runner's word for it
failure_text : Text → Text → Exit → Text
failure_text what failure exit = concat (
    what
    ∷ codes "failed: "
    ∷ failure
    ∷ codes ", output: "
    ∷ exit.stdout
    ∷ codes ", error: "
    ∷ exit.stderr
    ∷ [])

unfoldable pub output_of : Text → List Text → Exit → Output
unfolding failure_text
output_of what args exit = elim exit.failure [
  | none ↦ output exit.stdout
  | some failure ↦ elim (parse_batch_error args exit.stderr) [
    | some parsed ↦ run_failed (batch parsed)
    | none ↦ run_failed (plain (failure_text what failure exit))
  ]
]

unfoldable pub refusal : Error → RunError
refusal (newline_in_command s) = refused s
refusal _ = plain []

module _ {W : Type 0} (program : Program W) where
  -- the lines are checked and written to the program
  unfoldable pub run_checked : Text → List Text → List Text → List Text → W → W × Output
  unfolding refusal
  run_checked what args command cmds w = elim (validate_batch_commands cmds) [
    | err e ↦ (w, run_failed (refusal e))
    | ok done ↦
        let (w', exit) = program command (batch_input cmds) w in (w', output_of what args exit)
  ]

  -- `processRunner.run`
  unfoldable pub process_run : List Text → List Text → W → W × Output
  process_run args cmds w = run_checked [] args args cmds w
