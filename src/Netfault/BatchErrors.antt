-- ===== src/Netfault/BatchErrors.antt =====
-- The errors of `tc -batch` and `ip -batch` (batch_error.go of netfault): hints, what is ignored in
-- which mode, and the text of what is left.
pub mod Parse
pub mod Ignored
use action_kit.Prelude.{
  ℕ, ◌+◌, ◌-◌, ◌≡◌, ◌↔◌, refl, Bool, true, false, not, ◌&&◌, Option, none, some, List, [], ◌∷◌,
  ◌++◌, Text, codes, text_eq, text_eq_iff, decimal, concat, join, contains_text, to_lower, map, leb,
  ltb, ◌==◌, if◌then◌else◌, length, any, all, keep, arith,
}
use action_kit.Prelude.Ints.{ℤ, pos, decimal_int}
use action_kit.Netfault.Types.{Mode, add, delete}

pub record BatchError : Type 0 where
  pub msg : Text
  pub lineno : ℤ
  pub filename : Text

pub record BatchErrors : Type 0 where
  pub cmd : List Text
  pub errors : List BatchError

-- The error of a run of a program: one that `errors.As` finds a batchErrors in, that of
-- validateBatchCommands for a command, or another one.
pub data RunError : Type 0 where
  batch : BatchErrors → RunError
  refused : Text → RunError
  plain : Text → RunError

-- the lists at the head of the file, in lower case
abbrev pub ignore_errors_batch_add : List Text
ignore_errors_batch_add = map to_lower (
    codes "Error: Exclusivity flag on, cannot modify."
    ∷ codes "RTNETLINK answers: File exists"
    ∷ [])

abbrev pub ignore_errors_batch_delete : List Text
ignore_errors_batch_delete = map to_lower (
    codes "Error: Failed to find qdisc with specified classid."
    ∷ codes "Error: Parent Qdisc doesn't exists."
    ∷ codes "Error: Invalid handle."
    ∷ codes "Cannot find device"
    ∷ codes "RTNETLINK answers: No such file or directory"
    ∷ [])

abbrev pub tc_error_kernel_config : List Text
tc_error_kernel_config = map to_lower (
    codes "Error: Specified qdisc not found."
    ∷ codes "Error: Specified qdisc kind is unknown."
    ∷ [])

-- one of the texts is part of the message
unfoldable pub contains : List Text → Text → Bool
contains [] msg = false
contains (ignored ∷ rest) msg = if contains_text msg ignored then true else contains rest msg

abbrev hint : Text → BatchError
hint msg = record { msg = msg; lineno = pos 0; filename = [] }

-- The hints stand in front of the errors if one of them is known to come from the kernel's setup.
unfoldable pub add_tc_error_hints : List BatchError → List BatchError
add_tc_error_hints errs =
    if any (λ e. contains tc_error_kernel_config (to_lower e.msg)) errs
    then hint (
        codes "Kernel configuration error. Please check if the required kernel modules are loaded.")
      ∷ hint (
          codes
            "This is expected, for example, when using minikube under Windows with WLS2 (https://github.com/microsoft/WSL/issues/6065).")
      ∷ errs
    else errs

unfoldable pub ignored_in : Mode → List Text
ignored_in add = ignore_errors_batch_add
ignored_in delete = ignore_errors_batch_delete

-- What is left of an error; `none` is nil.
unfoldable pub filter_batch_errors : RunError → Mode → Option RunError
filter_batch_errors (plain text) mode = some (plain text)
filter_batch_errors (refused cmd) mode = some (refused cmd)
filter_batch_errors (batch be) mode =
    let errs = keep (λ e. not (contains (ignored_in mode) (to_lower e.msg))) be.errors in
    if length errs == 0 then none else some (batch (record { cmd = be.cmd; errors = errs }))

-- the method `Error` of one error
unfoldable pub batch_error_text : BatchError → Text
batch_error_text e =
    concat (e.msg ∷ codes "\nCommand failed " ∷ e.filename ∷ codes ":" ∷ decimal_int e.lineno ∷ [])

abbrev pub occurrences : Text → List BatchError → ℕ
occurrences msg [] = 0
occurrences msg (e ∷ rest) =
    if text_eq e.msg msg then 1 + occurrences msg rest else occurrences msg rest

-- The loop of `Error`: the first error of each message, with how often the message occurs in all.
pub report : List BatchError → List Text → List BatchError → List (BatchError × ℕ)
report all_errors reported [] = []
report all_errors reported (e ∷ rest) =
    let skipped = report all_errors reported rest in
    let later = report all_errors (e.msg ∷ reported) rest in
    if any (text_eq e.msg) reported then skipped else (e, occurrences e.msg all_errors) ∷ later

write_report : List (BatchError × ℕ) → Text
write_report [] = []
write_report ((e, count) ∷ rest) =
    batch_error_text e
    ++ ((if ltb 1 count then codes " (and " ++ (decimal (count - 1) ++ codes " more)") else [])
        ++ (codes "\n" ++ write_report rest))

unfoldable pub batch_errors_text : BatchErrors → Text
unfolding report write_report
batch_errors_text be =
    codes "Command failed "
    ++ (join (codes " ") be.cmd ++ (codes "\n" ++ write_report (report be.errors [] be.errors)))

abbrev pub mentions : Text → List (BatchError × ℕ) → ℕ
mentions msg [] = 0
mentions msg (entry ∷ rest) =
    if text_eq entry.0.msg msg then 1 + mentions msg rest else mentions msg rest

mentions-report :
    (msg : Text) (every : List BatchError) (reported : List Text) (errs : List BatchError)
    → mentions msg (report every reported errs)
      ≡ (if not (any (text_eq msg) reported) && any (λ e. text_eq e.msg msg) errs then 1 else 0)
unfolding report
mentions-report msg every reported [] = ground arith
mentions-report msg every reported (e ∷ errs) = ground (
  arith,
  mentions-report msg every reported errs,
  mentions-report msg every (e.msg ∷ reported) errs,
  text_eq_iff e.msg msg,
  text_eq_iff msg e.msg,
)

-- The report on a batch mentions every message of its errors once, and no other message.
pub report-once :
    (msg : Text) (be : BatchErrors)
    → mentions msg (report be.errors [] be.errors)
      ≡ (if any (λ e. text_eq e.msg msg) be.errors then 1 else 0)
report-once msg be = mentions-report msg be.errors [] be.errors
