-- ===== src/Netfault/BatchErrors/Ignored.antt =====
-- Which errors of a batch count (filterBatchErrors).
use action_kit.Prelude.{
  ◌≡◌, refl, ap, Bool, not, ◌||◌, none, some, List, [], ◌∷◌, Text, codes, to_lower, contains_text,
  any, keep, length, ◌==◌, if◌then◌else◌, arith, Bool-cases, inl, inr,
}
use action_kit.Netfault.Types.{Mode, add, delete}
use action_kit.Netfault.BatchErrors.{
  BatchError, BatchErrors, batch, refused, plain, contains, ignored_in, filter_batch_errors,
}

-- What the attack wants is there when it is added, or is gone when it is deleted; the message is in
-- lower case.
abbrev pub is_harmless : Mode → Text → Bool
is_harmless add msg =
    contains_text msg (codes "error: exclusivity flag on, cannot modify.")
    || contains_text msg (codes "rtnetlink answers: file exists")
is_harmless delete msg =
    contains_text msg (codes "error: failed to find qdisc with specified classid.")
    || contains_text msg (codes "error: parent qdisc doesn't exists.")
    || contains_text msg (codes "error: invalid handle.")
    || contains_text msg (codes "cannot find device")
    || contains_text msg (codes "rtnetlink answers: no such file or directory")

-- an error that counts in the mode
abbrev pub counts : Mode → BatchError → Bool
counts mode e = not (is_harmless mode (to_lower e.msg))

contains-is_harmless :
    (mode : Mode) (msg : Text) → contains (ignored_in mode) msg ≡ is_harmless mode msg
unfolding contains ignored_in
contains-is_harmless add msg = ground arith
contains-is_harmless delete msg = ground arith

keep-same :
    (p q : BatchError → Bool) (errs : List BatchError)
    → ((e : BatchError) → p e ≡ q e)
    → keep p errs ≡ keep q errs
keep-same p q [] same = refl
keep-same p q (e ∷ errs) same = rw (same e, keep-same p q errs same) refl

nothing_kept :
    (p : BatchError → Bool) (errs : List BatchError)
    → (length (keep p errs) == 0) ≡ not (any p errs)
nothing_kept p [] = refl
nothing_kept p (e ∷ errs) = ground (arith, nothing_kept p errs)

-- What is left of the error of a run: nothing of a batch whose messages all say, in whatever case,
-- that what is added is there or that what is deleted is gone; of another batch the errors that do
-- not say so, in their order; and every other error as it is.
pub filter_batch_errors_harmless :
    (mode : Mode) (be : BatchErrors) (text : Text)
    → (filter_batch_errors (batch be) mode ≡ (
        if any (counts mode) be.errors
        then some (batch (record { cmd = be.cmd; errors = keep (counts mode) be.errors }))
        else none))
      × (filter_batch_errors (refused text) mode ≡ some (refused text))
      × (filter_batch_errors (plain text) mode ≡ some (plain text))
unfolding filter_batch_errors
filter_batch_errors_harmless mode be text =
    let kept =
      keep-same (λ e. not (contains (ignored_in mode) (to_lower e.msg))) (counts mode) be.errors
        (λ e. ap not (contains-is_harmless mode (to_lower e.msg))) in
    (
      elim (Bool-cases (any (counts mode) be.errors)) [
        | inl some_count ↦ rw (kept, nothing_kept (counts mode) be.errors, some_count) refl
        | inr none_count ↦ rw (kept, nothing_kept (counts mode) be.errors, none_count) refl
      ],
      refl,
      refl,
    )
