-- ===== src/Stress/Iomix.antt =====
-- What becomes of the iomix options of stress-ng (stress.go).
use action_kit.Prelude.{
  ◌≡◌, ◌↔◌, refl, sym, ap, ◌∙◌, Bool, false, Option, none, some, [], ◌∷◌, Text, codes, length, ◌==◌,
}
use action_kit.Prelude.Ints.{ℤ, decimal_int}
use action_kit.Stress.{Opts, finish, args, iomix_bytes_args}

abbrev pub with_iomix : Opts → Option ℤ → Text → Opts
with_iomix o workers bytes = record {
  cpu_workers = o.cpu_workers;
  cpu_load = o.cpu_load;
  hdd_workers = o.hdd_workers;
  hdd_bytes = o.hdd_bytes;
  io_workers = o.io_workers;
  iomix_workers = workers;
  iomix_bytes = bytes;
  temp_path = o.temp_path;
  timeout_seconds = o.timeout_seconds;
  vm_workers = o.vm_workers;
  vm_bytes = o.vm_bytes;
}

iomix_bytes_args-none :
    (o : Opts) (bytes : Text)
    → (length bytes == 0) ≡ false
    → iomix_bytes_args (with_iomix o none bytes) ≡ none
unfolding iomix_bytes_args
iomix_bytes_args-none o bytes h = rw h refl

iomix_bytes_args-some :
    (o : Opts) (n : ℤ) (bytes : Text)
    → (length bytes == 0) ≡ false
    → iomix_bytes_args (with_iomix o (some n) bytes)
      ≡ some (codes "--iomix-bytes" ∷ decimal_int n ∷ [])
unfolding iomix_bytes_args
iomix_bytes_args-some o n bytes h = rw h refl

-- Options that name iomix bytes lose them: without iomix workers the arguments panic, and with them
-- they are the same whatever the bytes are.
pub args-loses_iomix_bytes :
    (trace : Bool) (o : Opts) (workers : Option ℤ) (bytes other : Text)
    → (length bytes == 0) ≡ false
    → (length other == 0) ≡ false
    → (args trace (with_iomix o workers bytes) ≡ args trace (with_iomix o workers other))
      × ((args trace (with_iomix o workers bytes) ≡ none) ↔ (workers ≡ none))
unfolding args finish
args-loses_iomix_bytes trace o none bytes other hb ho =
    let first = ap (finish trace (with_iomix o none bytes)) (iomix_bytes_args-none o bytes hb) in
    let second = ap (finish trace (with_iomix o none other)) (iomix_bytes_args-none o other ho) in
    (first ∙ sym second, ((λ _. refl), (λ _. first)))
args-loses_iomix_bytes trace o (some n) bytes other hb ho =
    let first =
      ap (finish trace (with_iomix o (some n) bytes)) (iomix_bytes_args-some o n bytes hb) in
    let second =
      ap (finish trace (with_iomix o (some n) other)) (iomix_bytes_args-some o n other ho) in
    (first ∙ sym second, ((λ e. let clash = sym first ∙ e in cc), (λ e. cc)))
