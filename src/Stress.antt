-- ===== src/Stress.antt =====
-- action_kit_commons/stress/stress.go: the arguments of stress-ng. Its run is left out.
pub mod Iomix
use action_kit.Prelude.{
  ℕ, Bool, true, false, Option, none, some, List, [], ◌∷◌, ◌++◌, Text, codes, length, ◌==◌,
  if◌then◌else◌,
}
use action_kit.Prelude.Ints.{ℤ, decimal_int}

-- A pointer is an option; the timeout is given by its whole seconds, the hang of the vm workers is
-- not used.
pub record Opts : Type 0 where
  pub cpu_workers : Option ℤ
  pub cpu_load : ℤ
  pub hdd_workers : Option ℤ
  pub hdd_bytes : Text
  pub io_workers : Option ℤ
  pub iomix_workers : Option ℤ
  pub iomix_bytes : Text
  pub temp_path : Text
  pub timeout_seconds : ℤ
  pub vm_workers : Option ℤ
  pub vm_bytes : Text

-- a flag with its number and what belongs to it, if the pointer is not nil
abbrev number_args : Text → Option ℤ → List Text → List Text
number_args flag none more = []
number_args flag (some n) more = flag ∷ decimal_int n ∷ more

-- a flag with its text, if that is not empty
abbrev text_args : Text → Text → List Text
text_args flag s = if length s == 0 then [] else flag ∷ s ∷ []

-- the flag of the iomix bytes, `none` for a nil pointer that is read
unfoldable pub iomix_bytes_args : Opts → Option (List Text)
iomix_bytes_args o = if length o.iomix_bytes == 0 then some [] else elim o.iomix_workers [
  | none ↦ none
  | some n ↦ some (codes "--iomix-bytes" ∷ decimal_int n ∷ [])
]

-- the arguments around those of the iomix bytes
unfoldable pub finish : Bool → Opts → Option (List Text) → Option (List Text)
finish trace o none = none
finish trace o (some iomix) = some (
    codes "--timeout"
    ∷ decimal_int o.timeout_seconds
    ∷ (number_args (codes "--cpu") o.cpu_workers (codes "--cpu-load" ∷ decimal_int o.cpu_load ∷ [])
        ++ (number_args (codes "--hdd") o.hdd_workers []
            ++ (text_args (codes "--hdd-bytes") o.hdd_bytes
                ++ (number_args (codes "--io") o.io_workers []
                    ++ (number_args (codes "--iomix") o.iomix_workers []
                        ++ (iomix
                            ++ (text_args (codes "--temp-path") o.temp_path
                                ++ (number_args (codes "--vm") o.vm_workers (
                                      codes "--vm-bytes"
                                      ∷ o.vm_bytes
                                      ∷ codes "--vm-hang"
                                      ∷ codes "0"
                                      ∷ [])
                                    ++ (if trace then codes "-v" ∷ [] else []))))))))))

-- Opts.Args; `none` is a panic
unfoldable pub args : Bool → Opts → Option (List Text)
unfolding finish iomix_bytes_args
args trace o = finish trace o (iomix_bytes_args o)
