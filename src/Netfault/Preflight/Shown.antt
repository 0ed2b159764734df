-- ===== src/Netfault/Preflight/Shown.antt =====
-- What the preflight check says of the root qdiscs that `tc qdisc show` prints (PreflightCheck).
use action_kit.Prelude.{
  ◌≡◌, Bool, true, not, ◌||◌, ◌&&◌, Option, none, some, List, [], ◌∷◌, ◌++◌, Text, codes, text_eq,
  all, ◌==◌, if◌then◌else◌,
}
use action_kit.Netfault.Preflight.Fields.{IsWord}

-- a root qdisc as tc shows it: `more` stands behind the word `root`
pub record Root : Type 0 where
  pub kind : Text
  pub handle : Text
  pub interface : Text
  pub more : Text

abbrev pub show_root : Root → Text
show_root r =
    codes "qdisc"
    ++ 32
      ∷ (r.kind
          ++ 32
            ∷ (r.handle
                ++ 32 ∷ (codes "dev" ++ 32 ∷ (r.interface ++ 32 ∷ (codes "root" ++ 32 ∷ r.more)))))

-- one line for each
abbrev pub show : List Root → Text
show [] = []
show (r ∷ rs) = show_root r ++ (10 ∷ show rs)

abbrev pub IsShown : Root → Type 0
IsShown r =
    IsWord r.kind × IsWord r.handle × IsWord r.interface × (all (λ c. not (c == 10)) r.more ≡ true)

-- the kind of the last root qdisc of an interface
abbrev pub last_kind : Text → List Root → Option Text
last_kind ifc [] = none
last_kind ifc (r ∷ rs) = elim (last_kind ifc rs) [
  | some kind ↦ some kind
  | none ↦ if text_eq r.interface ifc then some r.kind else none
]

-- The kinds that may be replaced: `noqueue`, and unless the check is strict the kernel's defaults.
abbrev pub may_replace : Bool → Text → Bool
may_replace strict kind =
    text_eq kind (codes "noqueue")
    || not strict
      && (text_eq kind (codes "mq")
          || text_eq kind (codes "pfifo_fast")
          || text_eq kind (codes "fq_codel")
          || text_eq kind (codes "fq"))

-- an interface without a root qdisc, or with one that may be replaced
abbrev pub replaceable : Bool → List Root → Text → Bool
replaceable strict rs ifc = elim (last_kind ifc rs) [
  | none ↦ true
  | some kind ↦ may_replace strict kind
]

no_break : Text → Bool
no_break = all (λ c. not (c == 10))

or_kind : Option Text → Text → Text
or_kind none other = other
or_kind (some kind) other = kind
