-- ===== src/Oci/Spec/Edited.antt =====
-- What the editors do to a specification.
use action_kit.Prelude.{
  ◌≡◌, ◌∙◌, refl, ap, inl, inr, true, ◌||◌, Option, none, some, List, [], ◌∷◌, Text, text_eq,
  text_eq_iff, if◌then◌else◌, any, any-append, arith, Bool-cases,
}
use action_kit.Oci.{LinuxNamespace}
use action_kit.Oci.Spec.{
  Spec, SpecNamespace, Capabilities, put_namespace, with_namespace, with_namespaces,
  append_if_missing, with_capability, add_capabilities, with_capabilities,
}

-- the path of the namespace of a type
abbrev pub path_of : Text → List SpecNamespace → Option Text
path_of t [] = none
path_of t (n ∷ rest) = if text_eq n.ns_type t then some n.path else path_of t rest

-- the last namespace of a type that a list sets, or what was set before
abbrev pub last_path : Text → List LinuxNamespace → Option Text → Option Text
last_path t [] before = before
last_path t (ns ∷ rest) before =
    last_path t rest (if text_eq ns.ns_type t then some ns.path else before)

pub path_of-put_namespace :
    (t : Text) (ns : SpecNamespace) (l : List SpecNamespace)
    → path_of t (put_namespace ns l) ≡ (if text_eq ns.ns_type t then some ns.path else path_of t l)
unfolding put_namespace
path_of-put_namespace t ns [] = refl
path_of-put_namespace t ns (n ∷ l) = ground (
  arith,
  path_of-put_namespace t ns l,
  text_eq_iff n.ns_type ns.ns_type,
  text_eq_iff n.ns_type t,
  text_eq_iff ns.ns_type t,
)

-- A specification is given, for every type, the namespace that comes last in the list, and keeps
-- what it had for a type that is not in the list.
pub path_of-with_namespaces :
    (t : Text) (ns : List LinuxNamespace) (spec : Spec)
    → path_of t (with_namespaces ns spec).namespaces ≡ last_path t ns (path_of t spec.namespaces)
unfolding with_namespaces with_namespace
path_of-with_namespaces t [] spec = refl
path_of-with_namespaces t (n ∷ ns) spec =
    path_of-with_namespaces t ns (with_namespace n spec)
    ∙ ap (last_path t ns)
        (path_of-put_namespace t (record { ns_type = n.ns_type; path = n.path }) spec.namespaces)

any-append_if_missing :
    (c d : Text) (l : List Text)
    → any (text_eq c) (append_if_missing l d) ≡ (any (text_eq c) l || text_eq c d)
unfolding append_if_missing
any-append_if_missing c d l = elim (Bool-cases (any (text_eq d) l)) [
  | inr missing ↦ rw missing (any-append (text_eq c) l (d ∷ []) ∙ ground arith)
  | inl there ↦
      let same : text_eq c d ≡ true → any (text_eq c) l ≡ true =
        λ e. ap (λ t. any (text_eq t) l) ((text_eq_iff c d).0 e) ∙ there in
      rw there (ground (arith, same))
]

-- the sets of `after` are those of `before` with the capabilities of the list
abbrev pub HasAdded : Text → List Text → Capabilities → Capabilities → Type 0
HasAdded c cs before after =
    (any (text_eq c) after.bounding ≡ (any (text_eq c) before.bounding || any (text_eq c) cs))
    × (any (text_eq c) after.effective ≡ (any (text_eq c) before.effective || any (text_eq c) cs))
    × (any (text_eq c) after.inheritable
        ≡ (any (text_eq c) before.inheritable || any (text_eq c) cs))
    × (any (text_eq c) after.ambient ≡ (any (text_eq c) before.ambient || any (text_eq c) cs))

HasAdded-add_capabilities :
    (c : Text) (cs : List Text) (caps : Capabilities)
    → HasAdded c cs caps (add_capabilities cs caps)
unfolding add_capabilities with_capability
HasAdded-add_capabilities c [] caps = (ground arith, ground arith, ground arith, ground arith)
HasAdded-add_capabilities c (d ∷ cs) caps =
    let (b, e, i, a) = HasAdded-add_capabilities c cs (with_capability d caps) in
    (
      b ∙ ground (arith, any-append_if_missing c d caps.bounding),
      e ∙ ground (arith, any-append_if_missing c d caps.effective),
      i ∙ ground (arith, any-append_if_missing c d caps.inheritable),
      a ∙ ground (arith, any-append_if_missing c d caps.ambient),
    )

permitted-add_capabilities :
    (c : Text) (cs : List Text) (caps : Capabilities)
    → any (text_eq c) caps.permitted ≡ any (text_eq c) caps.effective
    → any (text_eq c) (add_capabilities cs caps).permitted
      ≡ any (text_eq c) (add_capabilities cs caps).effective
unfolding add_capabilities with_capability
permitted-add_capabilities c [] caps h = h
permitted-add_capabilities c (d ∷ cs) caps h =
    permitted-add_capabilities c cs (with_capability d caps) (
      ground (
        arith,
        any-append_if_missing c d caps.effective,
        any-append_if_missing c d (append_if_missing caps.effective d),
      ))

-- Adding capabilities adds them to the bounding, effective, inheritable and ambient sets and nothing
-- else, and gives the permitted set the members of the effective one, whatever it had. The
-- condition: there is a capability to add.
pub with_capabilities-HasAdded :
    (c d : Text) (cs : List Text) (spec : Spec)
    → HasAdded c (d ∷ cs) spec.capabilities (with_capabilities (d ∷ cs) spec).capabilities
      × (any (text_eq c) (with_capabilities (d ∷ cs) spec).capabilities.permitted
          ≡ any (text_eq c) (with_capabilities (d ∷ cs) spec).capabilities.effective)
unfolding with_capabilities add_capabilities with_capability
with_capabilities-HasAdded c d cs spec = (
  HasAdded-add_capabilities c (d ∷ cs) spec.capabilities,
  permitted-add_capabilities c cs (with_capability d spec.capabilities) (
      ground (
        arith,
        any-append_if_missing c d spec.capabilities.effective,
        any-append_if_missing c d (append_if_missing spec.capabilities.effective d),
      )),
)
