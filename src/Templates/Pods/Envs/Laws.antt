-- ===== src/Templates/Pods/Envs/Laws.antt =====
-- The order in which variables win: Envs of pkg/k8sutils/templates/pod/spec.go.
use starrocks_kubernetes_ope.Base.{
  String, Option, none, some, List, [], ◌∷◌, ◌++◌, Dict, Bool, true, false, first_of_two,
  first_of_two-none, is_some, if◌then◌else◌, ◌||◌, ◌≡◌, refl, sym, ◌∙◌, arith, ap, Bool-cases, inl,
  inr,
}
use starrocks_kubernetes_ope.Kube.{EnvVar}
use starrocks_kubernetes_ope.Api.{SpecKind}
use starrocks_kubernetes_ope.K8sutils.Volumes.{member}
use starrocks_kubernetes_ope.Templates.Pods.Envs.{
  names_of, unsupported_names, add_env, add_envs, default_envs, make_envs,
}
use text.Mathlib.Text.{◌==◌}
use text.Mathlib.TextEquality.{eq_iff}

-- The first variable of a name.
abbrev pub find_env : String → List EnvVar → Option EnvVar
find_env name [] = none
find_env name (env ∷ envs) = if env.name == name then some env else find_env name envs

-- What the operator adds under a name.
abbrev pub added_under : List String → String → List EnvVar → Option EnvVar
added_under unsupported name envs = if member name unsupported then none else find_env name envs

member-names_of :
    (name : String) (envs : List EnvVar)
    → member name (names_of envs) ≡ is_some (find_env name envs)
member-names_of name [] = refl
member-names_of name (env ∷ envs) = ground (arith, member-names_of name envs)

pub find_env-append :
    (name : String) (xs ys : List EnvVar)
    → find_env name (xs ++ ys) ≡ first_of_two (find_env name xs) (find_env name ys)
find_env-append name [] ys = refl
find_env-append name (env ∷ xs) ys = elim (Bool-cases (env.name == name)) [
  | inl same ↦ rw same refl
  | inr other ↦ rw other (find_env-append name xs ys)
]

first_of_two-some : {A : Type 0} (o p : Option A) → is_some o ≡ true → first_of_two o p ≡ o
first_of_two-some none p h = cc
first_of_two-some (some a) p h = refl

first_of_two_assoc :
    {A : Type 0} (o p q : Option A)
    → first_of_two (first_of_two o p) q ≡ first_of_two o (first_of_two p q)
first_of_two_assoc none p q = refl
first_of_two_assoc (some a) p q = refl

-- A variable that is not added hides nothing: its name is taken, or not supported.
find_env-kept :
    (unsupported : List String) (name : String) (envs : List EnvVar) (env : EnvVar)
    → (member env.name (names_of envs) || member env.name unsupported) ≡ true
    → find_env name envs
      ≡ first_of_two (find_env name envs) (added_under unsupported name (env ∷ []))
find_env-kept unsupported name envs env taken = elim (Bool-cases (env.name == name)) [
  | inr other ↦ elim (Bool-cases (member name unsupported)) [
    | inl barred ↦ rw (other, barred) (sym (first_of_two-none (find_env name envs)))
    | inr allowed ↦ rw (other, allowed) (sym (first_of_two-none (find_env name envs)))
  ]
  | inl same ↦
      let named : env.name ≡ name = (eq_iff env.name name).0 same in
      let taken' : (member name (names_of envs) || member name unsupported) ≡ true =
        rw (← named) taken in
      elim (Bool-cases (member name unsupported)) [
        | inl barred ↦ rw barred (sym (first_of_two-none (find_env name envs)))
        | inr allowed ↦
            sym
              (first_of_two-some (find_env name envs) _ (ground (arith, member-names_of name envs)))
      ]
]

added_under-free :
    (unsupported : List String) (name : String) (env : EnvVar)
    → member env.name unsupported ≡ false
    → find_env name (env ∷ []) ≡ added_under unsupported name (env ∷ [])
added_under-free unsupported name env free = elim (Bool-cases (env.name == name)) [
  | inl same ↦
      let allowed : member name unsupported ≡ false = rw (← (eq_iff env.name name).0 same) free in
      rw allowed refl
  | inr other ↦ elim (Bool-cases (member name unsupported)) [
    | inl barred ↦ rw (other, barred) refl
    | inr allowed ↦ rw (other, allowed) refl
  ]
]

second_false : (a b : Bool) → (a || b) ≡ false → b ≡ false
second_false true b h = cc
second_false false b h = h

find_env-add_env :
    (unsupported : List String) (name : String) (envs : List EnvVar) (env : EnvVar)
    → find_env name (add_env unsupported envs env)
      ≡ first_of_two (find_env name envs) (added_under unsupported name (env ∷ []))
unfolding add_env
find_env-add_env unsupported name envs env =
    elim (Bool-cases (member env.name (names_of envs) || member env.name unsupported)) [
      | inl taken ↦ rw taken (find_env-kept unsupported name envs env taken)
      | inr free ↦ rw free (
          find_env-append name envs (env ∷ [])
          ∙ ap (first_of_two (find_env name envs))
              (added_under-free unsupported name env (second_false _ _ free)))
    ]

added_under-cons :
    (unsupported : List String) (name : String) (env : EnvVar) (envs : List EnvVar)
    → first_of_two (added_under unsupported name (env ∷ [])) (added_under unsupported name envs)
      ≡ added_under unsupported name (env ∷ envs)
added_under-cons unsupported name env envs = elim (Bool-cases (member name unsupported)) [
  | inl barred ↦ rw barred refl
  | inr allowed ↦ rw allowed (sym (find_env-append name (env ∷ []) envs))
]

find_env-add_envs :
    (unsupported : List String) (name : String) (added envs : List EnvVar)
    → find_env name (add_envs unsupported envs added)
      ≡ first_of_two (find_env name envs) (added_under unsupported name added)
unfolding add_envs
find_env-add_envs unsupported name [] envs = elim (Bool-cases (member name unsupported)) [
  | inl barred ↦ rw barred (sym (first_of_two-none (find_env name envs)))
  | inr allowed ↦ rw allowed (sym (first_of_two-none (find_env name envs)))
]
find_env-add_envs unsupported name (env ∷ added) envs =
    find_env-add_envs unsupported name added (add_env unsupported envs env)
    ∙ ap (λ o. first_of_two o (added_under unsupported name added))
        (find_env-add_env unsupported name envs env)
    ∙ first_of_two_assoc (find_env name envs) (added_under unsupported name (env ∷ []))
        (added_under unsupported name added)
    ∙ ap (first_of_two (find_env name envs)) (added_under-cons unsupported name env added)

pub make_envs-find :
    (unsupported name : String) (kind : SpecKind) (config : Dict String)
    (fe_service namespace : String) (envs : List EnvVar)
    → find_env name (make_envs unsupported kind config fe_service namespace envs)
      ≡ first_of_two (find_env name envs) (
          added_under
            (unsupported_names unsupported)
            name
            (default_envs kind config fe_service namespace))
unfolding make_envs
make_envs-find unsupported name kind config fe_service namespace envs =
    find_env-add_envs (unsupported_names unsupported) name
      (default_envs kind config fe_service namespace) envs
