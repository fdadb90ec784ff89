-- ===== src/Routing/Plan.antt =====
-- The orchestrators and the tasks of a plan.
use enterprise_ai_sales_orch.Prelude.{
  All-append, ◌≡◌, ◌≢◌, ◌++◌, true, false, ◌||◌, Option, List, [], ◌∷◌, refl, ◌∙◌, arith, All, map,
  Bool-cases, inl, inr,
}
use enterprise_ai_sales_orch.Prelude.Text.{
  Text, codes, text_eq, text_eq_refl, text_eq-eq, listed, or_text, or_empty,
}
use enterprise_ai_sales_orch.Persistence.Value.{Value, Fields}
use enterprise_ai_sales_orch.Routing.{
  get_default_fallback_orchestrator, Configuration, UnifiedManagerRequest, PlannedTask,
  ManagerDecision, canonical_orchestrator, orchestrator_stream, stream_for, add_canonical,
  canonical_list, task_of, routed, chosen_orchestrators, build_plan,
}

-- No text stands in the list twice.
abbrev pub Distinct : List Text → Type 0
Distinct [] = Unit
Distinct (t ∷ ts) = (listed t ts ≡ false) × Distinct ts

abbrev pub IsCanonical : Text → Type 0
IsCanonical orch = canonical_orchestrator orch ≡ orch

abbrev pub streams : List PlannedTask → List Text
streams [] = []
streams (t ∷ ts) = t.stream ∷ streams ts

module _ (str : Value → Text) (dumps : Fields → Option Text) where
  -- What a plan promises of its orchestrators and tasks.
  pub record IsPlan {C : Type 0} (c : Configuration) (req : UnifiedManagerRequest)
      (d : ManagerDecision C) : Type 0 where
    pub distinct : Distinct d.orchestrators
    pub canonical : All IsCanonical d.orchestrators
    pub planned : d.orchestrators ≢ []
    pub complete :
        (orch : Text)
        → listed orch (routed str dumps c d.intent req) ≡ true
        → listed (canonical_orchestrator orch) d.orchestrators ≡ true
    pub one_task_each :
        streams d.tasks
        ≡ map
            (orchestrator_stream (or_text (or_empty req.tenant_id) (codes "default")))
            d.orchestrators

canonical_orchestrator-IsCanonical : (orch : Text) → IsCanonical (canonical_orchestrator orch)
unfolding canonical_orchestrator
canonical_orchestrator-IsCanonical orch = elim (Bool-cases (text_eq orch (codes "outreach"))) [
  | inl alias ↦ rw alias refl
  | inr other ↦ rw (other, other) refl
]

listed-append : (t : Text) (ts us : List Text) → listed t (ts ++ us) ≡ (listed t ts || listed t us)
listed-append t [] us = refl
listed-append t (v ∷ ts) us = ground (arith, listed-append t ts us)

text_eq_sym : (s t : Text) → text_eq s t ≡ text_eq t s
text_eq_sym [] [] = refl
text_eq_sym [] (b ∷ t) = refl
text_eq_sym (a ∷ s) [] = refl
text_eq_sym (a ∷ s) (b ∷ t) = ground (arith, text_eq_sym s t)

Distinct-append :
    (ts : List Text) (t : Text) → Distinct ts → listed t ts ≡ false → Distinct (ts ++ t ∷ [])
Distinct-append [] t h new = (refl, tt)
Distinct-append (v ∷ ts) t (first, h) new =
    let apart : text_eq v t ≡ false = text_eq_sym v t ∙ ground (arith, new) in
    let more : listed t ts ≡ false = ground (arith, new) in
    (rw (listed-append v ts (t ∷ []), first, apart) refl, Distinct-append ts t h more)

add_canonical-Distinct :
    (acc : List Text) (orch : Text) → Distinct acc → Distinct (add_canonical acc orch)
unfolding add_canonical
add_canonical-Distinct acc orch h = elim (Bool-cases (listed (canonical_orchestrator orch) acc)) [
  | inl there ↦ rw there h
  | inr new ↦ rw new (Distinct-append acc (canonical_orchestrator orch) h new)
]

add_canonical-IsCanonical :
    (acc : List Text) (orch : Text) → All IsCanonical acc → All IsCanonical (add_canonical acc orch)
unfolding add_canonical
add_canonical-IsCanonical acc orch h =
    elim (Bool-cases (listed (canonical_orchestrator orch) acc)) [
      | inl there ↦ rw there h
      | inr new ↦ rw new (
          All-append IsCanonical acc (canonical_orchestrator orch ∷ []) h
            (canonical_orchestrator-IsCanonical orch, tt))
    ]

add_canonical-listed :
    (acc : List Text) (orch : Text)
    → listed (canonical_orchestrator orch) (add_canonical acc orch) ≡ true
unfolding add_canonical
add_canonical-listed acc orch = elim (Bool-cases (listed (canonical_orchestrator orch) acc)) [
  | inl there ↦ rw (there, there) refl
  | inr new ↦
      rw
        (
          new,
          listed-append (canonical_orchestrator orch) acc (canonical_orchestrator orch ∷ []),
          new,
          text_eq_refl (canonical_orchestrator orch),
        )
        refl
]

add_canonical-keeps :
    (acc : List Text) (orch t : Text)
    → listed t acc ≡ true
    → listed t (add_canonical acc orch) ≡ true
unfolding add_canonical
add_canonical-keeps acc orch t h = elim (Bool-cases (listed (canonical_orchestrator orch) acc)) [
  | inl there ↦ rw there h
  | inr new ↦ rw (new, listed-append t acc (canonical_orchestrator orch ∷ []), h) refl
]

canonical_list-Distinct :
    (orchs acc : List Text) → Distinct acc → Distinct (canonical_list acc orchs)
unfolding canonical_list
canonical_list-Distinct [] acc h = h
canonical_list-Distinct (o ∷ os) acc h =
    canonical_list-Distinct os (add_canonical acc o) (add_canonical-Distinct acc o h)

canonical_list-IsCanonical :
    (orchs acc : List Text) → All IsCanonical acc → All IsCanonical (canonical_list acc orchs)
unfolding canonical_list
canonical_list-IsCanonical [] acc h = h
canonical_list-IsCanonical (o ∷ os) acc h =
    canonical_list-IsCanonical os (add_canonical acc o) (add_canonical-IsCanonical acc o h)

canonical_list-keeps :
    (orchs acc : List Text) (t : Text)
    → listed t acc ≡ true
    → listed t (canonical_list acc orchs) ≡ true
unfolding canonical_list
canonical_list-keeps [] acc t h = h
canonical_list-keeps (o ∷ os) acc t h =
    canonical_list-keeps os (add_canonical acc o) t (add_canonical-keeps acc o t h)

canonical_list-listed :
    (orchs acc : List Text) (orch : Text)
    → listed orch orchs ≡ true
    → listed (canonical_orchestrator orch) (canonical_list acc orchs) ≡ true
unfolding canonical_list
canonical_list-listed [] acc orch h = cc
canonical_list-listed (o ∷ os) acc orch h = elim (Bool-cases (text_eq orch o)) [
  | inl same ↦
      let is : orch ≡ o = text_eq-eq orch o same in
      rw is (
        canonical_list-keeps os (add_canonical acc o) (canonical_orchestrator o)
          (add_canonical-listed acc o))
  | inr other ↦ canonical_list-listed os (add_canonical acc o) orch (ground (arith, h, other))
]

listed-some : (t : Text) (ts : List Text) → listed t ts ≡ true → ts ≢ []
listed-some t [] h e = absurd cc
listed-some t (u ∷ ts) h e = absurd cc

streams_of_tasks :
    (str : Value → Text) (dumps : Fields → Option Text) (intent : Text)
    (req : UnifiedManagerRequest) (orchs : List Text)
    → All IsCanonical orchs
    → streams (map (task_of str dumps intent req) orchs)
      ≡ map (orchestrator_stream (or_text (or_empty req.tenant_id) (codes "default"))) orchs
unfolding task_of stream_for
streams_of_tasks str dumps intent req [] h = refl
streams_of_tasks str dumps intent req (o ∷ os) (is, h) =
    rw (is, streams_of_tasks str dumps intent req os h) refl

chosen_listed :
    (str : Value → Text) (dumps : Fields → Option Text) (c : Configuration) (orchs : List Text)
    (req : UnifiedManagerRequest)
    → (orch : Text) × (listed orch (chosen_orchestrators str dumps c orchs req) ≡ true)
unfolding chosen_orchestrators
chosen_listed str dumps c [] req =
    let fallback = get_default_fallback_orchestrator c req.tenant_id in
    (fallback, rw (text_eq_refl fallback) refl)
chosen_listed str dumps c (o ∷ os) req = (o, rw (text_eq_refl o) refl)

chosen_keeps :
    (str : Value → Text) (dumps : Fields → Option Text) (c : Configuration) (orchs : List Text)
    (req : UnifiedManagerRequest) (orch : Text)
    → listed orch orchs ≡ true
    → listed orch (chosen_orchestrators str dumps c orchs req) ≡ true
unfolding chosen_orchestrators
chosen_keeps str dumps c [] req orch h = cc
chosen_keeps str dumps c (o ∷ os) req orch h = h

-- Whatever the files of the routing hold: a plan names at least one orchestrator and none twice, each by its
-- canonical name; every orchestrator that the routing gives the intent is among them; and there is one
-- task for each, in their order, on its stream of the tenant.
pub build_plan-IsPlan :
    (str : Value → Text) (dumps : Fields → Option Text) {C : Type 0} (c : Configuration)
    (intent : Text) (confidence : C) (reasons : List Text) (req : UnifiedManagerRequest)
    → IsPlan str dumps c req (build_plan str dumps c intent confidence reasons req)
unfolding build_plan
build_plan-IsPlan str dumps c intent confidence reasons req =
    let orchs = chosen_orchestrators str dumps c (routed str dumps c intent req) req in
    let canonical = canonical_list-IsCanonical orchs [] tt in
    record {
      distinct = canonical_list-Distinct orchs [] tt;
      canonical = canonical;
      planned =
          let (orch, is) = chosen_listed str dumps c (routed str dumps c intent req) req in
          listed-some (canonical_orchestrator orch) (canonical_list [] orchs)
            (canonical_list-listed orchs [] orch is);
      complete = λ orch h.
          canonical_list-listed orchs [] orch
            (chosen_keeps str dumps c (routed str dumps c intent req) req orch h);
      one_task_each = streams_of_tasks str dumps intent req (canonical_list [] orchs) canonical;
    }
